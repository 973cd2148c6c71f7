-- ===== src/Prisma/Query.antt =====
-- The queries on lists of rows, by which the documented behaviour of the database is stated.
use novelhub.Prelude.{
  ℕ, ◌+◌, Bool, false, Option, none, some, List, [], ◌∷◌, ◌++◌, take, drop, not, ◌&&◌, ◌||◌,
  is_some, get_or, if◌then◌else◌,
}
use Prim.Native.Nat.{max}
use novelhub.Action.{Result, ok, err, record_not_found, unique_violation}

module _ {Row : Type 0} where
  -- Each recursive call is structural.
  abbrev pub first : (Row → Bool) → List Row → Option Row
  first w [] = none
  first w (r ∷ rows) = if w r then some r else first w rows

  abbrev pub matching : (Row → Bool) → List Row → List Row
  matching w [] = []
  matching w (r ∷ rows) = if w r then r ∷ matching w rows else matching w rows

  abbrev pub count_rows : (Row → Bool) → List Row → ℕ
  count_rows w [] = 0
  count_rows w (r ∷ rows) = (if w r then 1 else 0) + count_rows w rows

  -- The greatest value of a column.
  abbrev pub max_rows : (Row → ℕ) → (Row → Bool) → List Row → Option ℕ
  max_rows f w [] = none
  max_rows f w (r ∷ rows) =
      if w r then some (max (f r) (get_or (max_rows f w rows) 0)) else max_rows f w rows

  abbrev pub update_rows : (Row → Bool) → (Row → Row) → List Row → List Row
  update_rows w f [] = []
  update_rows w f (r ∷ rows) = (if w r then f r else r) ∷ update_rows w f rows

  -- Two rows that clash after the update, one of which it has written.
  abbrev pub update_clashes : (Row → Row → Bool) → (Row → Bool) → (Row → Row) → List Row → Bool
  update_clashes clash w f [] = false
  update_clashes clash w f (r ∷ rows) =
      is_some (
        if w r
        then first (clash (f r)) (update_rows w f rows)
        else first (λ s. w s && clash r (f s)) rows)
      || update_clashes clash w f rows

  abbrev pub update_unique :
      (Row → Row → Bool) → (Row → Bool) → (Row → Row) → List Row → Option (List Row × ℕ)
  update_unique clash w f rows =
      if update_clashes clash w f rows then none else some (update_rows w f rows, count_rows w rows)

  abbrev pub insert_row : (Row → Row → Bool) → Row → List Row → Option (List Row)
  insert_row clash row rows = elim (first (clash row) rows) [
    | none ↦ some (rows ++ row ∷ [])
    | some _ ↦ none
  ]

  -- The new values may not clash with a row that stays.
  abbrev pub update_row :
      (Row → Row → Bool) → (Row → Bool) → (Row → Row) → List Row → Result (List Row)
  update_row clash w f rows = elim (first w rows) [
    | none ↦ err record_not_found
    | some r ↦
        if is_some (first (λ s. not (w s) && clash (f r) s) rows)
        then err unique_violation
        else ok (update_rows w f rows)
  ]

  abbrev pub upsert_row : (Row → Bool) → Row → (Row → Row) → List Row → List Row
  upsert_row w row f rows = elim (first w rows) [
    | none ↦ rows ++ row ∷ []
    | some _ ↦ update_rows w f rows
  ]

  abbrev pub place : (Row → Row → Bool) → Row → List Row → List Row
  place before r [] = r ∷ []
  place before r (s ∷ rows) = if before r s then r ∷ s ∷ rows else s ∷ place before r rows

  abbrev pub sort : (Row → Row → Bool) → List Row → List Row
  sort before [] = []
  sort before (r ∷ rows) = place before r (sort before rows)

  abbrev pub page_of : ℕ → ℕ → List Row → List Row
  page_of skip n rows = take n (drop skip rows)

-- A transaction keeps the writes of a body that returns and undoes those of one that throws.
abbrev pub commit : {S A : Type 0} → Result A × S → S → Result A × S
commit (ok a, s') s = (ok a, s')
commit (err e, s') s = (err e, s)
