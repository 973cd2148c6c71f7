-- ===== src/Prisma/Rows.antt =====
-- Facts about the queries on lists that the services' proofs share.
use mathlib.Core.Path.{subst}
use novelhub.Prelude.{
  Bool, true, false, none, some, List, [], ◌∷◌, ◌++◌, ◌≡◌, refl, arith, ◌&&◌, All, inl, inr,
  Bool-cases,
}
use novelhub.Prisma.Query.{first, update_rows, update_clashes, count_rows, insert_row}

module _ {ℓ} {Row : Type 0} (P : Row → Type ℓ) where
  pub first-All :
      (w : Row → Bool) (rows : List Row) (r : Row) → All P rows → first w rows ≡ some r → P r
  first-All w [] r h e = cc
  first-All w (x ∷ rows) r h e = elim (Bool-cases (w x)) [
    | inl q ↦ let found : x ≡ r = ground arith in subst P found h.0
    | inr q ↦ first-All w rows r h.1 (rw q at e)
  ]

  -- An update keeps what holds of every row if the update of each chosen row keeps it.
  pub update_rows-All :
      (w : Row → Bool) (f : Row → Row) (rows : List Row)
      → ((r : Row) → w r ≡ true → P r → P (f r))
      → All P rows
      → All P (update_rows w f rows)
  update_rows-All w f [] k h = tt
  update_rows-All w f (x ∷ rows) k h = elim (Bool-cases (w x)) [
    | inl q ↦ rw q (k x q h.0, update_rows-All w f rows k h.1)
    | inr q ↦ rw q (h.0, update_rows-All w f rows k h.1)
  ]

module _ {Row : Type 0} where
  pub first-holds :
      (w : Row → Bool) (rows : List Row) (r : Row) → first w rows ≡ some r → w r ≡ true
  first-holds w [] r e = cc
  first-holds w (x ∷ rows) r e = ground (arith, first-holds w rows r)

  pub insert_row-some :
      (clash : Row → Row → Bool) (row : Row) (rows : List Row) {after : List Row}
      → insert_row clash row rows ≡ some after
      → after ≡ rows ++ row ∷ []
  insert_row-some clash row rows e = ground arith

  -- A row that clashes with none is inserted.
  pub insert_row-new :
      (clash : Row → Row → Bool) (row : Row) (rows : List Row)
      → All (λ r. clash row r ≡ false) rows
      → insert_row clash row rows ≡ some (rows ++ row ∷ [])
  insert_row-new clash row rows h = rw (insert_row, nothing rows h) refl
    where
      nothing :
          (rows : List Row) → All (λ r. clash row r ≡ false) rows → first (clash row) rows ≡ none
      nothing [] h = refl
      nothing (r ∷ rows) h = rw h.0 (nothing rows h.1)

  pub insert_row-clash :
      (clash : Row → Row → Bool) (row : Row) (rows : List Row) {r : Row}
      → first (clash row) rows ≡ some r
      → insert_row clash row rows ≡ none
  insert_row-clash clash row rows e = rw (insert_row, e) refl

  pub first-last :
      (w : Row → Bool) (rows : List Row) (r : Row)
      → first w rows ≡ none
      → w r ≡ true
      → first w (rows ++ r ∷ []) ≡ some r
  first-last w [] r e h = rw h refl
  first-last w (x ∷ rows) r e h = ground (arith, first-last w rows r)

  pub none-All :
      (w : Row → Bool) (rows : List Row) → first w rows ≡ none → All (λ r. w r ≡ false) rows
  none-All w [] e = tt
  none-All w (r ∷ rows) e = (ground arith, none-All w rows (ground arith))

  chosen_none :
      (q w : Row → Bool) (rows : List Row)
      → All (λ r. w r ≡ false) rows
      → first (λ s. w s && q s) rows ≡ none
  chosen_none q w [] h = refl
  chosen_none q w (r ∷ rows) h = rw h.0 (chosen_none q w rows h.1)

  pub update_rows-none :
      (w : Row → Bool) (f : Row → Row) (rows : List Row)
      → All (λ r. w r ≡ false) rows
      → (update_rows w f rows ≡ rows) × (count_rows w rows ≡ 0)
  update_rows-none w f [] h = (refl, refl)
  update_rows-none w f (r ∷ rows) h = ground (arith, h.0, update_rows-none w f rows h.1)

  -- An update that chooses no row breaks no constraint.
  pub update_clashes-none :
      (clash : Row → Row → Bool) (w : Row → Bool) (f : Row → Row) (rows : List Row)
      → All (λ r. w r ≡ false) rows
      → update_clashes clash w f rows ≡ false
  update_clashes-none clash w f [] h = refl
  update_clashes-none clash w f (r ∷ rows) h =
      let none_chosen = chosen_none (λ s. clash r (f s)) w rows h.1 in
      let rest = update_clashes-none clash w f rows h.1 in rw h.0 (rw (none_chosen, rest))

  pub update_rows-clears :
      (w : Row → Bool) (f : Row → Row) (rows : List Row)
      → ((r : Row) → w (f r) ≡ false)
      → All (λ r. w r ≡ false) (update_rows w f rows)
  update_rows-clears w f [] h = tt
  update_rows-clears w f (r ∷ rows) h = (ground (arith, h r), update_rows-clears w f rows h)

  pub All-first :
      (w : Row → Bool) (rows : List Row) → All (λ r. w r ≡ false) rows → first w rows ≡ none
  All-first w [] h = refl
  All-first w (r ∷ rows) h = rw h.0 (All-first w rows h.1)

-- The last row alone is chosen.
module _ {Row : Type 0} (w : Row → Bool) (f : Row → Row) (r : Row) (chosen : w r ≡ true) where
  pub update_rows-last :
      (rows : List Row)
      → All (λ x. w x ≡ false) rows
      → (update_rows w f (rows ++ r ∷ []) ≡ rows ++ f r ∷ []) × (count_rows w (rows ++ r ∷ []) ≡ 1)
  update_rows-last [] h = (rw chosen refl, rw chosen refl)
  update_rows-last (x ∷ rows) h = ground (arith, h.0, update_rows-last rows h.1)

  module _ (clash : Row → Row → Bool) where
    clash-last :
        (x : Row) (rows : List Row)
        → clash x (f r) ≡ false
        → All (λ x. w x ≡ false) rows
        → first (λ s. w s && clash x (f s)) (rows ++ r ∷ []) ≡ none
    clash-last x [] c h = rw (chosen, c) refl
    clash-last x (y ∷ rows) c h = rw h.0 (clash-last x rows c h.1)

    pub update_clashes-last :
        (rows : List Row)
        → All (λ x. w x ≡ false) rows
        → All (λ x. clash x (f r) ≡ false) rows
        → update_clashes clash w f (rows ++ r ∷ []) ≡ false
    update_clashes-last [] h k = rw chosen refl
    update_clashes-last (x ∷ rows) h k =
        let apart = clash-last x rows k.0 h.1 in
        let rest = update_clashes-last rows h.1 k.1 in rw h.0 (rw (apart, rest))
