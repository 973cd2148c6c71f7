-- ===== src/Prisma/Sorted.antt =====
-- The order of the rows of a query: `orderBy`.
use novelhub.Prelude.{Bool, true, false, List, [], ◌∷◌, ◌≡◌, All, All-map, inl, inr, Bool-cases}
use novelhub.Prisma.Query.{place, sort}
use novelhub.Prisma.Top.{place-All}

module _ {Row : Type 0} (before : Row → Row → Bool) where
  -- Each row may stand before those after it.
  abbrev pub IsSorted : List Row → Type 0
  IsSorted [] = Unit
  IsSorted (r ∷ rows) = All (λ s. before r s ≡ true) rows × IsSorted rows

  module _ (total : (r s : Row) → before r s ≡ false → before s r ≡ true)
      (trans : (r s t : Row) → before r s ≡ true → before s t ≡ true → before r t ≡ true) where
    place-IsSorted : (r : Row) (rows : List Row) → IsSorted rows → IsSorted (place before r rows)
    place-IsSorted r [] h = (tt, tt)
    place-IsSorted r (s ∷ rows) h = elim (Bool-cases (before r s)) [
      | inl e ↦ rw e ((e, All-map _ _ rows (λ t l. trans r s t e l) h.0), h)
      | inr e ↦ rw e (place-All _ before r rows (total r s e) h.0, place-IsSorted r rows h.1)
    ]

    pub sort-IsSorted : (rows : List Row) → IsSorted (sort before rows)
    sort-IsSorted [] = tt
    sort-IsSorted (r ∷ rows) = place-IsSorted r (sort before rows) (sort-IsSorted rows)
