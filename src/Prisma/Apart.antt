-- ===== src/Prisma/Apart.antt =====
-- Rows that are apart in pairs, and what sorting and cutting leave of the order and of that.
use novelhub.Prelude.{
  ℕ, zero, suc, Bool, true, List, [], ◌∷◌, take, ◌≡◌, refl, All, inl, inr, Bool-cases,
}
use novelhub.Prisma.Query.{matching, place, sort}
use novelhub.Prisma.Top.{sort-All, place-All, matching-All}
use novelhub.Prisma.Sorted.{IsSorted}

module _ {Row : Type 0} (P : Row → Type 0) where
  pub take-All : (n : ℕ) (rows : List Row) → All P rows → All P (take n rows)
  take-All zero rows h = tt
  take-All (suc n) [] h = tt
  take-All (suc n) (r ∷ rows) h = (h.0, take-All n rows h.1)

module _ {Row : Type 0} (before : Row → Row → Bool) where
  pub take-IsSorted :
      (n : ℕ) (rows : List Row) → IsSorted before rows → IsSorted before (take n rows)
  take-IsSorted zero rows h = tt
  take-IsSorted (suc n) [] h = tt
  take-IsSorted (suc n) (r ∷ rows) h = (take-All _ n rows h.0, take-IsSorted n rows h.1)

  place-first :
      (r : Row) (rows : List Row)
      → All (λ s. before r s ≡ true) rows
      → place before r rows ≡ r ∷ rows
  place-first r [] h = refl
  place-first r (s ∷ rows) h = rw h.0

  -- A sort moves nothing in rows that are sorted.
  pub sort-eq : (rows : List Row) → IsSorted before rows → sort before rows ≡ rows
  sort-eq [] h = refl
  sort-eq (r ∷ rows) h = rw (sort-eq rows h.1) (place-first r rows h.0)

  pub sort-first :
      (r : Row) (rows : List Row)
      → All (λ s. before r s ≡ true) rows
      → sort before (r ∷ rows) ≡ r ∷ sort before rows
  sort-first r rows h = place-first r (sort before rows) (sort-All _ before rows h)

module _ {Row : Type 0} (apart : Row → Row → Bool) where
  abbrev pub AreApart : List Row → Type 0
  AreApart [] = Unit
  AreApart (r ∷ rows) = All (λ s. apart r s ≡ true) rows × AreApart rows

  pub take-AreApart : (n : ℕ) (rows : List Row) → AreApart rows → AreApart (take n rows)
  take-AreApart zero rows h = tt
  take-AreApart (suc n) [] h = tt
  take-AreApart (suc n) (r ∷ rows) h = (take-All _ n rows h.0, take-AreApart n rows h.1)

  pub matching-AreApart :
      (w : Row → Bool) (rows : List Row) → AreApart rows → AreApart (matching w rows)
  matching-AreApart w [] h = tt
  matching-AreApart w (r ∷ rows) h = elim (Bool-cases (w r)) [
    | inl e ↦ rw e (matching-All _ w rows h.0, matching-AreApart w rows h.1)
    | inr e ↦ rw e (matching-AreApart w rows h.1)
  ]

  module _ (before : Row → Row → Bool)
      (mutual_lem : (r s : Row) → apart r s ≡ true → apart s r ≡ true) where
    place-AreApart :
        (r : Row) (rows : List Row)
        → All (λ s. apart r s ≡ true) rows
        → AreApart rows
        → AreApart (place before r rows)
    place-AreApart r [] h k = (tt, tt)
    place-AreApart r (s ∷ rows) h k = elim (Bool-cases (before r s)) [
      | inl e ↦ rw e (h, k)
      | inr e ↦
          rw e (place-All _ before r rows (mutual_lem r s h.0) k.0, place-AreApart r rows h.1 k.1)
    ]

    pub sort-AreApart : (rows : List Row) → AreApart rows → AreApart (sort before rows)
    sort-AreApart [] h = tt
    sort-AreApart (r ∷ rows) h =
        place-AreApart r (sort before rows) (sort-All _ before rows h.0) (sort-AreApart rows h.1)
