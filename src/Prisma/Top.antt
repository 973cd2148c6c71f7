-- ===== src/Prisma/Top.antt =====
-- The first row of an ordered query: `findFirst({ where, orderBy })`.
use mathlib.Core.Path.{subst}
use novelhub.Prelude.{
  Bool, true, false, none, some, List, [], ◌∷◌, ◌≡◌, arith, head?, All, All-map, inl, inr,
  Bool-cases,
}
use novelhub.Prisma.Query.{matching, place, sort, page_of}

module _ {ℓ} {Row : Type 0} (P : Row → Type ℓ) where
  pub place-All :
      (before : Row → Row → Bool) (r : Row) (rows : List Row)
      → P r
      → All P rows
      → All P (place before r rows)
  place-All before r [] p h = (p, tt)
  place-All before r (s ∷ rows) p h = elim (Bool-cases (before r s)) [
    | inl e ↦ rw e (p, h)
    | inr e ↦ rw e (h.0, place-All before r rows p h.1)
  ]

  All-place :
      (before : Row → Row → Bool) (r : Row) (rows : List Row)
      → All P (place before r rows)
      → P r × All P rows
  All-place before r [] h = (h.0, tt)
  All-place before r (s ∷ rows) h = elim (Bool-cases (before r s)) [
    | inl e ↦ (rw e at h)
    | inr e ↦ let g = rw e at h in let (p, rest) = All-place before r rows g.1 in (p, (g.0, rest))
  ]

  pub sort-All :
      (before : Row → Row → Bool) (rows : List Row) → All P rows → All P (sort before rows)
  sort-All before [] h = tt
  sort-All before (r ∷ rows) h =
      place-All before r (sort before rows) h.0 (sort-All before rows h.1)

  pub All-sort :
      (before : Row → Row → Bool) (rows : List Row) → All P (sort before rows) → All P rows
  All-sort before [] h = tt
  All-sort before (r ∷ rows) h =
      let (p, rest) = All-place before r (sort before rows) h in (p, All-sort before rows rest)

  pub matching-All : (w : Row → Bool) (rows : List Row) → All P rows → All P (matching w rows)
  matching-All w [] h = tt
  matching-All w (r ∷ rows) h = elim (Bool-cases (w r)) [
    | inl e ↦ rw e (h.0, matching-All w rows h.1)
    | inr e ↦ rw e (matching-All w rows h.1)
  ]

  pub All-matching :
      (w : Row → Bool) (rows : List Row)
      → All P (matching w rows)
      → All (λ r. w r ≡ true → P r) rows
  All-matching w [] h = tt
  All-matching w (r ∷ rows) h = elim (Bool-cases (w r)) [
    | inl e ↦ let g = rw e at h in (λ _. g.0, All-matching w rows g.1)
    | inr e ↦ let g = rw e at h in (λ t. cc, All-matching w rows g)
  ]

module _ {Row : Type 0} where
  pub matching-holds : (w : Row → Bool) (rows : List Row) → All (λ r. w r ≡ true) (matching w rows)
  matching-holds w [] = tt
  matching-holds w (r ∷ rows) = elim (Bool-cases (w r)) [
    | inl e ↦ rw e (e, matching-holds w rows)
    | inr e ↦ rw e (matching-holds w rows)
  ]

  abbrev Leads : (Row → Row → Bool) → List Row → Type 0
  Leads before [] = Unit
  Leads before (d ∷ rows) = All (λ r. before d r ≡ true) rows

-- The first row of a query under a total order.
module _ {Row : Type 0} (before : Row → Row → Bool)
    (total : (r s : Row) → before r s ≡ false → before s r ≡ true)
    (trans : (r s t : Row) → before r s ≡ true → before s t ≡ true → before r t ≡ true) where
  place-Leads : (r : Row) (rows : List Row) → Leads before rows → Leads before (place before r rows)
  place-Leads r [] h = tt
  place-Leads r (s ∷ rows) h = elim (Bool-cases (before r s)) [
    | inl e ↦ rw e (e, All-map _ _ rows (λ t l. trans r s t e l) h)
    | inr e ↦ rw e (place-All _ before r rows (total r s e) h)
  ]

  sort-Leads : (rows : List Row) → Leads before (sort before rows)
  sort-Leads [] = tt
  sort-Leads (r ∷ rows) = place-Leads r (sort before rows) (sort-Leads rows)

  module _ (w : Row → Bool) (rows : List Row) (d : Row)
      (e : head? (page_of 0 1 (sort before (matching w rows))) ≡ some d) where
    -- It has what every row has.
    pub top-has : (P : Row → Type 0) → All P rows → P d
    top-has P h =
        of_head (sort before (matching w rows))
          (sort-All P before (matching w rows) (matching-All P w rows h)) e
      where
        of_head : (l : List Row) → All P l → head? (page_of 0 1 l) ≡ some d → P d
        of_head [] g q = absurd (ground arith)
        of_head (r ∷ l) g q = let same : r ≡ d = ground arith in subst P same g.0

    -- It meets the query.
    pub top-holds : w d ≡ true
    top-holds =
        of_head (sort before (matching w rows))
          (sort-All (λ r. w r ≡ true) before (matching w rows) (matching-holds w rows)) e
      where
        of_head :
            (l : List Row) → All (λ r. w r ≡ true) l → head? (page_of 0 1 l) ≡ some d → w d ≡ true
        of_head [] g q = absurd (ground arith)
        of_head (r ∷ l) g q = let same : r ≡ d = ground arith in subst (λ s. w s ≡ true) same g.0

    -- No row that meets the query stands before it.
    pub top-leads : All (λ r. w r ≡ true → before d r ≡ true) rows
    top-leads =
        All-matching (λ r. before d r ≡ true) w rows
          (All-sort (λ r. before d r ≡ true) before (matching w rows)
            (of_head (sort before (matching w rows)) (sort-Leads (matching w rows)) e))
      where
        of_head :
            (l : List Row)
            → Leads before l
            → head? (page_of 0 1 l) ≡ some d
            → All (λ r. before d r ≡ true) l
        of_head [] g q = tt
        of_head (r ∷ l) g q =
            let same : r ≡ d = ground arith in
            let reflexive : before r r ≡ true = elim (Bool-cases (before r r)) [
              | inl t ↦ t
              | inr f ↦ total r r f
            ] in
            (
              subst (λ s. before s r ≡ true) same reflexive,
              subst (λ s. All (λ t. before s t ≡ true) l) same g,
            )

module _ {Row : Type 0} (before : Row → Row → Bool) where
  pub top-none :
      (w : Row → Bool) (rows : List Row)
      → head? (page_of 0 1 (sort before (matching w rows))) ≡ none
      → All (λ r. w r ≡ false) rows
  top-none w rows e =
      All-map (λ r. w r ≡ true → ⊥) _ rows
        (λ r no. elim (Bool-cases (w r)) [ inl t ↦ absurd (no t) | inr f ↦ f ])
        (All-matching (λ _. ⊥) w rows (All-sort (λ _. ⊥) before (matching w rows) (empty _ e)))
    where
      empty : (l : List Row) → head? (page_of 0 1 l) ≡ none → All (λ _. ⊥) l
      empty [] q = tt
      empty (r ∷ l) q = absurd (ground arith)
