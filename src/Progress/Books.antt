-- ===== src/Progress/Books.antt =====
-- reading-progress.service.ts: the rows of `listRecent`, reduced to one for each book.

use novelhub.Prelude.{
  ℕ, zero, suc, ◌⊎◌, true, false, List, [], ◌∷◌, ◌++◌, ◌≡◌, refl, arith, All, All-append, All-map,
  take, inl, inr, Bool-cases, ==_iff, ◌==◌,
}
use novelhub.Action.{Ident}
use novelhub.Prisma.Sorted.{IsSorted}
use novelhub.Schema.{ReadingProgress}
use novelhub.Progress.{most_recent, has_book, reduce_by_book}

-- No book stands in the list twice.
abbrev pub AreOfDistinctBooks : List ReadingProgress → Type 0
AreOfDistinctBooks [] = Unit
AreOfDistinctBooks (p ∷ rows) = (has_book p.book_id rows ≡ false) × AreOfDistinctBooks rows

has_book-append :
    (book_id : Ident) (rows : List ReadingProgress) (p : ReadingProgress)
    → has_book book_id rows ≡ false
    → (p.book_id == book_id) ≡ false
    → has_book book_id (rows ++ p ∷ []) ≡ false
has_book-append book_id [] p h k = rw k refl
has_book-append book_id (q ∷ rows) p h k = ground (arith, has_book-append book_id rows p)

distinct-append :
    (rows : List ReadingProgress) (p : ReadingProgress)
    → AreOfDistinctBooks rows
    → has_book p.book_id rows ≡ false
    → AreOfDistinctBooks (rows ++ p ∷ [])
distinct-append [] p h k = (refl, tt)
distinct-append (q ∷ rows) p h k =
    (has_book-append q.book_id rows p h.0 (ground arith), distinct-append rows p h.1 (ground arith))

pub reduce-distinct :
    (by_book rows : List ReadingProgress)
    → AreOfDistinctBooks by_book
    → AreOfDistinctBooks (reduce_by_book by_book rows)
reduce-distinct by_book [] h = h
reduce-distinct by_book (p ∷ rows) h = elim (Bool-cases (has_book p.book_id by_book)) [
  | inl e ↦ rw e (reduce-distinct by_book rows h)
  | inr e ↦ rw e (reduce-distinct (by_book ++ p ∷ []) rows (distinct-append by_book p h e))
]

has_book-take :
    (book_id : Ident) (n : ℕ) (rows : List ReadingProgress)
    → has_book book_id rows ≡ false
    → has_book book_id (take n rows) ≡ false
has_book-take book_id zero rows h = refl
has_book-take book_id (suc n) [] h = refl
has_book-take book_id (suc n) (p ∷ rows) h = ground (arith, has_book-take book_id n rows)

pub take-distinct :
    (n : ℕ) (rows : List ReadingProgress)
    → AreOfDistinctBooks rows
    → AreOfDistinctBooks (take n rows)
take-distinct zero rows h = tt
take-distinct (suc n) [] h = tt
take-distinct (suc n) (p ∷ rows) h = (has_book-take p.book_id n rows h.0, take-distinct n rows h.1)

pub recent_total : (r s : ReadingProgress) → most_recent r s ≡ false → most_recent s r ≡ true
recent_total r s h = ground arith

pub recent_trans :
    (r s t : ReadingProgress)
    → most_recent r s ≡ true
    → most_recent s t ≡ true
    → most_recent r t ≡ true
recent_trans r s t h k = ground arith

recent_refl : (r : ReadingProgress) → most_recent r r ≡ true
recent_refl r = ground arith

-- What holds of every row that is left holds of this one.
abbrev pub IsLeft : List ReadingProgress → ReadingProgress → Type 1
IsLeft rest q = (P : ReadingProgress → Type 0) → All P rest → P q

-- `p` is as recent as every row of its book.
abbrev pub IsLatest : List ReadingProgress → ReadingProgress → Type 0
IsLatest rows p = All (λ q. q.book_id ≡ p.book_id → most_recent p q ≡ true) rows

abbrev pub AreSeen : List ReadingProgress → List ReadingProgress → List ReadingProgress → Type 1
AreSeen rows by_book rest = All (λ q. (has_book q.book_id by_book ≡ true) ⊎ IsLeft rest q) rows

still-IsLeft :
    (p q : ReadingProgress) (rest : List ReadingProgress)
    → (q.book_id ≡ p.book_id → ⊥)
    → IsLeft (p ∷ rest) q
    → IsLeft rest q
still-IsLeft p q rest apart h P all =
    h (λ r. (r.book_id ≡ p.book_id → ⊥) → P r)
      ((λ n. absurd (n refl)), All-map P _ rest (λ r x _. x) all) apart

same_or_IsLeft :
    (p q : ReadingProgress) (rest : List ReadingProgress)
    → IsLeft (p ∷ rest) q
    → (q.book_id ≡ p.book_id) ⊎ IsLeft rest q
same_or_IsLeft p q rest left = elim (Bool-cases (q.book_id == p.book_id)) [
  | inl e ↦ inl (omega (arith, (==_iff q.book_id p.book_id).0 e))
  | inr e ↦ inr (still-IsLeft p q rest (λ same. absurd (ground arith)) left)
]

has_book-last :
    (book_id : Ident) (rows : List ReadingProgress) (p : ReadingProgress)
    → (has_book book_id rows ≡ true) ⊎ (book_id ≡ p.book_id)
    → has_book book_id (rows ++ p ∷ []) ≡ true
has_book-last book_id [] p h = elim h [ inl e ↦ absurd (ground arith) | inr e ↦ ground arith ]
has_book-last book_id (q ∷ rows) p h = elim h [
  | inl e ↦ elim (Bool-cases (has_book book_id rows)) [
    | inl t ↦ let later = has_book-last book_id rows p (inl t) in ground arith
    | inr t ↦ ground arith
  ]
  | inr e ↦ let later = has_book-last book_id rows p (inr e) in ground arith
]

module _ (rows : List ReadingProgress) where
  seen-skip :
      (p : ReadingProgress) (by_book rest : List ReadingProgress)
      → has_book p.book_id by_book ≡ true
      → AreSeen rows by_book (p ∷ rest)
      → AreSeen rows by_book rest
  seen-skip p by_book rest e h =
      All-map _ _ rows
        (λ q s. elim s [
          | inl b ↦ inl b
          | inr left ↦ elim (same_or_IsLeft p q rest left) [
            | inl same ↦ inl (rw same e)
            | inr left' ↦ inr left'
          ]
        ])
        h

  seen-put :
      (p : ReadingProgress) (by_book rest : List ReadingProgress)
      → AreSeen rows by_book (p ∷ rest)
      → AreSeen rows (by_book ++ p ∷ []) rest
  seen-put p by_book rest h =
      All-map _ _ rows
        (λ q s. elim s [
          | inl b ↦ inl (has_book-last q.book_id by_book p (inl b))
          | inr left ↦ elim (same_or_IsLeft p q rest left) [
            | inl same ↦ inl (has_book-last q.book_id by_book p (inr same))
            | inr left' ↦ inr left'
          ]
        ])
        h

  latest :
      (p : ReadingProgress) (by_book rest : List ReadingProgress)
      → has_book p.book_id by_book ≡ false
      → All (λ q. most_recent p q ≡ true) rest
      → AreSeen rows by_book (p ∷ rest)
      → IsLatest rows p
  latest p by_book rest e h seen =
      All-map _ _ rows
        (λ q s same. elim s [
          | inl b ↦ absurd (ground arith)
          | inr left ↦ left (λ r. most_recent p r ≡ true) (recent_refl p, h)
        ])
        seen

  pub reduce-IsLatest :
      (n : ℕ) (by_book rest : List ReadingProgress)
      → IsSorted most_recent rest
      → AreSeen rows by_book rest
      → All (IsLatest rows) by_book
      → All (IsLatest rows) (reduce_by_book by_book (take n rest))
  reduce-IsLatest zero by_book rest s seen h = h
  reduce-IsLatest (suc n) by_book [] s seen h = h
  reduce-IsLatest (suc n) by_book (p ∷ rest) s seen h =
      elim (Bool-cases (has_book p.book_id by_book)) [
        | inl e ↦
            rw (reduce_by_book, e)
              (reduce-IsLatest n by_book rest s.1 (seen-skip p by_book rest e seen) h)
        | inr e ↦
            rw (reduce_by_book, e)
              (reduce-IsLatest n (by_book ++ p ∷ []) rest s.1 (seen-put p by_book rest seen)
                (All-append (IsLatest rows) by_book h (latest p by_book rest e s.0 seen)))
      ]

pub All-IsLeft : (rows : List ReadingProgress) → All (IsLeft rows) rows
All-IsLeft [] = tt
All-IsLeft (p ∷ rows) =
    ((λ P h. h.0), All-map (IsLeft rows) _ rows (λ q left P h. left P h.1) (All-IsLeft rows))

module _ (P : ReadingProgress → Type 0) where
  pub reduce-All :
      (by_book rows : List ReadingProgress)
      → All P by_book
      → All P rows
      → All P (reduce_by_book by_book rows)
  reduce-All by_book [] h k = h
  reduce-All by_book (p ∷ rows) h k = elim (Bool-cases (has_book p.book_id by_book)) [
    | inl e ↦ rw e (reduce-All by_book rows h k.1)
    | inr e ↦ rw e (reduce-All (by_book ++ p ∷ []) rows (All-append P by_book h k.0) k.1)
  ]

  pub take-All : (n : ℕ) (rows : List ReadingProgress) → All P rows → All P (take n rows)
  take-All zero rows h = tt
  take-All (suc n) [] h = tt
  take-All (suc n) (p ∷ rows) h = (h.0, take-All n rows h.1)
