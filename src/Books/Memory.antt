-- ===== src/Books/Memory.antt =====
-- A cache of the catalogue in memory, for the tests.
use mathlib.Core.Path.{subst}
use Prim.Native.String.{String}
use text.Mathlib.Text.{◌==◌ as str_eq}
use text.Mathlib.TextPositions.{eq_refl}
use text.Mathlib.TextEquality.{eq_iff}
use novelhub.Prelude.{
  ℕ, Bool, true, false, Option, none, some, List, ◌≡◌, ◌≢◌, refl, sym, ap, ◌∙◌, arith, ◌==◌, ==_iff,
  ◌&&◌, inl, inr, Bool-cases, if◌then◌else◌,
}
use novelhub.Paging.{Paginated}
use novelhub.Books.{
  BookSummary, CategoryCount, BookKey, list_key, featured_key, trending_key, categories_key,
  ValueOf, BookCache,
}
use novelhub.Books.Fresh.{Holds, IsCache}
use novelhub.Books.Stale.{KeepsEntries}

pub record Memory : Type 0 where
  pub lists : String → String → String → ℕ → ℕ → Option (Paginated BookSummary)
  pub featured : Option (List BookSummary)
  pub trending : Option (List BookSummary)
  pub categories : Option (List CategoryCount)

abbrev pub same : String → String → String → ℕ → ℕ → String → String → String → ℕ → ℕ → Bool
same c t f p l c' t' f' p' l' =
    str_eq c c' && (str_eq t t' && (str_eq f f' && (p == p' && l == l')))

abbrev pub get : (k : BookKey) → Memory → Option (ValueOf k)
get (list_key c t f p l) m = m.lists c t f p l
get featured_key m = m.featured
get trending_key m = m.trending
get categories_key m = m.categories

abbrev pub set : (k : BookKey) → ValueOf k → Memory → Memory
set (list_key c t f p l) v m = record m {
  lists =
      λ c' t' f' p' l'. if same c t f p l c' t' f' p' l' then some v else m.lists c' t' f' p' l';
}
set featured_key v m = record m { featured = some v }
set trending_key v m = record m { trending = some v }
set categories_key v m = record m { categories = some v }

abbrev pub del : BookKey → Memory → Memory
del (list_key c t f p l) m = record m {
  lists = λ c' t' f' p' l'. if same c t f p l c' t' f' p' l' then none else m.lists c' t' f' p' l';
}
del featured_key m = record m { featured = none }
del trending_key m = record m { trending = none }
del categories_key m = record m { categories = none }

abbrev pub memory : BookCache Memory
memory = record { get = get; set = set; del = del }

abbrev pub empty : Memory
empty = record { lists = λ c t f p l. none; featured = none; trending = none; categories = none }

-- Whether two keys are those of one list.
abbrev same_list : BookKey → BookKey → Bool
same_list (list_key c t f p l) (list_key c' t' f' p' l') = same c t f p l c' t' f' p' l'
same_list _ _ = false

same_refl : (c t f : String) (p l : ℕ) → same c t f p l c t f p l ≡ true
same_refl c t f p l = rw (eq_refl c, eq_refl t, eq_refl f) (ground arith)

and_parts : (a b : Bool) → (a && b) ≡ true → (a ≡ true) × (b ≡ true)
and_parts a b e = (ground arith, ground arith)

same_parts :
    (c t f : String) (p l : ℕ) (c' t' f' : String) (p' l' : ℕ)
    → same c t f p l c' t' f' p' l' ≡ true
    → (c ≡ c') × (t ≡ t') × (f ≡ f') × (p ≡ p') × (l ≡ l')
same_parts c t f p l c' t' f' p' l' e =
    let (a, e1) = and_parts (str_eq c c') _ e in
    let (b, e2) = and_parts (str_eq t t') _ e1 in
    let (d, e3) = and_parts (str_eq f f') _ e2 in
    let (m, n) = and_parts (p == p') _ e3 in
    ((eq_iff c c').0 a, (eq_iff t t').0 b, (eq_iff f f').0 d, (==_iff p p').0 m, (==_iff l l').0 n)

same_key :
    (c t f : String) (p l : ℕ) (c' t' f' : String) (p' l' : ℕ)
    → same c t f p l c' t' f' p' l' ≡ true
    → list_key c t f p l ≡ list_key c' t' f' p' l'
same_key c t f p l c' t' f' p' l' e =
    let (ec, et, ef, ep, el) = same_parts c t f p l c' t' f' p' l' e in rw (ec, et, ef, ep, el) refl

apart :
    (c t f : String) (p l : ℕ) (c' t' f' : String) (p' l' : ℕ)
    → same c t f p l c' t' f' p' l' ≡ false
    → list_key c t f p l ≢ list_key c' t' f' p' l'
apart c t f p l c' t' f' p' l' e k =
    let yes = subst (λ k'. same_list (list_key c t f p l) k' ≡ true) k (same_refl c t f p l) in
    absurd (ground (arith, yes))

set-memory : (k : BookKey) (v : ValueOf k) (s : Memory) → get k (set k v s) ≡ some v
set-memory (list_key c t f p l) v s = rw (same_refl c t f p l) refl
set-memory featured_key v s = refl
set-memory trending_key v s = refl
set-memory categories_key v s = refl

del-memory : (k k' : BookKey) (s : Memory) → k ≢ k' → get k' (del k s) ≡ get k' s
del-memory (list_key c t f p l) (list_key c' t' f' p' l') s h =
    elim (Bool-cases (same c t f p l c' t' f' p' l')) [
      | inl e ↦ absurd (h (same_key c t f p l c' t' f' p' l' e))
      | inr e ↦ rw e refl
    ]
del-memory (list_key c t f p l) featured_key s h = refl
del-memory (list_key c t f p l) trending_key s h = refl
del-memory (list_key c t f p l) categories_key s h = refl
del-memory featured_key (list_key c t f p l) s h = refl
del-memory featured_key featured_key s h = absurd (h refl)
del-memory featured_key trending_key s h = refl
del-memory featured_key categories_key s h = refl
del-memory trending_key (list_key c t f p l) s h = refl
del-memory trending_key featured_key s h = refl
del-memory trending_key trending_key s h = absurd (h refl)
del-memory trending_key categories_key s h = refl
del-memory categories_key (list_key c t f p l) s h = refl
del-memory categories_key featured_key s h = refl
del-memory categories_key trending_key s h = refl
del-memory categories_key categories_key s h = absurd (h refl)

pub memory-KeepsEntries : KeepsEntries memory
memory-KeepsEntries = record { get_set = set-memory; get_del = del-memory }

some_injective : {A : Type 0} {a b : A} → some a ≡ some b → a ≡ b
some_injective {a = a} e = ap (λ o. elim o [ none ↦ a | some x ↦ x ]) e

memory-set :
    (P : (k : BookKey) → ValueOf k → Type 0) (k : BookKey) (v : ValueOf k) (s : Memory)
    → P k v
    → Holds memory P s
    → Holds memory P (set k v s)
memory-set P (list_key c t f p l) v s q h (list_key c' t' f' p' l') v' e =
    elim (Bool-cases (same c t f p l c' t' f' p' l')) [
      | inl y ↦
          let found : v ≡ v' = some_injective (rw y at e) in
          let (ec, et, ef, ep, el) = same_parts c t f p l c' t' f' p' l' y in
          subst (λ w. P (list_key c' t' f' p' l') w) found
            (rw (sym ec, sym et, sym ef, sym ep, sym el) q)
      | inr n ↦ h (list_key c' t' f' p' l') v' (rw n at e)
    ]
memory-set P (list_key c t f p l) v s q h featured_key v' e = h featured_key v' e
memory-set P (list_key c t f p l) v s q h trending_key v' e = h trending_key v' e
memory-set P (list_key c t f p l) v s q h categories_key v' e = h categories_key v' e
memory-set P featured_key v s q h (list_key c' t' f' p' l') v' e = h (list_key c' t' f' p' l') v' e
memory-set P featured_key v s q h featured_key v' e =
    subst (λ w. P featured_key w) (some_injective e) q
memory-set P featured_key v s q h trending_key v' e = h trending_key v' e
memory-set P featured_key v s q h categories_key v' e = h categories_key v' e
memory-set P trending_key v s q h (list_key c' t' f' p' l') v' e = h (list_key c' t' f' p' l') v' e
memory-set P trending_key v s q h featured_key v' e = h featured_key v' e
memory-set P trending_key v s q h trending_key v' e =
    subst (λ w. P trending_key w) (some_injective e) q
memory-set P trending_key v s q h categories_key v' e = h categories_key v' e
memory-set P categories_key v s q h (list_key c' t' f' p' l') v' e =
    h (list_key c' t' f' p' l') v' e
memory-set P categories_key v s q h featured_key v' e = h featured_key v' e
memory-set P categories_key v s q h trending_key v' e = h trending_key v' e
memory-set P categories_key v s q h categories_key v' e =
    subst (λ w. P categories_key w) (some_injective e) q

gone : (k : BookKey) (s : Memory) → get k (del k s) ≡ none
gone (list_key c t f p l) s = rw (same_refl c t f p l) refl
gone featured_key s = refl
gone trending_key s = refl
gone categories_key s = refl

memory-del :
    (k k' : BookKey) (s : Memory) (v : ValueOf k')
    → get k' (del k s) ≡ some v
    → (k ≢ k') × (get k' s ≡ some v)
memory-del k k' s v e = (differ, sym (del-memory k k' s differ) ∙ e)
  where
    differ : k ≢ k'
    differ q =
        let nothing = subst (λ j. get j (del k s) ≡ none) q (gone k s) in absurd (ground arith)

pub memory-IsCache : IsCache memory
memory-IsCache = record { set_lem = memory-set; del_lem = memory-del }
