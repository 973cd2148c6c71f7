-- ===== src/Web/Filters/Settles.antt =====
-- The canonical address of the filters that were read from a query is its own canonical address.
use Prim.Native.String.{String}
use text.Mathlib.Text.{◌==◌ as str_eq}
use text.Mathlib.TextPositions.{eq_refl}
use novelhub.Prelude.{
  ℕ, true, false, Option, none, some, List, [], ◌∷◌, ◌≡◌, refl, ap, arith, inl, inr, Bool-cases,
  ◌&&◌,
}
use novelhub.Prelude.Int.{ℤ, pos, negsuc}
use novelhub.Prelude.Text.{trim, trim_start, trim_end, is_empty, is_space}
use novelhub.Web.Filters.{
  single, SearchParams, NovelStatusFilter, ongoing, completed, NovelsFilters, UrlTexts,
  status_filter, category_filter, page_number, page_filter, is_page, single_value, param,
  parse_novels_filters, pairs_of, novels_href, serialize_novels_filters, incoming_pairs,
  build_incoming_novels_href, should_redirect_to_canonical_novels_href,
}

trim_end_idem : (s : String) → trim_end (trim_end s) ≡ trim_end s
trim_end_idem String.[] = refl
trim_end_idem (String.◌∷◌ c s) = elim (Bool-cases (is_space c && is_empty (trim_end s))) [
  | inl e ↦ rw e refl
  | inr e ↦ rw e (rw (trim_end_idem s, e) refl)
]

trim_start-trim_end : (s : String) → trim_start (trim_end (trim_start s)) ≡ trim_end (trim_start s)
trim_start-trim_end String.[] = refl
trim_start-trim_end (String.◌∷◌ c s) = elim (Bool-cases (is_space c)) [
  | inl e ↦ rw e (trim_start-trim_end s)
  | inr e ↦ rw (e, e) (rw e refl)
]

trim_idem : (s : String) → trim (trim s) ≡ trim s
trim_idem s = rw (trim_start-trim_end s) (trim_end_idem (trim_start s))

-- What the texts of numbers do.
pub record AreDocumented (texts : UrlTexts) : Type 0 where
  pub number-number_text : (n : ℕ) → texts.number (texts.number_text n) ≡ some (pos n)
  pub number_text_there : (n : ℕ) → is_empty (texts.number_text n) ≡ false

-- The query of an address with these pairs.
abbrev pub singles : List (String × String) → SearchParams
singles [] = []
singles ((key, value) ∷ pairs) = (key, single value) ∷ singles pairs

abbrev pub IsCategory : Option String → Type 0
IsCategory none = Unit
IsCategory (some c) = (is_empty c ≡ false) × (trim c ≡ c)

abbrev pub IsPage : Option ℕ → Type 0
IsPage none = Unit
IsPage (some n) = is_page n ≡ true

pub category_filter-IsCategory : (v : Option String) → IsCategory (category_filter v)
category_filter-IsCategory none = tt
category_filter-IsCategory (some v) = elim (Bool-cases (is_empty (trim v))) [
  | inl e ↦ rw e tt
  | inr e ↦ rw e (e, trim_idem v)
]

page_number-IsPage : (v : Option ℤ) → IsPage (page_number v)
page_number-IsPage none = tt
page_number-IsPage (some (negsuc n)) = tt
page_number-IsPage (some (pos n)) = elim (Bool-cases (is_page n)) [
  | inl e ↦ rw e e
  | inr e ↦ rw e tt
]

module _ (texts : UrlTexts) where
  pub page_filter-IsPage : (v : Option String) → IsPage (page_filter texts v)
  page_filter-IsPage none = tt
  page_filter-IsPage (some v) = elim (Bool-cases (is_empty v)) [
    | inl e ↦ rw e tt
    | inr e ↦ rw e (page_number-IsPage (texts.number v))
  ]

  module _ (doc : AreDocumented texts) where
    page_read : (n : ℕ) → is_page n ≡ true → page_filter texts (some (texts.number_text n)) ≡ some n
    page_read n k = rw (doc.number_text_there n, doc.number-number_text n) (rw k refl)

    category_read : (c : String) → IsCategory (some c) → category_filter (some c) ≡ some c
    category_read c h = rw h.1 (rw h.0 refl)

    abbrev pub filters : Option String → Option NovelStatusFilter → Option ℕ → NovelsFilters
    filters c s p = record { category = c; status = s; page = p }

    pub parse-pairs :
        (c : Option String) (s : Option NovelStatusFilter) (p : Option ℕ)
        → IsCategory c
        → IsPage p
        → parse_novels_filters texts (singles (pairs_of texts (filters c s p))) ≡ filters c s p
    unfolding parse_novels_filters
    parse-pairs none none none h k = refl
    parse-pairs none none (some n) h k = rw (k, parse_novels_filters) (rw (page_read n k) refl)
    parse-pairs none (some ongoing) none h k = refl
    parse-pairs none (some ongoing) (some n) h k =
        rw (k, parse_novels_filters) (rw (page_read n k) refl)
    parse-pairs none (some completed) none h k = refl
    parse-pairs none (some completed) (some n) h k =
        rw (k, parse_novels_filters) (rw (page_read n k) refl)
    parse-pairs (some c) none none h k =
        rw (h.0, parse_novels_filters) (rw (category_read c h) refl)
    parse-pairs (some c) none (some n) h k =
        rw (h.0, k, parse_novels_filters) (rw (category_read c h, page_read n k) refl)
    parse-pairs (some c) (some ongoing) none h k =
        rw (h.0, parse_novels_filters) (rw (category_read c h) refl)
    parse-pairs (some c) (some ongoing) (some n) h k =
        rw (h.0, k, parse_novels_filters) (rw (category_read c h, page_read n k) refl)
    parse-pairs (some c) (some completed) none h k =
        rw (h.0, parse_novels_filters) (rw (category_read c h) refl)
    parse-pairs (some c) (some completed) (some n) h k =
        rw (h.0, k, parse_novels_filters) (rw (category_read c h, page_read n k) refl)

    incoming-singles :
        (pairs : List (String × String)) → incoming_pairs texts (singles pairs) ≡ pairs
    incoming-singles [] = refl
    incoming-singles ((key, value) ∷ pairs) = ap (λ l. (key, value) ∷ l) (incoming-singles pairs)

    -- The canonical address of what was parsed is its own canonical address.
    pub canonical-fixed :
        (c : Option String) (s : Option NovelStatusFilter) (p : Option ℕ)
        → IsCategory c
        → IsPage p
        → should_redirect_to_canonical_novels_href texts (singles (pairs_of texts (filters c s p)))
          ≡ none
    unfolding should_redirect_to_canonical_novels_href serialize_novels_filters
        build_incoming_novels_href
    canonical-fixed c s p h k = rw (
      parse-pairs c s p h k,
      incoming-singles (pairs_of texts (filters c s p)),
      eq_refl (novels_href texts (pairs_of texts (filters c s p))),
    )

    pub parsed-fixed :
        (params : SearchParams)
        → should_redirect_to_canonical_novels_href texts
            (singles (pairs_of texts (parse_novels_filters texts params)))
          ≡ none
    unfolding parse_novels_filters
    parsed-fixed params =
        canonical-fixed (category_filter (single_value (param "category" params)))
          (status_filter (single_value (param "status" params)))
          (page_filter texts (single_value (param "page" params)))
          (category_filter-IsCategory (single_value (param "category" params)))
          (page_filter-IsPage (single_value (param "page" params)))

    pub redirect-canonical :
        (params : SearchParams) (href : String)
        → should_redirect_to_canonical_novels_href texts params ≡ some href
        → serialize_novels_filters texts (parse_novels_filters texts params) ≡ href
    unfolding should_redirect_to_canonical_novels_href
    redirect-canonical params href e =
        elim (Bool-cases (
          str_eq (serialize_novels_filters texts (parse_novels_filters texts params))
            (build_incoming_novels_href texts params))) [
              | inl b ↦ ground arith
              | inr b ↦ ground arith
            ]
