-- ===== src/Web/Filters/Pages.antt =====
-- How often the catalogue page redirects a visitor.
use Prim.Native.String.{String}
use novelhub.Prelude.{
  ℕ, true, false, Option, none, some, ◌≡◌, ◌∙◌, refl, sym, ap, arith, inl, inr, Bool-cases,
  Option-cases, ◌≤◌, ◌⊎◌, ltb, get_or, if◌then◌else◌,
}
use novelhub.Web.Filters.{
  SearchParams, NovelStatusFilter, NovelsFilters, UrlTexts, status_filter, category_filter,
  page_filter, is_page, single_value, param, parse_novels_filters, pairs_of,
  serialize_novels_filters, should_redirect_to_canonical_novels_href, build_novels_href,
  to_books_list_query, pages_of, redirect_to_last_page, novels_page_redirect,
}
use novelhub.Web.Filters.Settles.{
  AreDocumented, singles, IsCategory, IsPage, filters, parse-pairs, canonical-fixed,
  redirect-canonical, category_filter-IsCategory, page_filter-IsPage,
}

-- A last page that is not the first is written, and a first one is asked for without its number.
within_pages :
    (m : ℕ) (p : Option ℕ)
    → IsPage p
    → 1 ≤ m
    → ltb m (get_or p 1) ≡ true
    → ltb m (get_or (if is_page m then some m else none) 1) ≡ false
within_pages m none h one k = absurd (ground arith)
within_pages m (some n) h one k = elim (Bool-cases (is_page m)) [
  | inl e ↦ rw e (ground arith)
  | inr e ↦ rw e (ground (arith, e))
]

module _ (texts : UrlTexts) (doc : AreDocumented texts)
    (total : Option String → Option NovelStatusFilter → ℕ) where
  -- The filters with another page.
  abbrev pub at_page : NovelsFilters → ℕ → NovelsFilters
  at_page f n = record f { page = some n }

  at_page-href :
      (f : NovelsFilters) (n : ℕ)
      → build_novels_href texts f none none (some (some n))
        ≡ serialize_novels_filters texts (at_page f n)
  unfolding build_novels_href
  at_page-href f n = refl

  module _ (c : Option String) (s : Option NovelStatusFilter) (p : Option ℕ) (hc : IsCategory c)
      (hp : IsPage p) where
    abbrev f : NovelsFilters
    f = filters texts doc c s p

    abbrev pages : ℕ
    pages = pages_of texts total f

    abbrev q : Option ℕ
    q = if is_page pages then some pages else none

    q-IsPage : IsPage q
    q-IsPage = elim (Bool-cases (is_page pages)) [ inl e ↦ rw e e | inr e ↦ rw e tt ]

    -- The first page is written as no page.
    pairs-at_page : pairs_of texts (at_page f pages) ≡ pairs_of texts (filters texts doc c s q)
    pairs-at_page = elim (Bool-cases (is_page pages)) [
      | inl e ↦ rw e (rw e refl)
      | inr e ↦ rw e refl
    ]

    canonical_pages :
        should_redirect_to_canonical_novels_href texts (singles (pairs_of texts (at_page f pages)))
        ≡ none
    canonical_pages = rw pairs-at_page (canonical-fixed texts doc c s q hc q-IsPage)

    parse_pages :
        parse_novels_filters texts (singles (pairs_of texts (at_page f pages)))
        ≡ filters texts doc c s q
    parse_pages = rw pairs-at_page (parse-pairs texts doc c s q hc q-IsPage)

    within : ltb pages (get_or p 1) ≡ true → ltb pages (get_or q 1) ≡ false
    within k = within_pages pages p hp (omega arith) k

    last_page_stays :
        ltb pages (get_or p 1) ≡ true
        → novels_page_redirect texts total (singles (pairs_of texts (at_page f pages))) ≡ none
    unfolding novels_page_redirect redirect_to_last_page to_books_list_query
    last_page_stays k =
        let w = within k in
        rw (novels_page_redirect, canonical_pages, parse_pages) (rw (redirect_to_last_page, w) refl)

    redirect_from_canonical :
        novels_page_redirect texts total (singles (pairs_of texts f))
        ≡ redirect_to_last_page texts total f
    unfolding novels_page_redirect
    redirect_from_canonical =
        let canonical = canonical-fixed texts doc c s p hc hp in
        let parsed = parse-pairs texts doc c s p hc hp in
        rw (novels_page_redirect, canonical, parsed) refl

    redirect_is :
        (href : String)
        → redirect_to_last_page texts total f ≡ some href
        → (ltb pages (get_or p 1) ≡ true)
          × (serialize_novels_filters texts (at_page f pages) ≡ href)
    unfolding redirect_to_last_page to_books_list_query build_novels_href
    redirect_is href e = elim (Bool-cases (ltb pages (get_or p 1))) [
      | inl k ↦ (k, ground (arith, k))
      | inr k ↦ absurd (ground (arith, k))
    ]

    -- A redirect to the last page is the last.
    last_redirect :
        (decode : String → SearchParams) (href : String)
        → decode (serialize_novels_filters texts (at_page f pages))
          ≡ singles (pairs_of texts (at_page f pages))
        → redirect_to_last_page texts total f ≡ some href
        → novels_page_redirect texts total (decode href) ≡ none
    last_redirect decode href decodes e =
        let (k, same) = redirect_is href e in rw (← same, decodes) (last_page_stays k)

  module _ (params : SearchParams) where
    abbrev c_of : Option String
    c_of = category_filter (single_value (param "category" params))

    abbrev s_of : Option NovelStatusFilter
    s_of = status_filter (single_value (param "status" params))

    abbrev p_of : Option ℕ
    p_of = page_filter texts (single_value (param "page" params))

    hc_of : IsCategory c_of
    hc_of = category_filter-IsCategory (single_value (param "category" params))

    hp_of : IsPage p_of
    hp_of = page_filter-IsPage texts (single_value (param "page" params))

    abbrev pub parsed : NovelsFilters
    parsed = parse_novels_filters texts params

    redirect_cases :
        (href : String)
        → novels_page_redirect texts total params ≡ some href
        → (serialize_novels_filters texts parsed ≡ href)
          ⊎ (redirect_to_last_page texts total parsed ≡ some href)
    unfolding novels_page_redirect
    redirect_cases href e =
        elim (Option-cases (should_redirect_to_canonical_novels_href texts params)) [
          | inl n ↦ inr (ground (arith, n))
          | inr (h, y) ↦ inl (redirect-canonical texts doc params h y ∙ ground (arith, y))
        ]

    -- The catalogue page redirects a visitor at most twice: to the canonical address of the filters,
    -- and from there, where the page asked for is beyond the last one, to the last one. Whatever the
    -- query was, the address to which a second redirect leads redirects no more, provided that the
    -- queries of these two addresses are read as the pairs that were written in them, and that the
    -- catalogue has as many books for the same category and status at each of the visits.
    pub novels_page_redirect-settles :
        (decode : String → SearchParams) (href href' : String)
        → decode (serialize_novels_filters texts parsed) ≡ singles (pairs_of texts parsed)
        → decode (serialize_novels_filters texts (at_page parsed (pages_of texts total parsed)))
          ≡ singles (pairs_of texts (at_page parsed (pages_of texts total parsed)))
        → novels_page_redirect texts total params ≡ some href
        → novels_page_redirect texts total (decode href) ≡ some href'
        → novels_page_redirect texts total (decode href') ≡ none
    unfolding parse_novels_filters
    novels_page_redirect-settles decode href href' decodes decodes' e e' =
        elim (redirect_cases href e) [
          | inl same ↦
              let at_canonical = redirect_from_canonical c_of s_of p_of hc_of hp_of in
              last_redirect c_of s_of p_of hc_of hp_of decode href' decodes' (
                sym at_canonical
                ∙ ap (novels_page_redirect texts total) (sym decodes ∙ ap decode same)
                ∙ e')
          | inr last ↦
              let stays = last_redirect c_of s_of p_of hc_of hp_of decode href decodes' last in
              absurd (ground (arith, stays, e'))
        ]
