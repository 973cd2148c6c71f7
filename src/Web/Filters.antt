-- ===== src/Web/Filters.antt =====
-- apps/web/src/lib/novels-filters.ts and novels-canonical-redirect.ts: the filters of the catalogue
-- page in its address. `Number(…)` of a text (`none` unless it is an integer), `String(…)` of a
-- number, and the text of `URLSearchParams` are arguments.
pub mod Settles
pub mod Pages
use Prim.Native.String.{String, ◌++◌ as append}
use text.Mathlib.Text.{◌==◌ as str_eq}
use novelhub.Prelude.{
  ℕ, ◌+◌, ◌-◌, ◌/◌, Bool, true, false, Option, none, some, List, [], ◌∷◌, ◌++◌, leb, ltb, ◌&&◌,
  ◌||◌, not, is_none, is_some, get_or, if◌then◌else◌,
}
use Prim.Native.Nat.{max}
use novelhub.Prelude.Int.{ℤ, pos, negsuc}
use novelhub.Prelude.Text.{trim, is_empty}

-- `string | string[]`
pub data ParamValue : Type 0 where
  single : String → ParamValue
  several : List String → ParamValue

-- The query of an address as the framework hands it over; a key is there once.
abbrev pub SearchParams : Type 0
SearchParams = List (String × ParamValue)

pub data NovelStatusFilter : Type 0 where
  ongoing completed : NovelStatusFilter

abbrev pub status_text : NovelStatusFilter → String
status_text ongoing = "ONGOING"
status_text completed = "COMPLETED"

pub record NovelsFilters : Type 0 where
  pub category : Option String
  pub status : Option NovelStatusFilter
  pub page : Option ℕ

pub record NovelsBooksListQuery : Type 0 where
  pub category : Option String
  pub status : Option NovelStatusFilter
  pub page : ℕ
  pub limit : ℕ

abbrev pub max_novels_page : ℕ
max_novels_page = 1000

abbrev pub param : String → SearchParams → Option ParamValue
param key [] = none
param key ((k, v) ∷ params) = if str_eq k key then some v else param key params

-- `singleValue(searchParams[key])`
abbrev pub single_value : Option ParamValue → Option String
single_value (some (single v)) = some v
single_value _ = none

-- `isStatusFilter(status) ? { status } : {}`
abbrev pub status_filter : Option String → Option NovelStatusFilter
status_filter none = none
status_filter (some s) =
    if str_eq "ONGOING" s
    then some ongoing
    else if str_eq "COMPLETED" s
    then some completed
    else none

-- `category ? { category } : {}` of the trimmed value
abbrev pub category_filter : Option String → Option String
category_filter none = none
category_filter (some c) = if is_empty (trim c) then none else some (trim c)

abbrev pub is_page : ℕ → Bool
is_page n = ltb 1 n && leb n max_novels_page

abbrev pub page_number : Option ℤ → Option ℕ
page_number (some (pos n)) = if is_page n then some n else none
page_number _ = none

-- The texts of numbers and of queries.
pub record UrlTexts : Type 0 where
  pub number : String → Option ℤ
  pub number_text : ℕ → String
  -- `new URLSearchParams(…).toString()`
  pub query_text : List (String × String) → String

module _ (texts : UrlTexts) where
  abbrev pub page_filter : Option String → Option ℕ
  page_filter none = none
  page_filter (some v) = if is_empty v then none else page_number (texts.number v)

  unfoldable pub parse_novels_filters : SearchParams → NovelsFilters
  parse_novels_filters params = record {
    category = category_filter (single_value (param "category" params));
    status = status_filter (single_value (param "status" params));
    page = page_filter (single_value (param "page" params));
  }

  abbrev pub category_pair : Option String → List (String × String)
  category_pair none = []
  category_pair (some c) = if is_empty c then [] else ("category", c) ∷ []

  abbrev pub status_pair : Option NovelStatusFilter → List (String × String)
  status_pair none = []
  status_pair (some s) = ("status", status_text s) ∷ []

  abbrev pub page_pair : Option ℕ → List (String × String)
  page_pair none = []
  page_pair (some n) = if is_page n then ("page", texts.number_text n) ∷ [] else []

  -- The parameters that `serializeNovelsFilters` sets.
  abbrev pub pairs_of : NovelsFilters → List (String × String)
  pairs_of f = category_pair f.category ++ (status_pair f.status ++ page_pair f.page)

  -- `query ? `/novels?${query}` : '/novels'`
  abbrev pub novels_href : List (String × String) → String
  novels_href pairs =
      let query = texts.query_text pairs in
      if is_empty query then "/novels" else append "/novels?" query

  unfoldable pub serialize_novels_filters : NovelsFilters → String
  serialize_novels_filters f = novels_href (pairs_of f)

  abbrev pub pairs_of_value : String → ParamValue → List (String × String)
  pairs_of_value key (single v) = (key, v) ∷ []
  pairs_of_value key (several []) = []
  pairs_of_value key (several (v ∷ values)) = (key, v) ∷ pairs_of_value key (several values)

  abbrev pub incoming_pairs : SearchParams → List (String × String)
  incoming_pairs [] = []
  incoming_pairs ((key, value) ∷ params) = pairs_of_value key value ++ incoming_pairs params

  unfoldable pub build_incoming_novels_href : SearchParams → String
  build_incoming_novels_href params = novels_href (incoming_pairs params)

  unfoldable pub should_redirect_to_canonical_novels_href : SearchParams → Option String
  should_redirect_to_canonical_novels_href params =
      let canonical_href = serialize_novels_filters (parse_novels_filters params) in
      if str_eq canonical_href (build_incoming_novels_href params)
      then none
      else some canonical_href

  -- An update names a field, also to clear it.
  unfoldable pub build_novels_href :
      NovelsFilters
      → Option (Option String)
      → Option (Option NovelStatusFilter)
      → Option (Option ℕ)
      → String
  build_novels_href current category status page =
      let filter_changed = is_some category || is_some status in
      serialize_novels_filters (record {
        category = get_or category current.category;
        status = get_or status current.status;
        page = if filter_changed && is_none page then none else get_or page current.page;
      })

-- `filters.category ? { category: filters.category } : {}`
abbrev pub category_of : Option String → Option String
category_of none = none
category_of (some c) = if is_empty c then none else some c

unfoldable pub to_books_list_query : NovelsFilters → ℕ → NovelsBooksListQuery
to_books_list_query f limit = record {
  category = category_of f.category;
  status = f.status;
  page = get_or f.page 1;
  limit = limit;
}

-- `pageSize` of the page
abbrev pub novels_page_size : ℕ
novels_page_size = 20

-- `Math.max(1, Math.ceil(books.total / books.limit))`
abbrev pub total_pages : ℕ → ℕ → ℕ
total_pages total limit = max 1 ((total + (limit - 1)) / limit)

-- Where `NovelsPage` redirects a visitor. The answer of the catalogue has the limit that it was asked
-- for, and `total` is how many books it has of a category and a status.
module _ (texts : UrlTexts) (total : Option String → Option NovelStatusFilter → ℕ) where
  abbrev pub pages_of : NovelsFilters → ℕ
  pages_of f =
      let query = to_books_list_query f novels_page_size in
      total_pages (total query.category query.status) query.limit

  unfoldable pub redirect_to_last_page : NovelsFilters → Option String
  redirect_to_last_page f =
      if ltb (pages_of f) (to_books_list_query f novels_page_size).page
      then some (build_novels_href texts f none none (some (some (pages_of f))))
      else none

  unfoldable pub novels_page_redirect : SearchParams → Option String
  novels_page_redirect params = elim (should_redirect_to_canonical_novels_href texts params) [
    | some href ↦ some href
    | none ↦ redirect_to_last_page (parse_novels_filters texts params)
  ]
