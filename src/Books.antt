-- ===== src/Books.antt =====
-- apps/api/src/modules/books/books.service.ts: the listings of the catalogue, with their cache.
-- The order in which the database returns the groups of a `groupBy`, and its case-insensitive
-- `contains`, are arguments.
pub mod Fresh
pub mod Stale
pub mod Memory
pub mod Pages
mod Tests
use Prim.Native.String.{String}
use text.Mathlib.Text.{◌==◌ as str_eq}
use novelhub.Prelude.{
  ℕ, Bool, true, false, Option, none, some, List, [], ◌∷◌, map, ltb, leb, ◌==◌, ◌&&◌, ◌||◌, not,
  is_none, get_or, if◌then◌else◌,
}
use novelhub.Prelude.Int.{ℤ}
use novelhub.Prelude.Text.{trim, is_empty}
use novelhub.Action.{Ident, Exec, ok, domain, not_found, pure, gets, modify, or_throw, ◌>>=◌, ◌>>◌}
use novelhub.Prisma.{Prisma, sort}
use novelhub.Schema.{Action, Book, Chapter, Db}
use novelhub.Paging.{Paginated, skip_of}

pub record BookSummary : Type 0 where
  pub id : Ident
  pub title : String
  pub author : String
  pub cover_url : String
  pub category : String
  pub tags : List String
  pub status : String
  pub is_featured : Bool
  pub total_chapters : ℕ
  pub free_chapter_count : ℕ
  pub coin_per_chapter : ℤ

pub record ChapterSummary : Type 0 where
  pub id : Ident
  pub book_id : Ident
  pub order : ℕ
  pub title : String
  pub is_free : Bool
  pub word_count : ℕ

pub record BookDetail : Type 0 where
  pub summary : BookSummary
  pub description : String
  pub chapters : List ChapterSummary

pub record CategoryCount : Type 0 where
  pub category : String
  pub count : ℕ

abbrev pub to_book_summary : Book → BookSummary
to_book_summary b = record {
  id = b.id;
  title = b.title;
  author = b.author;
  cover_url = b.cover_url;
  category = b.category;
  tags = b.tags;
  status = b.status;
  is_featured = b.is_featured;
  total_chapters = b.total_chapters;
  free_chapter_count = b.free_chapter_count;
  coin_per_chapter = b.coin_per_chapter;
}

abbrev pub to_chapter_summary : Chapter → ChapterSummary
to_chapter_summary c = record {
  id = c.id;
  book_id = c.book_id;
  order = c.order;
  title = c.title;
  is_free = c.is_free;
  word_count = c.word_count;
}

-- The keys of the cache; that of a list by the parts that its text joins.
pub data BookKey : Type 0 where
  list_key : String → String → String → ℕ → ℕ → BookKey
  featured_key trending_key categories_key : BookKey

abbrev pub ValueOf : BookKey → Type 0
ValueOf (list_key _ _ _ _ _) = Paginated BookSummary
ValueOf featured_key = List BookSummary
ValueOf trending_key = List BookSummary
ValueOf categories_key = List CategoryCount

-- `CacheClient` of cache.constants.ts at these keys; `K` is what the cache keeps.
pub record BookCache (K : Type 0) : Type 0 where
  pub get : (k : BookKey) → K → Option (ValueOf k)
  pub set : (k : BookKey) → ValueOf k → K → K
  pub del : BookKey → K → K

pub record ListBooks : Type 0 where
  pub category : Option String
  pub status : Option String
  pub featured : Option Bool
  pub page : Option ℕ
  pub limit : Option ℕ

abbrev pub default_page_size : ℕ
default_page_size = 20

abbrev pub default_chapter_page_size : ℕ
default_chapter_page_size = 50

abbrev pub featured_limit : ℕ
featured_limit = 10

abbrev pub trending_limit : ℕ
trending_limit = 20

abbrev pub detail_chapter_preview : ℕ
detail_chapter_preview = 10

-- `STABLE_BOOK_LIST_ORDER`
abbrev pub stable_order : Book → Book → Bool
stable_order a b = ltb b.created_at a.created_at || a.created_at == b.created_at && leb a.id b.id

abbrev pub chapter_order : Chapter → Chapter → Bool
chapter_order a b = leb a.order b.order

abbrev pub is_stored_book : Ident → Book → Bool
is_stored_book id b = b.id == id && is_none b.deleted_at

-- `if (query.x) where.x = query.x`
abbrev pub meets : Option String → String → Bool
meets none s = true
meets (some q) s = if is_empty q then true else str_eq s q

abbrev pub meets_featured : Option Bool → Bool → Bool
meets_featured none b = true
meets_featured (some true) b = b
meets_featured (some false) b = not b

abbrev pub is_listed_book : ListBooks → Book → Bool
is_listed_book q b =
    is_none b.deleted_at
    && (meets q.category b.category
        && (meets q.status b.status && meets_featured q.featured b.is_featured))

abbrev pub featured_text : Option Bool → String
featured_text none = "*"
featured_text (some true) = "true"
featured_text (some false) = "false"

abbrev pub page_of_query : Option ℕ → ℕ
page_of_query page = get_or page 1

abbrev pub key_of : ListBooks → BookKey
key_of q =
    list_key (get_or q.category "*") (get_or q.status "*") (featured_text q.featured)
      (page_of_query q.page) (get_or q.limit default_page_size)

-- `OR: [{ title: { contains } }, { author: { contains } }]`
abbrev pub is_found : (String → String → Bool) → String → Book → Bool
is_found ilike term b = is_none b.deleted_at && (ilike b.title term || ilike b.author term)

abbrev pub is_chapter_of : Ident → Chapter → Bool
is_chapter_of book_id c = c.book_id == book_id && is_none c.deleted_at

-- The most frequent category first; `sort` of an array is stable.
abbrev pub by_count : CategoryCount → CategoryCount → Bool
by_count a b = leb b.count a.count

module _ (prisma : Prisma) where
  unfoldable pub list_of : ListBooks → Db → Paginated BookSummary
  list_of q db =
      let page = page_of_query q.page in
      let limit = get_or q.limit default_page_size in
      record {
        items =
            map to_book_summary (
              prisma.find_many (is_listed_book q) stable_order (skip_of page limit) limit db.books);
        total = prisma.count (is_listed_book q) db.books;
        page = page;
        limit = limit;
      }

  unfoldable pub featured_of : Db → List BookSummary
  featured_of db = map to_book_summary (
      prisma.find_many (λ b. is_none b.deleted_at && b.is_featured) stable_order 0 featured_limit
        db.books)

  unfoldable pub trending_of : Db → List BookSummary
  trending_of db =
      map to_book_summary
        (prisma.find_many (λ b. is_none b.deleted_at) stable_order 0 trending_limit db.books)

  -- Searches and look-ups are not cached.
  unfoldable pub search :
      (ilike : String → String → Bool)
      → Option String
      → Option ℕ
      → Option ℕ
      → Action (Paginated BookSummary)
  search ilike q page limit =
      let page = page_of_query page in
      let limit = get_or limit default_page_size in
      let term = trim (get_or q "") in
      if is_empty term
      then pure (record { items = []; total = 0; page = page; limit = limit })
      else gets (λ db. record {
        items = map to_book_summary (
            prisma.find_many (is_found ilike term) stable_order (skip_of page limit) limit
              db.books);
        total = prisma.count (is_found ilike term) db.books;
        page = page;
        limit = limit;
      })

  unfoldable pub get_by_id : Ident → Action BookDetail
  get_by_id id = do
    found ← gets (λ db. prisma.find_first (is_stored_book id) db.books)
    book ← or_throw found (domain not_found none)
    chapters ← gets (λ db.
        prisma.find_many (is_chapter_of book.id) chapter_order 0 detail_chapter_preview db.chapters)
    pure (record {
      summary = to_book_summary book;
      description = book.description;
      chapters = map to_chapter_summary chapters;
    })

  unfoldable pub list_chapters : Ident → Option ℕ → Option ℕ → Action (Paginated ChapterSummary)
  list_chapters book_id page limit = do
    exists ← gets (λ db. prisma.find_first (is_stored_book book_id) db.books)
    book ← or_throw exists (domain not_found none)
    let page = page_of_query page
    let limit = get_or limit default_chapter_page_size
    gets (λ db. record {
      items = map to_chapter_summary (
          prisma.find_many (is_chapter_of book_id) chapter_order (skip_of page limit) limit
            db.chapters);
      total = prisma.count (is_chapter_of book_id) db.chapters;
      page = page;
      limit = limit;
    })

  module _ {K : Type 0} (cache : BookCache K)
      (group_by_category : List Book → List CategoryCount) where
    -- The groups are of the books that are not deleted.
    unfoldable pub categories_of : Db → List CategoryCount
    categories_of db =
        sort by_count (group_by_category (prisma.find_all (λ b. is_none b.deleted_at) db.books))

    -- What is cached is answered; what is not is read and kept.
    unfoldable pub read_through : (k : BookKey) → (Db → ValueOf k) → Exec (Db × K) (ValueOf k)
    read_through k read (db, s) = elim (cache.get k s) [
      | some cached ↦ (ok cached, (db, s))
      | none ↦ (ok (read db), (db, cache.set k (read db) s))
    ]

    unfoldable pub list : ListBooks → Exec (Db × K) (Paginated BookSummary)
    list q = read_through (key_of q) (list_of q)

    unfoldable pub featured : Exec (Db × K) (List BookSummary)
    featured = read_through featured_key featured_of

    unfoldable pub trending : Exec (Db × K) (List BookSummary)
    trending = read_through trending_key trending_of

    unfoldable pub categories : Exec (Db × K) (List CategoryCount)
    categories = read_through categories_key categories_of

    unfoldable pub invalidate_list_caches : Exec (Db × K) (Unit {0})
    invalidate_list_caches = modify (λ (db, s).
        (db, cache.del categories_key (cache.del trending_key (cache.del featured_key s))))
