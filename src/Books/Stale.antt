-- ===== src/Books/Stale.antt =====
-- books.service.ts: the entries of `list`, which `invalidateListCaches` does not delete.

use text.Mathlib.Text.{◌==◌ as str_eq}
use novelhub.Prelude.{
  ℕ, zero, suc, true, ◌&&◌, none, some, List, [], ◌∷◌, map, drop, get_or, ◌≡◌, ◌≢◌, ◌∙◌, refl, sym,
  ap, arith, inl, inr, All, All-map, Option-cases,
}
use novelhub.Action.{ok}
use novelhub.Prisma.{Prisma, IsDocumented, matching, count_rows}
use novelhub.Prisma.Top.{sort-All, matching-holds}
use novelhub.Prisma.Apart.{take-All}
use novelhub.Paging.{Paginated, skip_of}
use novelhub.Schema.{Book, Db}
use novelhub.Books.{
  BookSummary, to_book_summary, is_listed_book, page_of_query, default_page_size, stable_order,
  CategoryCount, BookKey, featured_key, trending_key, categories_key, ValueOf, BookCache, ListBooks,
  key_of, list_of, read_through, list, invalidate_list_caches,
}

-- A cache while it keeps what it was given.
pub record KeepsEntries {K : Type 0} (cache : BookCache K) : Type 0 where
  pub get_set : (k : BookKey) (v : ValueOf k) (s : K) → cache.get k (cache.set k v s) ≡ some v
  pub get_del : (k k' : BookKey) (s : K) → k ≢ k' → cache.get k' (cache.del k s) ≡ cache.get k' s

drop-All : {A : Type 0} (P : A → Type 0) (n : ℕ) (rows : List A) → All P rows → All P (drop n rows)
drop-All P zero rows h = h
drop-All P (suc n) [] h = tt
drop-All P (suc n) (r ∷ rows) h = drop-All P n rows h.1

starred_listed :
    (q : ListBooks) (b : Book)
    → is_listed_book (record q { category = some "*" }) b
      ≡ (str_eq b.category "*" && is_listed_book (record q { category = none }) b)
starred_listed q b = ground arith

starred_count :
    (q : ListBooks) (books : List Book)
    → count_rows (is_listed_book (record q { category = some "*" })) books
      ≡ count_rows
          (λ b. str_eq b.category "*" && is_listed_book (record q { category = none }) b)
          books
starred_count q [] = refl
starred_count q (b ∷ books) = rw (starred_listed q b, starred_count q books) refl

starred_matching :
    (q : ListBooks) (books : List Book)
    → All
        (λ b. str_eq b.category "*" ≡ true)
        (matching (is_listed_book (record q { category = some "*" })) books)
starred_matching q books =
    All-map _ _ (matching (is_listed_book (record q { category = some "*" })) books)
      (λ b listed. ground (arith, listed))
      (matching-holds (is_listed_book (record q { category = some "*" })) books)

summaries-All :
    (books : List Book)
    → All (λ b. str_eq b.category "*" ≡ true) books
    → All (λ (b : BookSummary). str_eq b.category "*" ≡ true) (map to_book_summary books)
summaries-All [] h = tt
summaries-All (b ∷ books) h = (h.0, summaries-All books h.1)

module _ (prisma : Prisma) (doc : IsDocumented prisma) (q : ListBooks) (db : Db) where
  starred_items :
      All
        (λ (b : BookSummary). str_eq b.category "*" ≡ true)
        (list_of prisma (record q { category = some "*" }) db).items
  unfolding list_of
  starred_items =
      let page = page_of_query q.page in
      let limit = get_or q.limit default_page_size in
      let found = sort-All _ stable_order _ (starred_matching q db.books) in
      rw
        (doc.find_many_lem (is_listed_book (record q { category = some "*" })) stable_order
          (skip_of page limit) limit db.books)
        (summaries-All _ (take-All _ limit _ (drop-All _ (skip_of page limit) _ found)))

  starred_total :
      (list_of prisma (record q { category = some "*" }) db).total
      ≡ count_rows
          (λ b. str_eq b.category "*" && is_listed_book (record q { category = none }) b)
          db.books
  unfolding list_of
  starred_total =
      doc.count_lem (is_listed_book (record q { category = some "*" })) db.books
      ∙ starred_count q db.books

module _ (prisma : Prisma) {K : Type 0} (cache : BookCache K)
    (group_by_category : List Book → List CategoryCount) (law : KeepsEntries cache) where
  -- After a read the entry is the answer.
  read_kept :
      (k : BookKey) (read : Db → ValueOf k) (s : Db × K)
      → (v : ValueOf k) × ((read_through prisma cache group_by_category k read s).0 ≡ ok v)
        × (cache.get k (read_through prisma cache group_by_category k read s).1.1 ≡ some v)
  unfolding read_through
  read_kept k read (db, s) = elim (Option-cases (cache.get k s)) [
    | inl e ↦ (read db, rw (read_through, e) refl, rw (read_through, e) (law.get_set k (read db) s))
    | inr (v, e) ↦ (v, rw (read_through, e) refl, rw (read_through, e) e)
  ]

  read_again :
      (k : BookKey) (read : Db → ValueOf k) (db : Db) (s : K) (v : ValueOf k)
      → cache.get k s ≡ some v
      → (read_through prisma cache group_by_category k read (db, s)).0 ≡ ok v
  unfolding read_through
  read_again k read db s v e = rw (read_through, e) refl

  kept_over :
      (q : ListBooks) (s : K)
      → cache.get
          (key_of q)
          (cache.del categories_key (cache.del trending_key (cache.del featured_key s)))
        ≡ cache.get (key_of q) s
  kept_over q s =
      law.get_del categories_key (key_of q) _ (λ e. cc)
      ∙ law.get_del trending_key (key_of q) _ (λ e. cc)
      ∙ law.get_del featured_key (key_of q) s (λ e. cc)

  -- While the cache keeps its entries, a page of the catalogue that a reader was answered is
  -- answered again to the same query after any write of the administration and the invalidation
  -- that ends it, whatever the database holds then.
  pub list-stale :
      (q : ListBooks) (db db' : Db) (s : K)
      → let first_time = list prisma cache group_by_category q (db, s) in
        (list prisma cache group_by_category q
          (invalidate_list_caches prisma cache group_by_category (db', first_time.1.1)).1).0
        ≡ first_time.0
  unfolding list invalidate_list_caches
  list-stale q db db' s =
      let (page, answer, kept) = read_kept (key_of q) (list_of prisma q) (db, s) in
      read_again (key_of q) (list_of prisma q) db' _ page (kept_over q _ ∙ kept) ∙ sym answer

  read_missed :
      (k : BookKey) (read : Db → ValueOf k) (db : Db) (s : K)
      → cache.get k s ≡ none
      → read_through prisma cache group_by_category k read (db, s)
        ≡ (ok (read db), (db, cache.set k (read db) s))
  unfolding read_through
  read_missed k read db s e = rw (read_through, e) refl

  star_cached :
      (q : ListBooks) (db : Db) (s : K)
      → cache.get (key_of (record q { category = some "*" })) s ≡ none
      → (list prisma cache group_by_category
          (record q { category = none })
          (list prisma cache group_by_category (record q { category = some "*" }) (db, s)).1).0
        ≡ ok (list_of prisma (record q { category = some "*" }) db)
  unfolding list
  star_cached q db s e =
      let star : ListBooks = record q { category = some "*" } in
      let all : ListBooks = record q { category = none } in
      let page = list_of prisma star db in
      ap
        (λ r. (read_through prisma cache group_by_category (key_of all) (list_of prisma all) r.1).0)
        (read_missed (key_of star) (list_of prisma star) db s e)
      ∙ read_again (key_of all) (list_of prisma all) db (cache.set (key_of star) page s) page
          (law.get_set (key_of star) page s)

  -- While the cache keeps its entries and holds none for the query without a category, a reader who
  -- asks for the category `*` decides what the next reader is answered who asks for no category, the
  -- rest of the query being the same: a page on which every book is of the category `*`, with the
  -- number of the books of that category that the query lists as the total.
  pub list-star :
      (q : ListBooks) (db : Db) (s : K)
      → IsDocumented prisma
      → cache.get (key_of (record q { category = none })) s ≡ none
      → (page : Paginated BookSummary) × ((list prisma cache group_by_category
            (record q { category = none })
            (list prisma cache group_by_category (record q { category = some "*" }) (db, s)).1).0
          ≡ ok page)
        × All (λ (b : BookSummary). str_eq b.category "*" ≡ true) page.items
        × (page.total
            ≡ count_rows
                (λ b. str_eq b.category "*" && is_listed_book (record q { category = none }) b)
                db.books)
  list-star q db s doc e = (
    list_of prisma (record q { category = some "*" }) db,
    star_cached q db s e,
    starred_items prisma doc q db,
    starred_total prisma doc q db,
  )
