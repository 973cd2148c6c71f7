-- ===== src/Books/Tests.antt =====
-- The catalogue of a small database, with a cache in memory.
use text.Mathlib.Text.{◌==◌ as str_eq}
use novelhub.Prelude.{◌&&◌, All, true, none, some, [], ◌∷◌, ◌≡◌, refl, map, take, List}
use novelhub.Action.{ok}
use novelhub.Schema.{Book, Db}
use novelhub.Prisma.{count_rows}
use novelhub.Paging.{Paginated}
use novelhub.Sample.{client, client-IsDocumented, library, novel}
use novelhub.Books.{
  BookSummary, is_listed_book, BookKey, list_key, featured_key, trending_key, categories_key,
  CategoryCount, ListBooks, list, featured, trending, categories, featured_of, trending_of,
  categories_of, invalidate_list_caches, to_chapter_summary,
}
use novelhub.Books.Memory.{Memory, memory, empty, memory-IsCache, memory-KeepsEntries}
use novelhub.Books.Fresh.{Runs, start, visits_list, visits_featured, writes, featured-fresh}
use novelhub.Books.Stale.{list-stale, list-star}
use novelhub.Books.Pages.{first_pages, table_of_contents, list_chapters-pages}

abbrev group_all : List Book → List CategoryCount
group_all books = []

abbrev query : ListBooks
query = record { category = none; status = none; featured = none; page = none; limit = none }

abbrev renamed : Db
renamed = record library { books = record novel { title = "Emma Woodhouse" } ∷ [] }

abbrev after : Db × Memory
after =
    (invalidate_list_caches client memory group_all (
      renamed,
      (featured client memory group_all
          (list client memory group_all query (library, empty)).1).1.1,
    )).1

nothing_cached : (k : BookKey) → memory.get k empty ≡ none
nothing_cached (list_key c t f p l) = refl
nothing_cached featured_key = refl
nothing_cached trending_key = refl
nothing_cached categories_key = refl

run : Runs client memory group_all after
run = writes renamed (visits_featured (visits_list query (start library empty nothing_cached)))

featured-fresh_example :
    ((featured client memory group_all after).0 ≡ ok (featured_of client after.0))
    × ((trending client memory group_all after).0 ≡ ok (trending_of client after.0))
    × ((categories client memory group_all after).0
        ≡ ok (categories_of client memory group_all after.0))
featured-fresh_example = featured-fresh client memory group_all memory-IsCache run

list-stale_example :
    (list client memory group_all query
      (invalidate_list_caches client memory group_all
        (renamed, (list client memory group_all query (library, empty)).1.1)).1).0
    ≡ (list client memory group_all query (library, empty)).0
list-stale_example =
    list-stale client memory group_all memory-KeepsEntries query library renamed empty

list-star_example :
    (page : Paginated BookSummary) × ((list client memory group_all query
        (list client memory group_all (record query { category = some "*" }) (library, empty)).1).0
      ≡ ok page)
    × All (λ (b : BookSummary). str_eq b.category "*" ≡ true) page.items
    × (page.total ≡ count_rows (λ b. str_eq b.category "*" && is_listed_book query b) library.books)
list-star_example =
    list-star client memory group_all memory-KeepsEntries query library empty client-IsDocumented
      refl

list_chapters-pages_example :
    first_pages client 1 1 2 library ≡ map to_chapter_summary (take 2 (table_of_contents 1 library))
list_chapters-pages_example =
    list_chapters-pages client 1 1 2 library novel client-IsDocumented refl
