-- ===== src/Books/Pages.antt =====
-- `listChapters` of books.service.ts, page after page.
use novelhub.Prelude.{
  ℕ, zero, suc, ◌+◌, ◌*◌, some, List, [], ◌∷◌, ◌++◌, ◌≡◌, ◌∙◌, refl, sym, arith, map, take, drop,
}
use native.Mathlib.Numerals.{unary_clauses}
use novelhub.Action.{Ident, Result, ok, err}
use novelhub.Prisma.{
  Prisma, IsDocumented, Uuid, on_lists, uuid_of, eq_on_lists, first, matching, sort,
}
use novelhub.Schema.{Book, Chapter, Db}
use novelhub.Paging.{Paginated}
use novelhub.Books.{
  ChapterSummary, to_chapter_summary, is_stored_book, is_chapter_of, chapter_order, list_chapters,
}

take-drop : {A : Type 0} (m n : ℕ) (xs : List A) → take m xs ++ take n (drop m xs) ≡ take (m + n) xs
take-drop zero n xs = let z : zero + n ≡ n = omega arith in rw z refl
take-drop (suc m) zero [] = simp unary_clauses refl
take-drop (suc m) (suc n) [] = simp unary_clauses refl
take-drop (suc m) n (x ∷ xs) =
    let z : suc m + n ≡ suc (m + n) = omega arith in rw (z, take-drop m n xs) refl

suc_times : (n l : ℕ) → suc n * l ≡ n * l + l
suc_times n l = omega arith

map-append : {A B : Type 0} (f : A → B) (xs ys : List A) → map f (xs ++ ys) ≡ map f xs ++ map f ys
map-append f [] ys = refl
map-append f (x ∷ xs) ys = rw (map-append f xs ys) refl

-- The items of an answer.
abbrev items_of : Result (Paginated ChapterSummary) × Db → List ChapterSummary
items_of (ok page, db) = page.items
items_of (err e, db) = []

-- The answers for the pages 1 to `n`, one after the other.
abbrev pub first_pages : Prisma → Ident → ℕ → ℕ → Db → List ChapterSummary
first_pages prisma book_id limit zero db = []
first_pages prisma book_id limit (suc n) db =
    first_pages prisma book_id limit n db
    ++ items_of (list_chapters prisma book_id (some (suc n)) (some limit) db)

-- The chapters of a book that are not deleted, in their order.
abbrev pub table_of_contents : Ident → Db → List Chapter
table_of_contents book_id db = sort chapter_order (matching (is_chapter_of book_id) db.chapters)

module _ (uuid : Uuid) (book_id : Ident) (limit : ℕ) (db : Db) (b : Book)
    (e : first (is_stored_book book_id) db.books ≡ some b) where
  page_items :
      (n : ℕ)
      → items_of (list_chapters (on_lists uuid) book_id (some (suc n)) (some limit) db)
        ≡ map to_chapter_summary (take limit (drop (n * limit) (table_of_contents book_id db)))
  unfolding list_chapters
  page_items n = simp unary_clauses (rw e refl)

  pages_on_lists :
      (n : ℕ)
      → first_pages (on_lists uuid) book_id limit n db
        ≡ map to_chapter_summary (take (n * limit) (table_of_contents book_id db))
  pages_on_lists zero = let z : zero * limit ≡ 0 = omega arith in rw z refl
  pages_on_lists (suc n) =
      let toc = table_of_contents book_id db in
      rw (pages_on_lists n, page_items n)
        (sym (
            map-append to_chapter_summary (take (n * limit) toc)
              (take limit (drop (n * limit) toc)))
          ∙ rw (take-drop (n * limit) limit toc, suc_times n limit) refl)

-- The first `n` pages of the chapters of a book that is not deleted, put together, are the first
-- `n * limit` entries of its table of contents: no chapter is left out, repeated or out of order.
pub list_chapters-pages :
    (prisma : Prisma) (book_id : Ident) (limit n : ℕ) (db : Db) (b : Book)
    → IsDocumented prisma
    → first (is_stored_book book_id) db.books ≡ some b
    → first_pages prisma book_id limit n db
      ≡ map to_chapter_summary (take (n * limit) (table_of_contents book_id db))
list_chapters-pages prisma book_id limit n db b doc e =
    rw (eq_on_lists prisma doc) (pages_on_lists (uuid_of prisma) book_id limit db b e n)
