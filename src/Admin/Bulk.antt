-- ===== src/Admin/Bulk.antt =====
-- `bulkCreateChapters` of admin.service.ts as a whole.
use Prim.Native.String.{String}
use mathlib.Core.Path.{subst}
use novelhub.Prelude.{
  ap, ℕ, suc, true, false, none, some, List, [], ◌∷◌, ◌++◌, ◌≡◌, ◌∙◌, refl, sym, arith, length, not,
  ◌&&◌, inl, inr, Bool-cases, All, ◌≢◌,
}
use novelhub.Action.{Ident, ok}
use novelhub.Prisma.{Prisma, IsDocumented, Uuid, on_lists, uuid_of, eq_on_lists, first, update_rows}
use novelhub.Prisma.Rows.{first-holds}
use novelhub.Schema.{Book, Chapter, Db}
use novelhub.Catalog.{is_book}
use novelhub.Books.{is_stored_book}
use novelhub.Chapters.Next.{HaveUniqueOrders}
use novelhub.Admin.{
  AdminStore, BulkChapter, Upload, no_chapters, any_too_large, uploads_of, add_total, book_clash,
  update_book_row, append_chapters, find_stored_book, upload_all, upload, set_previews,
  create_or_clean, bulk_create_chapters,
}
use novelhub.Admin.Append.{AreNumbered, top_order, Created, max-AreBefore, creates}

length-uploads_of :
    (new_key : ℕ → String) (n : ℕ) (chapters : List BulkChapter)
    → length (uploads_of new_key n chapters) ≡ length chapters
length-uploads_of new_key n [] = refl
length-uploads_of new_key n (c ∷ chapters) =
    omega (arith, length-uploads_of new_key (suc n) chapters)

-- Giving a book a new total breaks no constraint.
no_book_clash :
    (id n : ℕ) (r : Book) (books : List Book)
    → r.id ≡ id
    → first (λ s. not (is_book id s) && book_clash (add_total n r) s) books ≡ none
no_book_clash id n r [] e = refl
no_book_clash id n r (s ∷ books) e = ground (arith, no_book_clash id n r books e)

is_there :
    (id : Ident) (books : List Book) (b : Book)
    → first (is_stored_book id) books ≡ some b
    → (r : Book) × (first (is_book id) books ≡ some r)
is_there id [] b e = absurd (ground arith)
is_there id (r ∷ books) b e = elim (Bool-cases (is_book id r)) [
  | inl y ↦ (r, rw y refl)
  | inr n ↦ let (s, found) = is_there id books b (ground (arith, n)) in (s, rw n found)
]

module _ (uuid : Uuid)
    (ids : (rows : List Chapter)
      → All (λ (c : Chapter). c.id ≢ uuid Chapter (λ c. c.id) rows) rows) where
  totals :
      (id n : ℕ) (b : Book) (db : Db)
      → first (is_stored_book id) db.books ≡ some b
      → update_book_row (on_lists uuid) id (add_total n) db
        ≡ (ok tt, record db { books = update_rows (is_book id) (add_total n) db.books })
  unfolding update_book_row
  totals id n b db e =
      let (r, found) = is_there id db.books b e in
      let same : r.id ≡ id = ground (arith, first-holds (is_book id) db.books r found) in
      let free = no_book_clash id n r db.books same in ground (arith, found, free)

  module _ (book : Book) (uploads : List Upload) (db : Db) (unique : HaveUniqueOrders db.chapters)
      (stored : first (is_stored_book book.id) db.books ≡ some book) where
    abbrev after : List Chapter → Db
    after added = record db {
      chapters = db.chapters ++ added;
      books = update_rows (is_book book.id) (add_total (length uploads)) db.books;
    }

    abbrev place : ℕ
    place = suc (top_order book.id db.chapters)

    the_rows : Created uuid ids book place uploads db
    the_rows = creates uuid ids book place uploads db (max-AreBefore book.id db.chapters) unique

    appends : append_chapters (on_lists uuid) book uploads db ≡ (ok the_rows.0, after the_rows.1)
    unfolding append_chapters
    appends =
        let (rows, added, done, count, many, numbered, kept) = the_rows in
        let db' : Db = record db { chapters = db.chapters ++ added } in
        let total = totals book.id (length uploads) book db' stored in
        ground (arith, done, count, total)

    module _ {T : Type 0} (store : AdminStore T) where
      runs :
          (new_key : ℕ → String) (chapters : List BulkChapter) (t t' : T)
          → uploads ≡ uploads_of new_key 0 chapters
          → no_chapters chapters ≡ false
          → any_too_large chapters ≡ false
          → upload_all (on_lists uuid) store uploads t ≡ (true, t')
          → bulk_create_chapters (on_lists uuid) store new_key book.id chapters (db, t) ≡ (
            ok (length the_rows.0),
            (
              after the_rows.1,
              store.invalidate_list_caches (set_previews (on_lists uuid) store the_rows.0 t'),
            ),
          )
      unfolding bulk_create_chapters find_stored_book upload create_or_clean
      runs new_key chapters t t' these some_there none_large sent =
          ground (arith, stored, appends, sent, these, some_there, none_large)

-- What adding chapters to a book has done.
abbrev pub AreAdded : {T : Type 0} → Ident → List BulkChapter → Db → Db × T → List Chapter → Type 0
AreAdded book_id chapters db (db', t) added =
    (db'.chapters ≡ db.chapters ++ added)
    × (length added ≡ length chapters)
    × AreNumbered book_id (suc (top_order book_id db.chapters)) added
    × HaveUniqueOrders db'.chapters
    × (db'.books ≡ update_rows (is_book book_id) (add_total (length chapters)) db.books)

abbrev pub IsAdding :
    {T : Type 0} → Prisma → AdminStore T → (ℕ → String) → Ident → List BulkChapter → Db → T → Type 0
IsAdding {T} prisma store new_key book_id chapters db t =
    (added : List Chapter) × (s : Db × T) × (bulk_create_chapters prisma store new_key book_id
        chapters (db, t)
      ≡ (ok (length chapters), s))
    × AreAdded book_id chapters db s added

adding :
    {T : Type 0} (uuid : Uuid) (store : AdminStore T) (new_key : ℕ → String)
    (chapters : List BulkChapter) (book : Book) (db : Db) (t t' : T)
    → ((rows : List Chapter) → All (λ (c : Chapter). c.id ≢ uuid Chapter (λ c. c.id) rows) rows)
    → HaveUniqueOrders db.chapters
    → first (is_stored_book book.id) db.books ≡ some book
    → no_chapters chapters ≡ false
    → any_too_large chapters ≡ false
    → upload_all (on_lists uuid) store (uploads_of new_key 0 chapters) t ≡ (true, t')
    → IsAdding (on_lists uuid) store new_key book.id chapters db t
adding uuid store new_key chapters book db t t' ids unique stored some_there none_large sent =
    let uploads = uploads_of new_key 0 chapters in
    let (rows, added, done, count, many, numbered, kept) =
      the_rows uuid ids book uploads db unique stored in
    let all = length-uploads_of new_key 0 chapters in
    let answer =
      runs uuid ids book uploads db unique stored store new_key chapters t t' refl some_there
        none_large sent in
    let number : length rows ≡ length chapters = count ∙ all in
    (
      added,
      (
        after uuid ids book uploads db unique stored added,
        store.invalidate_list_caches (set_previews (on_lists uuid) store rows t'),
      ),
      answer
          ∙ ap
              (λ n. (
                ok n,
                (
                  after uuid ids book uploads db unique stored added,
                  store.invalidate_list_caches (set_previews (on_lists uuid) store rows t'),
                ),
              ))
              number,
      (
        refl,
        many ∙ all,
        numbered,
        kept,
        ap (λ n. update_rows (is_book book.id) (add_total n) db.books) all,
      ),
    )

-- Where no two chapters of a book have the same place, a request that adds one or more chapters to
-- a book that is not deleted, none of them too large and all of them uploaded, succeeds: it answers
-- their number, the new chapters take the places after the last chapter of the book, deleted ones
-- counted, one after the other, no two chapters have the same place, and the book's total grows by
-- their number.
pub bulk_create_chapters-AreAdded :
    {T : Type 0} (prisma : Prisma) (store : AdminStore T) (new_key : ℕ → String) (book_id : Ident)
    (chapters : List BulkChapter) (book : Book) (db : Db) (t t' : T)
    → IsDocumented prisma
    → HaveUniqueOrders db.chapters
    → first (is_stored_book book_id) db.books ≡ some book
    → no_chapters chapters ≡ false
    → any_too_large chapters ≡ false
    → upload_all prisma store (uploads_of new_key 0 chapters) t ≡ (true, t')
    → IsAdding prisma store new_key book_id chapters db t
bulk_create_chapters-AreAdded {T} prisma store new_key book_id chapters book db t t' doc unique
      stored some_there none_large =
    rw (eq_on_lists prisma doc) λ sent.
      let uuid = uuid_of prisma in
      let ids = λ (rows : List Chapter). doc.uuid_is_new (λ (c : Chapter). c.id) rows in
      let same : book.id ≡ book_id =
        ground (arith, first-holds (is_stored_book book_id) db.books book stored) in
      subst (λ id. IsAdding (on_lists uuid) store new_key id chapters db t) same
        (adding uuid store new_key chapters book db t t' ids unique
          (subst (λ id. first (is_stored_book id) db.books ≡ some book) (sym same) stored)
          some_there none_large sent)
