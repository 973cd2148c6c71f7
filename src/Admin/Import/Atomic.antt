-- ===== src/Admin/Import/Atomic.antt =====
-- An import of a file of chapters is done as a whole or not at all.
use Prim.Native.String.{String}
use mathlib.Core.Path.{subst}
use novelhub.Prelude.{
  ℕ, map, false, Bool, true, false, none, some, List, [], ◌++◌, ◌≡◌, refl, sym, arith, length, inl,
  inr, Bool-cases, Option-cases, get_or,
}
use novelhub.Prelude.Text.{trim, is_empty}
use novelhub.Action.{
  Ident, Error, Result, ok, err, Exec, domain, not_found, bad_request, other, pure, catch, modify,
  ◌>>=◌, ◌>>◌,
}
use novelhub.Prisma.{Prisma, IsDocumented, Uuid, on_lists, uuid_of, eq_on_lists, first, commit}
use novelhub.Schema.{Book, Chapter, Db}
use novelhub.Books.{is_stored_book}
use novelhub.Admin.{AdminStore, CreatedRow, find_stored_book}
use novelhub.Admin.Append.{top_order}
use novelhub.Admin.Import.{
  ParsedChapter, BulkImportOptions, ImportTexts, sections_of, no_sections, parse_sections,
  default_delimiter, import_rows, upload_imported, upload_in_turn, import_or_clean,
  bulk_import_chapters,
}
use novelhub.Admin.{on_db, set_previews, clean_and_throw}
use novelhub.Admin.Import.Rows.{AreImported, Made, step, kept_chapters, import_rows-Made}

module _ (uuid : Uuid) (book : Book) {T : Type 0} (store : AdminStore T) (replace : Bool) (now : ℕ)
    (chapters : List ParsedChapter) (db : Db) where
  abbrev Settled : Result (List CreatedRow) × (Db × T) → Type 0
  Settled (err e, (db', t)) = db' ≡ db
  Settled (ok rows, (db', t)) =
      Made book chapters (kept_chapters book.id replace now db.chapters) (ok rows, db')

  import_or_clean-Settled :
      (t : T) → Settled (import_or_clean (on_lists uuid) store book replace now chapters (db, t))
  unfolding import_or_clean
  import_or_clean-Settled t =
      settled (import_rows (on_lists uuid) book replace now chapters db)
        (import_rows-Made uuid book replace now chapters db)
    where
      settled :
          (r : Result (List CreatedRow) × Db)
          → Made book chapters (kept_chapters book.id replace now db.chapters) r
          → Settled (
              catch
                (on_db (on_lists uuid) store (λ s. commit r s))
                (clean_and_throw
                  (on_lists uuid)
                  store
                  (map (λ (c : ParsedChapter). c.key) chapters))
                (db, t))
      settled (ok rows, db') h = h
      settled (err x, db') h = refl

-- The chapters of a file, at the places after the last chapter of the book.
abbrev pub chapters_of_file :
    ImportTexts → Ident → String → BulkImportOptions → Db → List ParsedChapter
chapters_of_file texts book_id text options db =
    parse_sections texts book_id (top_order book_id db.chapters) 0
      (sections_of (get_or options.delimiter default_delimiter) text)

-- What an import that returns has done.
abbrev pub IsImported : ImportTexts → ℕ → Ident → String → BulkImportOptions → Db → ℕ → Db → Type 0
IsImported texts now book_id text options db n db' =
    (book : Book) × (first (is_stored_book book_id) db.books ≡ some book)
    × ((added : List Chapter) × (db'.chapters
          ≡ kept_chapters book.id options.replace now db.chapters ++ added)
        × AreImported book (chapters_of_file texts book_id text options db) added
        × (n ≡ length (chapters_of_file texts book_id text options db)))

abbrev pub IsAllOrNothing :
    {T : Type 0}
    → ImportTexts
    → ℕ
    → Ident
    → String
    → BulkImportOptions
    → Db
    → Result ℕ × (Db × T)
    → Type 0
IsAllOrNothing texts now book_id text options db (err e, (db', t)) = db' ≡ db
IsAllOrNothing texts now book_id text options db (ok n, (db', t)) =
    IsImported texts now book_id text options db n db'

module _ (uuid : Uuid) {T : Type 0} (store : AdminStore T) (texts : ImportTexts) (now : ℕ)
    (book_id : Ident) (text : String) (options : BulkImportOptions) (db : Db) where
  abbrev AllOrNothing : Result ℕ × (Db × T) → Type 0
  AllOrNothing r = IsAllOrNothing texts now book_id text options db r

  abbrev finish : Book → List ParsedChapter → Exec (Db × T) ℕ
  finish book chapters = do
    rows ← import_or_clean (on_lists uuid) store book options.replace now chapters
    modify
        (λ (db, t). (db, store.invalidate_list_caches (set_previews (on_lists uuid) store rows t)))
    pure (length rows)

  finished :
      (book : Book) (t : T)
      → first (is_stored_book book_id) db.books ≡ some book
      → AllOrNothing (finish book (chapters_of_file texts book_id text options db) (db, t))
  finished book t found =
      let chapters = chapters_of_file texts book_id text options db in
      step AllOrNothing (import_or_clean (on_lists uuid) store book options.replace now chapters)
        (λ rows.
          modify (λ (db, t).
            (db, store.invalidate_list_caches (set_previews (on_lists uuid) store rows t)))
          >> pure (length rows))
        (db, t)
        (λ rows (db', t') e. (
          book,
          found,
          subst (Settled uuid book store options.replace now chapters db) e
              (import_or_clean-Settled uuid book store options.replace now chapters db t),
        ))
        (λ x (db', t') e.
          subst (Settled uuid book store options.replace now chapters db) e
            (import_or_clean-Settled uuid book store options.replace now chapters db t))

  abbrev import : Exec (Db × T) ℕ
  import = bulk_import_chapters (on_lists uuid) store texts now book_id text options

  abbrev sections : List String
  sections = sections_of (get_or options.delimiter default_delimiter) text

  stops :
      (x : Error) (t t' : T) → import (db, t) ≡ (err x, (db, t')) → AllOrNothing (import (db, t))
  stops x t t' e = subst AllOrNothing (sym e) refl

  module _ (t : T) where
    missing :
        first (is_stored_book book_id) db.books ≡ none
        → import (db, t) ≡ (err (domain not_found none), (db, t))
    unfolding bulk_import_chapters find_stored_book
    missing n = ground (arith, n)

    module _ (book : Book) (found : first (is_stored_book book_id) db.books ≡ some book) where
      blank :
          is_empty (trim text) ≡ true → import (db, t) ≡ (err (domain bad_request none), (db, t))
      unfolding bulk_import_chapters find_stored_book
      blank y = ground (arith, found, y)

      module _ (y : is_empty (trim text) ≡ false) where
        empty_sections :
            no_sections sections ≡ true → import (db, t) ≡ (err (domain bad_request none), (db, t))
        unfolding bulk_import_chapters find_stored_book
        empty_sections z = ground (arith, found, y, z)

        module _ (z : no_sections sections ≡ false) (t' : T) where
          not_uploaded :
              upload_in_turn
                  (on_lists uuid)
                  store
                  []
                  (chapters_of_file texts book_id text options db)
                  t
                ≡ (false, t')
              → import (db, t) ≡ (err other, (db, t'))
          unfolding bulk_import_chapters find_stored_book upload_imported
          not_uploaded u = ground (arith, found, y, z, u)

          uploaded :
              upload_in_turn
                  (on_lists uuid)
                  store
                  []
                  (chapters_of_file texts book_id text options db)
                  t
                ≡ (true, t')
              → import (db, t)
                ≡ finish book (chapters_of_file texts book_id text options db) (db, t')
          unfolding bulk_import_chapters find_stored_book upload_imported
          uploaded u = ground (arith, found, y, z, u)

  sent :
      (book : Book)
      → first (is_stored_book book_id) db.books ≡ some book
      → is_empty (trim text) ≡ false
      → no_sections sections ≡ false
      → (t : T) (r : Bool × T)
      → upload_in_turn (on_lists uuid) store [] (chapters_of_file texts book_id text options db) t
        ≡ r
      → AllOrNothing (import (db, t))
  sent book found y z t (false, t') u = stops other t t' (not_uploaded t book found y z t' u)
  sent book found y z t (true, t') u =
      subst AllOrNothing (sym (uploaded t book found y z t' u)) (finished book t' found)

  all_or_nothing : (t : T) → AllOrNothing (import (db, t))
  all_or_nothing t = elim (Option-cases (first (is_stored_book book_id) db.books)) [
    | inl n ↦ stops (domain not_found none) t t (missing t n)
    | inr (book, found) ↦ elim (Bool-cases (is_empty (trim text))) [
      | inl y ↦ stops (domain bad_request none) t t (blank t book found y)
      | inr y ↦ elim (Bool-cases (no_sections sections)) [
        | inl z ↦ stops (domain bad_request none) t t (empty_sections t book found y z)
        | inr z ↦
            sent book found y z t
              (upload_in_turn (on_lists uuid) store []
                (chapters_of_file texts book_id text options db) t)
              refl
      ]
    ]
  ]

-- An import of a file of chapters is done as a whole or not at all. Where it throws, for a book that
-- is not there, a file without chapters, an upload or a write that fails, the database is as before.
-- Where it returns, the book is there, the answer is the number of the chapters in the file, and
-- their rows, in the order of the file, stand behind the chapters from before, which are deleted
-- where the request is to replace them and unchanged otherwise.
pub bulk_import_chapters-IsAllOrNothing :
    {T : Type 0} (prisma : Prisma) (store : AdminStore T) (texts : ImportTexts) (now : ℕ)
    (book_id : Ident) (text : String) (options : BulkImportOptions) (db : Db) (t : T)
    → IsDocumented prisma
    → IsAllOrNothing texts now book_id text options db
        (bulk_import_chapters prisma store texts now book_id text options (db, t))
bulk_import_chapters-IsAllOrNothing prisma store texts now book_id text options db t doc =
    rw (eq_on_lists prisma doc)
      (all_or_nothing (uuid_of prisma) store texts now book_id text options db t)
