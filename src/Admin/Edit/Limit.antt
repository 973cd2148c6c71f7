-- ===== src/Admin/Edit/Limit.antt =====
-- How many chapters of a book are free.
use Prim.Native.String.{String}
use novelhub.Prelude.{ℕ, Bool, List, [], inl, inr, Bool-cases}
use novelhub.Action.{Ident, Exec, modify}
use novelhub.Ledger.Keeps.{Keeps, keeps_rules}
use novelhub.Prisma.{Prisma, IsDocumented, Uuid, on_lists, uuid_of, eq_on_lists}
use novelhub.Schema.{Action, Book, Db}
use novelhub.Admin.{
  AdminStore, BulkChapter, Upload, CreatedRow, upload_all, upload, cleanup_uploaded_chapter_keys,
  set_previews, create_or_clean, bulk_create_chapters, on_db, soft_delete_book,
}
use novelhub.Admin.Import.{
  ParsedChapter, BulkImportOptions, ImportTexts, upload_in_turn, upload_imported, import_or_clean,
  bulk_import_chapters,
}
use novelhub.Admin.Edit.{AdminEnv, CreateBook, UpdateBook, create_book, update_book}
use novelhub.Admin.Edit.Rows.{
  HaveFreeLimits, find_stored_book-Keeps, set_book-Keeps, delete_book-Keeps, new_book-Keeps,
  transaction_append-Keeps, transaction_import-Keeps,
}

abbrev LimitsKept : {T A : Type 0} → Exec (Db × T) A → Type 0
LimitsKept {T} m = Keeps (λ (s : Db × T). HaveFreeLimits s.0) m

on_db-LimitsKept :
    {T A : Type 0} (prisma : Prisma) (store : AdminStore T) (m : Action A)
    → Keeps HaveFreeLimits m
    → LimitsKept (on_db prisma store m)
on_db-LimitsKept prisma store m k = record { at = λ (db, t) h. k.at db h }

module _ (uuid : Uuid) where
  module _ {T : Type 0} (store : AdminStore T) where
    caches-LimitsKept :
        LimitsKept (modify {S = Db × T} (λ (db, t). (db, store.invalidate_list_caches t)))
    caches-LimitsKept = record { at = λ s h. h }

    create_book-LimitsKept :
        (env : AdminEnv) (dto : CreateBook) (now : ℕ)
        → LimitsKept (create_book (on_lists uuid) store env dto now)
    unfolding create_book
    create_book-LimitsKept env dto now =
        search (keeps_rules, on_db-LimitsKept, new_book-Keeps, caches-LimitsKept)

    update_book-LimitsKept :
        (env : AdminEnv) (id : Ident) (dto : UpdateBook)
        → LimitsKept (update_book (on_lists uuid) store env id dto)
    unfolding update_book
    update_book-LimitsKept env id dto =
        search
          (keeps_rules, on_db-LimitsKept, find_stored_book-Keeps, set_book-Keeps, caches-LimitsKept)

    soft_delete_book-LimitsKept :
        (id : Ident) (now : ℕ) → LimitsKept (soft_delete_book (on_lists uuid) store id now)
    unfolding soft_delete_book
    soft_delete_book-LimitsKept id now = search (
      keeps_rules, on_db-LimitsKept, find_stored_book-Keeps, delete_book-Keeps, caches-LimitsKept,
    )

    upload-LimitsKept : (uploads : List Upload) → LimitsKept (upload (on_lists uuid) store uploads)
    unfolding upload
    upload-LimitsKept uploads = record {
      at = λ (db, t) h. elim (Bool-cases (upload_all (on_lists uuid) store uploads t).0) [
        | inl e ↦ rw (upload, e) h
        | inr e ↦ rw (upload, e) h
      ];
    }

    cleanup-LimitsKept :
        (keys : List String)
        → LimitsKept (
            modify {S = Db × T}
              (λ (db, t). (db, cleanup_uploaded_chapter_keys (on_lists uuid) store keys t)))
    cleanup-LimitsKept keys = record { at = λ s h. h }

    previews-LimitsKept :
        (rows : List CreatedRow)
        → LimitsKept (
            modify {S = Db × T} (λ (db, t).
              (db, store.invalidate_list_caches (set_previews (on_lists uuid) store rows t))))
    previews-LimitsKept rows = record { at = λ s h. h }

    create_or_clean-LimitsKept :
        (book : Book) (uploads : List Upload)
        → LimitsKept (create_or_clean (on_lists uuid) store book uploads)
    unfolding create_or_clean
    create_or_clean-LimitsKept book uploads =
        search (keeps_rules, on_db-LimitsKept, transaction_append-Keeps, cleanup-LimitsKept)

    bulk_create_chapters-LimitsKept :
        (new_key : ℕ → String) (book_id : Ident) (chapters : List BulkChapter)
        → LimitsKept (bulk_create_chapters (on_lists uuid) store new_key book_id chapters)
    unfolding bulk_create_chapters
    bulk_create_chapters-LimitsKept new_key book_id chapters =
        search
          (
            keeps_rules, on_db-LimitsKept, find_stored_book-Keeps, upload-LimitsKept,
            create_or_clean-LimitsKept, previews-LimitsKept,
          )
          depth 9

    upload_imported-LimitsKept :
        (chapters : List ParsedChapter)
        → LimitsKept (upload_imported (on_lists uuid) store chapters)
    unfolding upload_imported
    upload_imported-LimitsKept chapters = record {
      at = λ (db, t) h. elim (Bool-cases (upload_in_turn (on_lists uuid) store [] chapters t).0) [
        | inl e ↦ rw (upload_imported, e) h
        | inr e ↦ rw (upload_imported, e) h
      ];
    }

    import_or_clean-LimitsKept :
        (book : Book) (replace : Bool) (now : ℕ) (chapters : List ParsedChapter)
        → LimitsKept (import_or_clean (on_lists uuid) store book replace now chapters)
    unfolding import_or_clean
    import_or_clean-LimitsKept book replace now chapters =
        search (keeps_rules, on_db-LimitsKept, transaction_import-Keeps, cleanup-LimitsKept)

    bulk_import_chapters-LimitsKept :
        (texts : ImportTexts) (now : ℕ) (book_id : Ident) (text : String)
        (options : BulkImportOptions)
        → LimitsKept (bulk_import_chapters (on_lists uuid) store texts now book_id text options)
    unfolding bulk_import_chapters
    bulk_import_chapters-LimitsKept texts now book_id text options =
        search
          (
            keeps_rules, on_db-LimitsKept, find_stored_book-Keeps, upload_imported-LimitsKept,
            import_or_clean-LimitsKept, previews-LimitsKept,
          )
          depth 10

module _ {T : Type 0} (prisma : Prisma) (doc : IsDocumented prisma) (store : AdminStore T)
    (env : AdminEnv) where
  -- Where each book has between one and three free chapters, each still has after a book is created,
  -- after one is changed, after chapters are added to one, after one is deleted, and after a file of
  -- chapters is imported into one, whatever these requests ask for and whether they return or throw.
  pub create_book-HaveFreeLimits :
      (db : Db) (t : T)
      → HaveFreeLimits db
      → ((dto : CreateBook) (now : ℕ)
          → HaveFreeLimits (create_book prisma store env dto now (db, t)).1.0)
        × ((id : Ident) (dto : UpdateBook)
            → HaveFreeLimits (update_book prisma store env id dto (db, t)).1.0)
        × ((new_key : ℕ → String) (id : Ident) (chapters : List BulkChapter)
            → HaveFreeLimits (bulk_create_chapters prisma store new_key id chapters (db, t)).1.0)
        × ((id : Ident) (now : ℕ)
            → HaveFreeLimits (soft_delete_book prisma store id now (db, t)).1.0)
        × ((texts : ImportTexts) (now : ℕ) (id : Ident) (text : String)
              (options : BulkImportOptions)
            → HaveFreeLimits
                (bulk_import_chapters prisma store texts now id text options (db, t)).1.0)
  create_book-HaveFreeLimits db t h = rw (eq_on_lists prisma doc) (
      let uuid = uuid_of prisma in
      (
        (λ dto now. (create_book-LimitsKept uuid store env dto now).at (db, t) h),
        (λ id dto. (update_book-LimitsKept uuid store env id dto).at (db, t) h),
        (λ new_key id chapters.
            (bulk_create_chapters-LimitsKept uuid store new_key id chapters).at (db, t) h),
        (λ id now. (soft_delete_book-LimitsKept uuid store id now).at (db, t) h),
        (λ texts now id text options.
            (bulk_import_chapters-LimitsKept uuid store texts now id text options).at (db, t) h),
      ))
