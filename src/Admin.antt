-- ===== src/Admin.antt =====
-- apps/api/src/modules/admin/admin.service.ts: the chapters that the administration adds and
-- deletes. The storage and the caches are interfaces of the program, and so arguments: `T` is what
-- they keep, beside the database.
pub mod Append
pub mod Bulk
pub mod Edit
pub mod Import
pub mod Revision
mod Tests
use Prim.Native.String.{String}
use Prim.Native.String
use novelhub.Prelude.{
  ℕ, suc, ◌+◌, Bool, true, false, Option, none, some, List, [], ◌∷◌, map, length, min, ltb, leb,
  ◌==◌, ◌&&◌, ◌||◌, not, is_none, get_or, if◌then◌else◌,
}
use novelhub.Prelude.Int.{ℤ, pos_part}
use novelhub.Prelude.Text.{word_count}
use novelhub.Action.{
  Ident, Exec, Error, domain, bad_request, not_found, unique_violation, record_not_found, other, ok,
  err, pure, gets, modify, throw, catch, or_throw, throw_if, ◌>>=◌, ◌>>◌,
}
use novelhub.Prisma.{Prisma}
use novelhub.Schema.{Action, Book, Chapter, chapter_clash, Db}
use novelhub.Catalog.{is_book, is_chapter, is_stored_chapter}
use novelhub.Chapters.{take_chars, preview_length}
use novelhub.Books.{is_stored_book}

-- What the service uses of the storage and of the caches; an upload or a deletion that throws is
-- `none`. A call of a cache returns, as those of the clients of the program do.
pub record AdminStore (T : Type 0) : Type 0 where
  pub upload_text : String → String → T → Option T
  pub delete_object : String → T → Option T
  pub set_preview : Ident → String → T → T
  pub del_preview : Ident → T → T
  pub invalidate_list_caches : T → T

pub record BulkChapter : Type 0 where
  pub title : String
  pub content : String
  pub is_free : Option Bool

-- A chapter whose text is stored under `key`.
pub record Upload : Type 0 where
  pub key : String
  pub chapter : BulkChapter

-- A row that was created, with its text.
pub record CreatedRow : Type 0 where
  pub id : Ident
  pub content : String

abbrev pub max_chapter_content_bytes : ℕ
max_chapter_content_bytes = 204800

-- `free-chapter-limit.ts`
abbrev pub clamp_free_chapter_limit : ℤ → ℕ
clamp_free_chapter_limit value = min 3 (let v = pos_part value in if leb 1 v then v else 1)

abbrev pub is_too_large : BulkChapter → Bool
is_too_large c = ltb max_chapter_content_bytes (String.len c.content)

abbrev pub any_too_large : List BulkChapter → Bool
any_too_large [] = false
any_too_large (c ∷ chapters) = is_too_large c || any_too_large chapters

abbrev pub no_chapters : List BulkChapter → Bool
no_chapters [] = true
no_chapters (_ ∷ _) = false

-- `chapters/${bookId}/${this.newId()}.txt`; `new_key` gives the keys one after the other.
abbrev pub uploads_of : (ℕ → String) → ℕ → List BulkChapter → List Upload
uploads_of new_key n [] = []
uploads_of new_key n (c ∷ chapters) =
    record { key = new_key n; chapter = c } ∷ uploads_of new_key (suc n) chapters

abbrev pub of_book : Ident → Chapter → Bool
of_book book_id c = c.book_id == book_id

abbrev pub new_chapter : Book → ℕ → Upload → Ident → Chapter
new_chapter book order u id = record {
  id = id;
  book_id = book.id;
  order = order;
  title = u.chapter.title;
  content_url = u.key;
  word_count = word_count u.chapter.content;
  is_free = get_or u.chapter.is_free (leb order book.free_chapter_count);
  deleted_at = none;
}

abbrev pub add_total : ℕ → Book → Book
add_total n b = record b { total_chapters = b.total_chapters + n }

abbrev pub delete_chapter : ℕ → Chapter → Chapter
delete_chapter now c = record c { deleted_at = some now }

abbrev pub delete_book : ℕ → Book → Book
delete_book now b = record b { deleted_at = some now }

abbrev pub book_clash : Book → Book → Bool
book_clash a b = a.id == b.id

module _ (prisma : Prisma) where
  unfoldable pub create_chapter_row : Chapter → Action (Unit {0})
  create_chapter_row c db = elim (prisma.create chapter_clash c db.chapters) [
    | none ↦ (err unique_violation, db)
    | some chapters ↦ (ok tt, record db { chapters = chapters })
  ]

  unfoldable pub update_book_row : Ident → (Book → Book) → Action (Unit {0})
  update_book_row id f db = elim (prisma.update book_clash (is_book id) f db.books) [
    | err e ↦ (err e, db)
    | ok books ↦ (ok tt, record db { books = books })
  ]

  unfoldable pub update_chapter_row : Ident → (Chapter → Chapter) → Action (Unit {0})
  update_chapter_row id f db = elim (prisma.update chapter_clash (is_chapter id) f db.chapters) [
    | err e ↦ (err e, db)
    | ok chapters ↦ (ok tt, record db { chapters = chapters })
  ]

  -- The loop over the uploads, at the place `order`.
  unfoldable pub create_rows : Book → ℕ → List Upload → Action (List CreatedRow)
  create_rows book order [] = pure []
  create_rows book order (u ∷ uploads) = do
    id ← gets (λ db. prisma.uuid (λ (c : Chapter). c.id) db.chapters)
    create_chapter_row (new_chapter book order u id)
    rows ← create_rows book (suc order) uploads
    pure (record { id = id; content = u.chapter.content } ∷ rows)

  -- The transaction's body.
  unfoldable pub append_chapters : Book → List Upload → Action (List CreatedRow)
  append_chapters book uploads = do
    max ← gets (λ db. prisma.aggregate_max (λ (c : Chapter). c.order) (of_book book.id) db.chapters)
    rows ← create_rows book (suc (get_or max 0)) uploads
    update_book_row book.id (add_total (length rows))
    pure rows

  unfoldable pub find_stored_book : Ident → Action Book
  find_stored_book id = do
    found ← gets (λ db. prisma.find_first (is_stored_book id) db.books)
    or_throw found (domain not_found none)

  module _ {T : Type 0} (store : AdminStore T) where
    -- What touches the database alone.
    abbrev pub on_db : {A : Type 0} → Action A → Exec (Db × T) A
    on_db m (db, t) = let (r, db') = m db in (r, (db', t))

    -- All uploads are started; the answer is whether each has succeeded.
    unfoldable pub upload_all : List Upload → T → Bool × T
    upload_all [] t = (true, t)
    upload_all (u ∷ uploads) t = elim (store.upload_text u.key u.chapter.content t) [
      | none ↦ (false, (upload_all uploads t).1)
      | some t' ↦ upload_all uploads t'
    ]

    unfoldable pub upload : List Upload → Exec (Db × T) (Unit {0})
    upload uploads (db, t) =
        let (done, t') = upload_all uploads t in
        if done then (ok tt, (db, t')) else (err other, (db, t'))

    -- A deletion that fails is only logged.
    unfoldable pub cleanup_uploaded_chapter_keys : List String → T → T
    cleanup_uploaded_chapter_keys [] t = t
    cleanup_uploaded_chapter_keys (key ∷ keys) t =
        cleanup_uploaded_chapter_keys keys (get_or (store.delete_object key t) t)

    -- `keys` are those that were uploaded.
    abbrev pub clean_and_throw : {A : Type 0} → List String → Error → Exec (Db × T) A
    clean_and_throw keys e =
        modify (λ (db, t). (db, cleanup_uploaded_chapter_keys keys t)) >> throw e

    unfoldable pub set_previews : List CreatedRow → T → T
    set_previews [] t = t
    set_previews (r ∷ rows) t =
        set_previews rows (store.set_preview r.id (take_chars preview_length r.content) t)

    unfoldable pub create_or_clean : Book → List Upload → Exec (Db × T) (List CreatedRow)
    create_or_clean book uploads =
        catch (on_db (prisma.transaction (append_chapters book uploads)))
          (clean_and_throw (map (λ (u : Upload). u.key) uploads))

    unfoldable pub bulk_create_chapters : (ℕ → String) → Ident → List BulkChapter → Exec (Db × T) ℕ
    bulk_create_chapters new_key book_id chapters = do
      throw_if (no_chapters chapters) (domain bad_request none)
      throw_if (any_too_large chapters) (domain bad_request none)
      book ← on_db (find_stored_book book_id)
      let uploads = uploads_of new_key 0 chapters
      upload uploads
      rows ← create_or_clean book uploads
      modify (λ (db, t). (db, store.invalidate_list_caches (set_previews rows t)))
      pure (length rows)

    unfoldable pub soft_delete_book : Ident → ℕ → Exec (Db × T) Ident
    soft_delete_book id now = do
      on_db (find_stored_book id)
      on_db (update_book_row id (delete_book now))
      modify (λ (db, t). (db, store.invalidate_list_caches t))
      pure id

    unfoldable pub soft_delete_chapter : Ident → ℕ → Exec (Db × T) Ident
    soft_delete_chapter id now = do
      found ← gets (λ (db, t). prisma.find_first (is_stored_chapter id) db.chapters)
      or_throw found (domain not_found none)
      on_db (update_chapter_row id (delete_chapter now))
      modify (λ (db, t). (db, store.del_preview id t))
      pure id
