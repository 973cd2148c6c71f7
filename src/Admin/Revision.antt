-- ===== src/Admin/Revision.antt =====
-- `getChapter` and `updateChapter` of admin.service.ts.
pub mod Text
use Prim.Native.String.{String, ◌++◌ as append}
use Prim.Native.Char.{Char, code}
use text.Mathlib.Text.{◌==◌ as str_eq}
use novelhub.Prelude.{
  ℕ, zero, suc, Bool, true, false, Option, none, some, List, [], ◌∷◌, leb, ◌==◌, ◌&&◌, ◌||◌, not,
  is_none, is_some, get_or, if◌then◌else◌,
}
use novelhub.Prelude.Int.{ℤ, pos}
use novelhub.Prelude.Text.{is_empty, word_count}
use novelhub.Action.{
  Ident, Exec, Error, domain, bad_request, not_found, unique_violation, other, ok, err, pure, gets,
  modify, throw, or_throw, throw_if, match_option, ◌>>=◌, ◌>>◌,
}
use novelhub.Prisma.{Prisma}
use novelhub.Schema.{Action, Book, Chapter, Db}
use novelhub.Catalog.{is_stored_chapter}
use novelhub.Chapters.{take_chars, preview_length}
use novelhub.Admin.{
  AdminStore, clamp_free_chapter_limit, book_clash, on_db, find_stored_book, update_book_row,
  update_chapter_row,
}

pub record UpdateChapter : Type 0 where
  pub title : Option String
  pub content : Option String
  pub is_free : Option Bool
  pub order : Option ℕ

-- `{ id, bookId, order, title, isFree, content }`
pub record AdminChapter : Type 0 where
  pub id : Ident
  pub book_id : Ident
  pub order : ℕ
  pub title : String
  pub is_free : Bool
  pub content : String

abbrev pub admin_chapter : Chapter → String → AdminChapter
admin_chapter c content = record {
  id = c.id;
  book_id = c.book_id;
  order = c.order;
  title = c.title;
  is_free = c.is_free;
  content = content;
}

-- `key` is where a new content is stored.
abbrev pub set_chapter : UpdateChapter → String → Chapter → Chapter
set_chapter dto key c = record c {
  title = get_or dto.title c.title;
  is_free = get_or dto.is_free c.is_free;
  order = get_or dto.order c.order;
  word_count = elim dto.content [ none ↦ c.word_count | some text ↦ word_count text ];
  content_url = elim dto.content [ none ↦ c.content_url | some text ↦ key ];
}

-- `Object.keys(data).length > 0`
abbrev pub has_data : UpdateChapter → Bool
has_data dto = is_some dto.title || is_some dto.is_free || is_some dto.order || is_some dto.content

module _ (prisma : Prisma) where
  module _ {T : Type 0} (store : AdminStore T) where
    unfoldable pub find_chapter_row : Ident → Exec (Db × T) Chapter
    find_chapter_row id = do
      found ← gets (λ (db, t). prisma.find_first (is_stored_chapter id) db.chapters)
      or_throw found (domain not_found none)

    -- `chapter.contentUrl ? await this.storage.getText(chapter.contentUrl) : ''`; that `get_text`
    -- throws is `none`.
    unfoldable pub read_content : (String → T → Option String) → Chapter → Exec (Db × T) String
    read_content get_text c (db, t) =
        if is_empty c.content_url
        then (ok "", (db, t))
        else or_throw (get_text c.content_url t) other (db, t)

    unfoldable pub get_chapter : (String → T → Option String) → Ident → Exec (Db × T) AdminChapter
    get_chapter get_text id = do
      c ← find_chapter_row id
      content ← read_content get_text c
      pure (admin_chapter c content)

    unfoldable pub upload_text : String → String → Exec (Db × T) (Unit {0})
    upload_text key text (db, t) = elim (store.upload_text key text t) [
      | none ↦ (err other, (db, t))
      | some t' ↦ (ok tt, (db, t'))
    ]

    -- What follows once the chapter is found; `key_of` is the text
    -- `chapters/${chapter.bookId}/${id}.txt`.
    unfoldable pub update_found :
        (Ident → Ident → String) → Ident → UpdateChapter → Chapter → Exec (Db × T) Ident
    update_found key_of id dto c = do
      let key = if is_empty c.content_url then key_of c.book_id id else c.content_url
      match_option dto.content (pure tt) (λ text.
          upload_text key text
          >> modify (λ (db, t). (db, store.set_preview id (take_chars preview_length text) t)))
      if has_data dto
          then on_db prisma store (update_chapter_row prisma id (set_chapter dto key))
          else pure tt
      pure id

    unfoldable pub update_chapter :
        (Ident → Ident → String) → Ident → UpdateChapter → Exec (Db × T) Ident
    update_chapter key_of id dto = do c ← find_chapter_row id; update_found key_of id dto c
