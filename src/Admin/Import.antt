-- ===== src/Admin/Import.antt =====
-- `bulkImportChapters` of admin.service.ts. The file is given as the text that `TextDecoder` reads
-- in it, `new Date()` as `now`; the texts that hold a number, the key of an upload and the title of
-- a chapter without one, are arguments.
pub mod Rows
pub mod Atomic
use Prim.Native.String.{String}
use Prim.Native.Char.{Char, code}
use novelhub.Prelude.{
  ℕ, zero, suc, ◌+◌, Bool, true, false, Option, none, some, List, [], ◌∷◌, length, ltb, leb, ◌==◌,
  ◌&&◌, ◌++◌, map, ◌-◌, not, get_or, if◌then◌else◌,
}
use novelhub.Prelude.Text.{trim, is_empty, word_count}
use novelhub.Action.{
  Ident, Exec, Error, domain, bad_request, other, ok, err, pure, gets, modify, throw, catch,
  throw_if, ◌>>=◌, ◌>>◌,
}
use novelhub.Prisma.{Prisma}
use novelhub.Schema.{Action, Book, Chapter, Db}
use novelhub.Admin.{
  AdminStore, CreatedRow, of_book, delete_chapter, create_chapter_row, update_book_row,
  find_stored_book, on_db, set_previews, cleanup_uploaded_chapter_keys, clean_and_throw,
}

-- `DEFAULT_DELIMITER`
abbrev pub default_delimiter : String
default_delimiter = "\n\n---\n\n"

pub record BulkImportOptions : Type 0 where
  pub delimiter : Option String
  pub replace : Bool

pub record ParsedChapter : Type 0 where
  pub order : ℕ
  pub title : String
  pub body : String
  pub key : String

abbrev pub text_length : String → ℕ
text_length String.[] = 0
text_length (String.◌∷◌ c s) = suc (text_length s)

-- `text.length`: a character beyond 16 bits counts twice.
abbrev pub utf16_length : String → ℕ
utf16_length String.[] = 0
utf16_length (String.◌∷◌ c s) =
    let rest = utf16_length s in if leb 65536 (code c) then rest + 2 else suc rest

abbrev pub starts_with : String → String → Bool
starts_with String.[] s = true
starts_with (String.◌∷◌ c t) String.[] = false
starts_with (String.◌∷◌ c t) (String.◌∷◌ d s) = code c == code d && starts_with t s

abbrev pub on_first : Char → List String → List String
on_first c [] = String.◌∷◌ c String.[] ∷ []
on_first c (s ∷ parts) = String.◌∷◌ c s ∷ parts

-- `text.split(delimiter)` of a delimiter that is not empty; `skip` characters belong to the
-- delimiter that was met.
abbrev pub split_at : String → ℕ → String → List String
split_at delimiter skip String.[] = String.[] ∷ []
split_at delimiter (suc skip) (String.◌∷◌ c s) = split_at delimiter skip s
split_at delimiter zero (String.◌∷◌ c s) =
    let met = starts_with delimiter (String.◌∷◌ c s) in
    let rest = split_at delimiter (if met then text_length delimiter - 1 else 0) s in
    if met then String.[] ∷ rest else on_first c rest

abbrev pub characters : String → List String
characters String.[] = []
characters (String.◌∷◌ c s) = String.◌∷◌ c String.[] ∷ characters s

abbrev pub split : String → String → List String
split delimiter text = if is_empty delimiter then characters text else split_at delimiter 0 text

-- `.map((s) => s.trim()).filter((s) => s.length > 0)`
abbrev pub trimmed : List String → List String
trimmed [] = []
trimmed (s ∷ parts) = let rest = trimmed parts in if is_empty (trim s) then rest else trim s ∷ rest

abbrev pub sections_of : String → String → List String
sections_of delimiter text = trimmed (split delimiter text)

abbrev pub no_sections : List String → Bool
no_sections [] = true
no_sections (_ ∷ _) = false

-- `section.split('\n')[0]`
abbrev pub first_line : String → String
first_line String.[] = String.[]
first_line (String.◌∷◌ c s) =
    let rest = first_line s in if code c == 10 then String.[] else String.◌∷◌ c rest

-- `section.split('\n').slice(1).join('\n')`
abbrev pub other_lines : String → String
other_lines String.[] = String.[]
other_lines (String.◌∷◌ c s) = let rest = other_lines s in if code c == 10 then s else rest

-- The texts with numbers in them: the key of a book's section, and the title of a place.
pub record ImportTexts : Type 0 where
  pub import_key : Ident → ℕ → ℕ → String
  pub chapter_title : ℕ → String

abbrev pub has_title : String → Bool
has_title line = not (is_empty line) && ltb (utf16_length line) 120

abbrev pub body_of : String → String
body_of section =
    if has_title (trim (first_line section)) then trim (other_lines section) else section

module _ (texts : ImportTexts) (book_id : Ident) where
  abbrev pub parsed_chapter : ℕ → ℕ → String → ParsedChapter
  parsed_chapter base index section =
      let line = trim (first_line section) in
      let order = base + index + 1 in
      record {
        order = order;
        title = if has_title line then line else texts.chapter_title order;
        body = body_of section;
        key = texts.import_key book_id order (index + 1);
      }

  -- The sections from the one at `index` on; one without a body is left out and keeps its place.
  abbrev pub parse_sections : ℕ → ℕ → List String → List ParsedChapter
  parse_sections base index [] = []
  parse_sections base index (s ∷ sections) =
      let rest = parse_sections base (suc index) sections in
      if is_empty (body_of s) then rest else parsed_chapter base index s ∷ rest

abbrev pub imported_chapter : Book → ParsedChapter → Ident → Chapter
imported_chapter book c id = record {
  id = id;
  book_id = book.id;
  order = c.order;
  title = c.title;
  content_url = c.key;
  word_count = word_count c.body;
  is_free = leb c.order book.free_chapter_count;
  deleted_at = none;
}

abbrev pub is_live_of : Ident → Chapter → Bool
is_live_of book_id c = of_book book_id c && elim c.deleted_at [ none ↦ true | some _ ↦ false ]

-- `book` is the row as it was read before the transaction.
abbrev pub set_total : Book → Bool → ℕ → Book → Book
set_total book replace n b = record b {
  total_chapters = if replace then n else book.total_chapters + n;
}

module _ (prisma : Prisma) where
  unfoldable pub delete_chapters_of : Ident → ℕ → Action (Unit {0})
  delete_chapters_of book_id now = modify λ db. record db {
    chapters = (prisma.update_many (is_live_of book_id) (delete_chapter now) db.chapters).0;
  }

  unfoldable pub create_imported : Book → List ParsedChapter → Action (List CreatedRow)
  create_imported book [] = pure []
  create_imported book (c ∷ chapters) = do
    id ← gets (λ db. prisma.uuid (λ (c : Chapter). c.id) db.chapters)
    create_chapter_row prisma (imported_chapter book c id)
    rows ← create_imported book chapters
    pure (record { id = id; content = c.body } ∷ rows)

  -- The transaction's body.
  unfoldable pub import_rows : Book → Bool → ℕ → List ParsedChapter → Action (List CreatedRow)
  import_rows book replace now chapters = do
    if replace then delete_chapters_of book.id now else pure tt
    rows ← create_imported book chapters
    update_book_row prisma book.id (set_total book replace (length rows))
    pure rows

  module _ {T : Type 0} (store : AdminStore T) where
    -- One upload after the other; where one throws, those before it are deleted, oldest first.
    unfoldable pub upload_in_turn : List String → List ParsedChapter → T → Bool × T
    upload_in_turn uploaded [] t = (true, t)
    upload_in_turn uploaded (c ∷ chapters) t = elim (store.upload_text c.key c.body t) [
      | none ↦ (false, cleanup_uploaded_chapter_keys prisma store uploaded t)
      | some t' ↦ upload_in_turn (uploaded ++ c.key ∷ []) chapters t'
    ]

    unfoldable pub upload_imported : List ParsedChapter → Exec (Db × T) (Unit {0})
    upload_imported chapters (db, t) =
        let (done, t') = upload_in_turn [] chapters t in
        if done then (ok tt, (db, t')) else (err other, (db, t'))

    unfoldable pub import_or_clean :
        Book → Bool → ℕ → List ParsedChapter → Exec (Db × T) (List CreatedRow)
    import_or_clean book replace now chapters =
        catch (on_db prisma store (prisma.transaction (import_rows book replace now chapters)))
          (clean_and_throw prisma store (map (λ (c : ParsedChapter). c.key) chapters))

    unfoldable pub bulk_import_chapters :
        ImportTexts → ℕ → Ident → String → BulkImportOptions → Exec (Db × T) ℕ
    bulk_import_chapters texts now book_id text options = do
      book ← on_db prisma store (find_stored_book prisma book_id)
      throw_if (is_empty (trim text)) (domain bad_request none)
      let sections = sections_of (get_or options.delimiter default_delimiter) text
      throw_if (no_sections sections) (domain bad_request none)
      base ← gets (λ (db, t).
          get_or (prisma.aggregate_max (λ (c : Chapter). c.order) (of_book book_id) db.chapters) 0)
      let chapters = parse_sections texts book_id base 0 sections
      upload_imported chapters
      rows ← import_or_clean book options.replace now chapters
      modify (λ (db, t). (db, store.invalidate_list_caches (set_previews prisma store rows t)))
      pure (length rows)
