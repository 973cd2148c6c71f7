-- ===== src/Web/Anonymous.antt =====
-- apps/web/src/lib/anonymous-reading-progress.ts: where a reader without an account stopped, kept
-- in the browser. `Date.parse` is an argument: a time in milliseconds, `none` for NaN.
pub mod Entries
pub mod Written
pub mod Kept
use Prim.Native.String.{String, ◌++◌ as append}
use text.Mathlib.Text.{◌==◌ as str_eq}
use novelhub.Prelude.{
  ℕ, ◌*◌, ◌-◌, Bool, not, ◌&&◌, ◌||◌, Option, none, some, List, [], ◌∷◌, length, take, leb, is_some,
  get_or, if◌then◌else◌,
}
use novelhub.Prelude.Int.{ℤ, pos, leb_ℤ}
use novelhub.Prisma.{first, matching, sort}
use novelhub.Web.Json.{
  Json, number, string, array, object, finite, Items, nil, cons, Fields, end, field, get, JsonCodec,
}
use novelhub.Web.Storage.{BrowserStorage, stored, quota_exceeded, refused}

-- The numbers count as those of JSON do.
pub record ReadingProgressEntry : Type 0 where
  pub book_id : String
  pub chapter_id : String
  pub chapter_number : ℤ
  pub scroll_percent : ℤ
  pub book_title : String
  pub book_cover : String
  pub updated_at : String

pub record ChapterReadingProgress : Type 0 where
  pub id : String
  pub book_id : String
  pub chapter_id : String
  pub scroll_percent : ℤ
  pub last_read_at : String

abbrev pub max_anonymous_progress_entries : ℕ
max_anonymous_progress_entries = 20

-- `item.bookId === bookId && item.chapterId === chapterId`
abbrev pub is_at : String → String → ReadingProgressEntry → Bool
is_at book_id chapter_id item = str_eq item.book_id book_id && str_eq item.chapter_id chapter_id

-- `item.bookId !== entry.bookId || item.chapterId !== entry.chapterId`
abbrev pub is_elsewhere : ReadingProgressEntry → ReadingProgressEntry → Bool
is_elsewhere entry item =
    not (str_eq item.book_id entry.book_id) || not (str_eq item.chapter_id entry.chapter_id)

abbrev pub is_of_book : String → ReadingProgressEntry → Bool
is_of_book book_id item = str_eq item.book_id book_id

abbrev pub progress_of : ReadingProgressEntry → ChapterReadingProgress
progress_of entry = record {
  id = append "anonymous:" (append entry.book_id (append ":" entry.chapter_id));
  book_id = entry.book_id;
  chapter_id = entry.chapter_id;
  scroll_percent = entry.scroll_percent;
  last_read_at = entry.updated_at;
}

abbrev pub item_fields : ReadingProgressEntry → Fields
item_fields e = field "bookId" (string e.book_id) (
    field "chapterId" (string e.chapter_id) (
      field "chapterNumber" (number (finite e.chapter_number)) (
        field "scrollPercent" (number (finite e.scroll_percent)) (
          field "bookTitle" (string e.book_title) (
            field "bookCover" (string e.book_cover)
              (field "updatedAt" (string e.updated_at) end))))))

abbrev pub items_json : List ReadingProgressEntry → Items
items_json [] = nil
items_json (e ∷ entries) = cons (object (item_fields e)) (items_json entries)

-- `typeof candidate[key] === 'string'`, and the text
abbrev pub string_at : String → Fields → Option String
string_at key fields = elim (get key fields) [ some (string s) ↦ some s | _ ↦ none ]

-- `isFiniteNumber(candidate[key])`, and the number
abbrev pub finite_at : String → Fields → Option ℤ
finite_at key fields = elim (get key fields) [ some (number (finite n)) ↦ some n | _ ↦ none ]

-- `entries.slice(0, -1)`
abbrev pub without_oldest : List ReadingProgressEntry → List ReadingProgressEntry
without_oldest entries = take (length entries - 1) entries

infixl 5 ◌>>=◌
abbrev pub ◌>>=◌ : {A B : Type 0} → Option A → (A → Option B) → Option B
none >>= f = none
some a >>= f = f a

-- The typed fields of a candidate.
unfoldable pub fields_of : Fields → Option ReadingProgressEntry
fields_of candidate = do
  book_id ← string_at "bookId" candidate
  chapter_id ← string_at "chapterId" candidate
  chapter_number ← finite_at "chapterNumber" candidate
  scroll_percent ← finite_at "scrollPercent" candidate
  book_title ← string_at "bookTitle" candidate
  book_cover ← string_at "bookCover" candidate
  updated_at ← string_at "updatedAt" candidate
  some (record {
    book_id = book_id;
    chapter_id = chapter_id;
    chapter_number = chapter_number;
    scroll_percent = scroll_percent;
    book_title = book_title;
    book_cover = book_cover;
    updated_at = updated_at;
  })

module _ {T : Type 0} (codec : JsonCodec T) (date_parse : String → Option ℤ) where
  abbrev pub time_of : ReadingProgressEntry → ℤ
  time_of e = get_or (date_parse e.updated_at) (pos 0)

  -- `byNewestFirst(a, b) <= 0`
  abbrev pub by_newest_first : ReadingProgressEntry → ReadingProgressEntry → Bool
  by_newest_first a b = leb_ℤ (time_of b) (time_of a)

  abbrev pub is_percent : ℤ → Bool
  is_percent n = leb_ℤ (pos 0) n && leb_ℤ n (pos (100 * codec.one))

  -- The checks of `isReadingProgressEntry` beyond the types.
  abbrev pub is_valid : ReadingProgressEntry → Bool
  is_valid e = is_percent e.scroll_percent && is_some (date_parse e.updated_at)

  -- The entry that a value is, where `isReadingProgressEntry` holds.
  unfoldable pub entry_of : Json → Option ReadingProgressEntry
  entry_of (object candidate) = do e ← fields_of candidate; if is_valid e then some e else none
  entry_of _ = none

  -- `parsed.every(isReadingProgressEntry)`
  unfoldable pub entries_of : Items → Option (List ReadingProgressEntry)
  entries_of nil = some []
  entries_of (cons v items) = do e ← entry_of v; entries ← entries_of items; some (e ∷ entries)

  -- What a text holds.
  unfoldable pub parse_entries : T → List ReadingProgressEntry
  parse_entries raw = if codec.is_blank raw then [] else elim (codec.parse raw) [
    | some (array items) ↦ sort by_newest_first (get_or (entries_of items) [])
    | _ ↦ []
  ]

  -- `JSON.stringify(entries)`
  abbrev pub text_of : List ReadingProgressEntry → T
  text_of entries = codec.stringify (array (items_json entries))

  module _ {S : Type 0} where
    -- The storage may be missing, and may throw.
    unfoldable pub load_anonymous_reading_progress :
        Option (BrowserStorage T S) → S → List ReadingProgressEntry
    load_anonymous_reading_progress none s = []
    load_anonymous_reading_progress (some storage) s = elim (storage.get_item s) [
      | some (some raw) ↦ parse_entries raw
      | _ ↦ []
    ]

    unfoldable pub load_anonymous_chapter_progress :
        Option (BrowserStorage T S) → String → String → S → Option ChapterReadingProgress
    load_anonymous_chapter_progress storage book_id chapter_id s =
        elim (first (is_at book_id chapter_id) (load_anonymous_reading_progress storage s)) [
          | none ↦ none
          | some entry ↦ some (progress_of entry)
        ]

    unfoldable pub load_anonymous_book_progress :
        Option (BrowserStorage T S) → String → S → Option ReadingProgressEntry
    load_anonymous_book_progress storage book_id s =
        first (is_of_book book_id) (load_anonymous_reading_progress storage s)

    unfoldable pub try_write_anonymous_reading_progress :
        BrowserStorage T S → List ReadingProgressEntry → S → S
    try_write_anonymous_reading_progress storage entries s =
        let (result, s') = storage.set_item (text_of entries) s in
        elim result [
          | stored ↦ s'
          | refused ↦ s'
          | quota_exceeded ↦
              if leb (length entries) 1
              then s'
              else (storage.set_item (text_of (without_oldest entries)) s').1
        ]

    -- The entries that a save writes.
    unfoldable pub next_entries :
        BrowserStorage T S → ReadingProgressEntry → S → List ReadingProgressEntry
    next_entries storage entry s =
        let without_current =
          matching (is_elsewhere entry) (load_anonymous_reading_progress (some storage) s) in
        take max_anonymous_progress_entries (sort by_newest_first (entry ∷ without_current))

    unfoldable pub save_anonymous_reading_progress :
        Option (BrowserStorage T S) → ReadingProgressEntry → S → S
    save_anonymous_reading_progress none entry s = s
    save_anonymous_reading_progress (some storage) entry s =
        try_write_anonymous_reading_progress storage (next_entries storage entry s) s
