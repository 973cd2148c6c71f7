-- ===== src/Admin/Edit.antt =====
-- `createBook`, `updateBook`, `getBook` and `coverUploadUrl` of admin.service.ts, and
-- free-chapter-limit.ts.
pub mod Rows
pub mod Limit
use Prim.Native.String.{String, ◌++◌ as append}
use Prim.Native.Char.{Char, code}
use text.Mathlib.Text.{◌==◌ as str_eq}
use novelhub.Prelude.{
  ℕ, zero, suc, Bool, true, false, Option, none, some, List, [], ◌∷◌, leb, ◌==◌, ◌&&◌, ◌||◌, not,
  is_none, is_some, get_or, if◌then◌else◌,
}
use novelhub.Prelude.Int.{ℤ, pos}
use novelhub.Prelude.Text.{is_empty, word_count}
use novelhub.Action.{
  Ident, Exec, Error, domain, bad_request, not_found, unique_violation, other, ok, err, pure, gets,
  modify, throw, or_throw, throw_if, match_option, ◌>>=◌, ◌>>◌,
}
use novelhub.Prisma.{Prisma}
use novelhub.Schema.{Action, Book, Chapter, Db}
use novelhub.Catalog.{is_stored_chapter}
use novelhub.Chapters.{take_chars, preview_length}
use novelhub.Admin.{
  AdminStore, clamp_free_chapter_limit, book_clash, on_db, find_stored_book, update_book_row,
  update_chapter_row,
}

-- A text from which a front part is taken; `none` is that it has another.
abbrev pub eat_text : String → String → Option String
eat_text String.[] s = some s
eat_text (String.◌∷◌ c t) String.[] = none
eat_text (String.◌∷◌ c t) (String.◌∷◌ d s) = if code c == code d then eat_text t s else none

-- `[0-9a-f]`
abbrev pub is_hex : Char → Bool
is_hex c = let n = code c in leb 48 n && leb n 57 || leb 97 n && leb n 102

-- `[0-9a-f]{n}`
abbrev pub eat_hex : ℕ → String → Option String
eat_hex zero s = some s
eat_hex (suc n) String.[] = none
eat_hex (suc n) (String.◌∷◌ c s) = if is_hex c then eat_hex n s else none

abbrev pub then_eat : Option String → (String → Option String) → Option String
then_eat none f = none
then_eat (some s) f = f s

-- `/[0-9a-f]{8}-[0-9a-f]{4}-[0-9a-f]{4}-[0-9a-f]{4}-[0-9a-f]{12}$/`
abbrev pub is_uuid : String → Bool
is_uuid s =
    let group =
      λ (n : ℕ) (rest : Option String). then_eat (then_eat rest (eat_hex n)) (eat_text "-") in
    let groups = group 4 (group 4 (group 4 (group 8 (some s)))) in
    elim (then_eat groups (eat_hex 12)) [ none ↦ false | some rest ↦ is_empty rest ]

-- `COVER_IMAGE_KEY_RE.test(key)`
pub is_cover_image_key : String → Bool
is_cover_image_key key = elim (eat_text "covers/" key) [ none ↦ false | some rest ↦ is_uuid rest ]

-- `dto.coverImageKey && !COVER_IMAGE_KEY_RE.test(dto.coverImageKey)`
abbrev pub is_bad_key : Option String → Bool
is_bad_key none = false
is_bad_key (some key) = not (is_empty key) && not (is_cover_image_key key)

abbrev pub default_free_chapter_limit : ℤ
default_free_chapter_limit = pos 3

-- `FREE_CHAPTER_LIMIT`; `Number.parseInt` gives `none` for NaN.
pub configured_free_chapter_limit : (String → Option ℤ) → Option String → ℕ
configured_free_chapter_limit parse_int none = clamp_free_chapter_limit default_free_chapter_limit
configured_free_chapter_limit parse_int (some value) =
    if is_empty value
    then clamp_free_chapter_limit default_free_chapter_limit
    else clamp_free_chapter_limit (get_or (parse_int value) default_free_chapter_limit)

-- The environment of the service.
pub record AdminEnv : Type 0 where
  pub free_chapter_limit : Option String
  pub parse_int : String → Option ℤ
  pub public_r2_host : Option String

pub record CreateBook : Type 0 where
  pub title : String
  pub author : String
  pub cover_url : String
  pub cover_image_key : Option String
  pub description : String
  pub category : String
  pub tags : Option (List String)
  pub status : Option String
  pub is_featured : Option Bool
  pub free_chapter_count : Option ℤ
  pub coin_per_chapter : Option ℤ

-- A field that is missing stays as it is.
pub record UpdateBook : Type 0 where
  pub title : Option String
  pub author : Option String
  pub cover_url : Option String
  pub cover_image_key : Option String
  pub description : Option String
  pub category : Option String
  pub tags : Option (List String)
  pub status : Option String
  pub is_featured : Option Bool
  pub free_chapter_count : Option ℤ
  pub coin_per_chapter : Option ℤ

-- `clampFreeChapterLimit(dto.freeChapterCount ?? configuredFreeChapterLimit())`
abbrev pub free_chapters_of : AdminEnv → Option ℤ → ℕ
free_chapters_of env (some n) = clamp_free_chapter_limit n
free_chapters_of env none =
    clamp_free_chapter_limit
      (pos (configured_free_chapter_limit env.parse_int env.free_chapter_limit))

abbrev pub new_book : AdminEnv → CreateBook → ℕ → Ident → Book
new_book env dto now id = record {
  id = id;
  title = dto.title;
  author = dto.author;
  cover_url = dto.cover_url;
  cover_image_key = dto.cover_image_key;
  description = dto.description;
  category = dto.category;
  tags = get_or dto.tags [];
  status = get_or dto.status "ONGOING";
  is_featured = get_or dto.is_featured false;
  total_chapters = 0;
  free_chapter_count = free_chapters_of env dto.free_chapter_count;
  coin_per_chapter = get_or dto.coin_per_chapter (pos 5);
  created_at = now;
  deleted_at = none;
}

abbrev pub text_or : Option String → String → String
text_or none d = d
text_or (some s) d = if is_empty s then d else s

-- `data.coverUrl`, derived from a new key where the host is known and no address is given.
abbrev pub cover_url_of : AdminEnv → UpdateBook → String → String
cover_url_of env dto old =
    let key = text_or dto.cover_image_key "" in
    let host = text_or env.public_r2_host "" in
    if not (is_empty key) && is_empty (text_or dto.cover_url "") && not (is_empty host)
    then append "https://" (append host (append "/" key))
    else get_or dto.cover_url old

abbrev pub some_or : {A : Type 0} → Option A → Option A → Option A
some_or none d = d
some_or (some a) d = some a

abbrev pub set_book : AdminEnv → UpdateBook → Book → Book
set_book env dto b = record b {
  title = get_or dto.title b.title;
  author = get_or dto.author b.author;
  cover_url = cover_url_of env dto b.cover_url;
  cover_image_key = some_or dto.cover_image_key b.cover_image_key;
  description = get_or dto.description b.description;
  category = get_or dto.category b.category;
  tags = get_or dto.tags b.tags;
  status = get_or dto.status b.status;
  is_featured = get_or dto.is_featured b.is_featured;
  free_chapter_count = elim dto.free_chapter_count [
    | none ↦ b.free_chapter_count
    | some n ↦ clamp_free_chapter_limit n
  ];
  coin_per_chapter = get_or dto.coin_per_chapter b.coin_per_chapter;
}

-- What `getBook` selects.
pub record AdminBook : Type 0 where
  pub id : Ident
  pub title : String
  pub author : String
  pub cover_url : String
  pub cover_image_key : Option String
  pub description : String
  pub category : String
  pub tags : List String
  pub status : String
  pub is_featured : Bool
  pub free_chapter_count : ℕ
  pub coin_per_chapter : ℤ

abbrev pub admin_book : Book → AdminBook
admin_book b = record {
  id = b.id;
  title = b.title;
  author = b.author;
  cover_url = b.cover_url;
  cover_image_key = b.cover_image_key;
  description = b.description;
  category = b.category;
  tags = b.tags;
  status = b.status;
  is_featured = b.is_featured;
  free_chapter_count = b.free_chapter_count;
  coin_per_chapter = b.coin_per_chapter;
}

abbrev pub allowed_cover_mime : String → Bool
allowed_cover_mime t = str_eq t "image/png" || str_eq t "image/jpeg" || str_eq t "image/webp"

pub record CoverUpload : Type 0 where
  pub upload_url : String
  pub key : String

-- The upload address of a key and a type, of the storage.
unfoldable pub cover_upload_url :
    (String → String → String) → String → Option String → Option CoverUpload
cover_upload_url signed_url new_id content_type =
    let type = get_or content_type "image/jpeg" in
    let key = append "covers/" new_id in
    if not (allowed_cover_mime type)
    then none
    else some (record { upload_url = signed_url key type; key = key })

module _ (prisma : Prisma) where
  unfoldable pub create_book_row : Book → Action (Unit {0})
  create_book_row b db = elim (prisma.create book_clash b db.books) [
    | none ↦ (err unique_violation, db)
    | some books ↦ (ok tt, record db { books = books })
  ]

  unfoldable pub get_book : Ident → Action AdminBook
  get_book id = do b ← find_stored_book prisma id; pure (admin_book b)

  module _ {T : Type 0} (store : AdminStore T) where
    unfoldable pub create_book : AdminEnv → CreateBook → ℕ → Exec (Db × T) Ident
    create_book env dto now = do
      throw_if (is_bad_key dto.cover_image_key) (domain bad_request none)
      id ← on_db prisma store (gets (λ db. prisma.uuid (λ (b : Book). b.id) db.books))
      on_db prisma store (create_book_row (new_book env dto now id))
      modify (λ (db, t). (db, store.invalidate_list_caches t))
      pure id

    unfoldable pub update_book : AdminEnv → Ident → UpdateBook → Exec (Db × T) Ident
    update_book env id dto = do
      on_db prisma store (find_stored_book prisma id)
      throw_if (is_bad_key dto.cover_image_key) (domain bad_request none)
      on_db prisma store (update_book_row prisma id (set_book env dto))
      modify (λ (db, t). (db, store.invalidate_list_caches t))
      pure id
