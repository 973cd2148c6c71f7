-- ===== src/Chapters.antt =====
-- apps/api/src/modules/chapters/chapters.service.ts: who may read a chapter, and what a reader
-- without access sees. The cache and the storage are interfaces of the program, and so arguments.
pub mod Next
pub mod Access
mod Tests
use Prim.Native.String.{String}
use Prim.Native.String
use novelhub.Prelude.{
  ℕ, zero, suc, Bool, false, Option, none, some, head?, ltb, leb, ◌==◌, ◌&&◌, ◌||◌, is_none,
  is_some, get_or, if◌then◌else◌,
}
use novelhub.Prelude.Int.{ℤ, pos, leb_ℤ}
use novelhub.Action.{Ident, Exec, ok, gets, ◌>>=◌}
use novelhub.Prisma.{Prisma}
use novelhub.Schema.{Action, Book, Chapter, User, has_id, is_live, Db}
use novelhub.Catalog.{find_chapter, find_unlock, has_active_subscription}

-- `CacheClient` of cache.constants.ts, an interface of the program, at the keys of the chapter
-- previews: `K` is what the cache keeps.
pub record CacheClient (K : Type 0) : Type 0 where
  pub get : Ident → K → Option String
  pub set : Ident → String → K → K

-- `StorageClient` of storage.constants.ts; a call that throws is `none`.
pub record StorageClient : Type 0 where
  pub get_signed_url : String → Option String
  pub get_text : String → Option String

-- `text.slice(0, n)` (JavaScript counts a character beyond 16 bits twice; here it counts once).
abbrev pub take_chars : ℕ → String → String
take_chars zero s = String.[]
take_chars (suc n) String.[] = String.[]
take_chars (suc n) (String.◌∷◌ c s) = String.◌∷◌ c (take_chars n s)

-- `PREVIEW_LENGTH`
abbrev pub preview_length : ℕ
preview_length = 100

-- A text that cannot be read has an empty preview.
abbrev pub preview_of : Option String → String
preview_of none = ""
preview_of (some text) = take_chars preview_length text

pub record UnlockOptions : Type 0 where
  pub coin_cost : ℤ
  pub can_unlock_with_coins : Bool
  pub can_unlock_with_subscription : Bool

pub record UnlockedChapter : Type 0 where
  pub id : Ident
  pub book_id : Ident
  pub chapter_number : ℕ
  pub title : String
  pub content_url : String
  pub word_count : ℕ
  pub prev_chapter_id : Option Ident
  pub next_chapter_id : Option Ident

pub record LockedChapter : Type 0 where
  pub id : Ident
  pub book_id : Ident
  pub chapter_number : ℕ
  pub title : String
  pub preview : String
  pub unlock_options : UnlockOptions

pub data ChapterReadResponse : Type 0 where
  unlocked : UnlockedChapter → ChapterReadResponse
  locked : LockedChapter → ChapterReadResponse

-- `{ bookId, deletedAt: null, order: { lt } }` and `{ …, order: { gt } }`
abbrev pub stands_before : Chapter → Chapter → Bool
stands_before c d = d.book_id == c.book_id && (is_none d.deleted_at && ltb d.order c.order)

abbrev pub stands_after : Chapter → Chapter → Bool
stands_after c d = d.book_id == c.book_id && (is_none d.deleted_at && ltb c.order d.order)

abbrev pub by_order_desc : Chapter → Chapter → Bool
by_order_desc a b = leb b.order a.order

abbrev pub by_order_asc : Chapter → Chapter → Bool
by_order_asc a b = leb a.order b.order

abbrev pub id_of : Option Chapter → Option Ident
id_of none = none
id_of (some c) = some c.id

module _ (prisma : Prisma) where
  unfoldable pub has_chapter_unlock : Ident → Ident → Db → Bool
  unfolding find_unlock
  has_chapter_unlock user_id chapter_id db = is_some (find_unlock prisma user_id chapter_id db)

  -- A user id that is missing is a reader who is not signed in.
  unfoldable pub is_unlocked_for : Chapter → Option Ident → ℕ → Db → Bool
  is_unlocked_for c none now db = c.is_free
  is_unlocked_for c (some user_id) now db =
      c.is_free
      || (has_active_subscription prisma user_id now db || has_chapter_unlock user_id c.id db)

  -- 0 for an account that is missing or deleted
  balance_of : Option User → ℤ
  balance_of none = pos 0
  balance_of (some u) = if is_live u then u.coin_balance else pos 0

  unfoldable pub get_coin_balance : Ident → Db → ℤ
  unfolding balance_of
  get_coin_balance user_id db = balance_of (prisma.find_first (has_id user_id) db.users)

  pub prev_chapter : Chapter → Db → Option Chapter
  prev_chapter c db = head? (prisma.find_many (stands_before c) by_order_desc 0 1 db.chapters)

  pub next_chapter : Chapter → Db → Option Chapter
  next_chapter c db = head? (prisma.find_many (stands_after c) by_order_asc 0 1 db.chapters)

  -- A url that cannot be signed falls back to the raw key.
  pub build_unlocked : StorageClient → Chapter → Db → UnlockedChapter
  build_unlocked storage c db = record {
    id = c.id;
    book_id = c.book_id;
    chapter_number = c.order;
    title = c.title;
    content_url = get_or (storage.get_signed_url c.content_url) c.content_url;
    word_count = c.word_count;
    prev_chapter_id = id_of (prev_chapter c db);
    next_chapter_id = id_of (next_chapter c db);
  }

  unfoldable pub unlock_options : ℤ → Option Ident → ℕ → Db → UnlockOptions
  unlock_options coin_cost none now db = record {
    coin_cost = coin_cost;
    can_unlock_with_coins = false;
    can_unlock_with_subscription = false;
  }
  unlock_options coin_cost (some user_id) now db = record {
    coin_cost = coin_cost;
    can_unlock_with_coins = leb_ℤ coin_cost (get_coin_balance user_id db);
    can_unlock_with_subscription = has_active_subscription prisma user_id now db;
  }

  unfoldable pub build_locked : String → Chapter → Book → Option Ident → ℕ → Db → LockedChapter
  build_locked preview c b user_id now db = record {
    id = c.id;
    book_id = c.book_id;
    chapter_number = c.order;
    title = c.title;
    preview = preview;
    unlock_options = unlock_options b.coin_per_chapter user_id now db;
  }

  module _ {K : Type 0} (cache : CacheClient K) (storage : StorageClient) where
    -- A text that the cache lacks is read and kept; the database is only passed on.
    pub preview_for : Ident → String → Exec (Db × K) String
    preview_for chapter_id content_url (db, k) = elim (cache.get chapter_id k) [
      | some cached ↦ (ok cached, (db, k))
      | none ↦
          let preview = preview_of (storage.get_text content_url) in
          (ok preview, (db, cache.set chapter_id preview k))
    ]

    pub read_found : Option Ident → ℕ → Chapter × Book → Exec (Db × K) ChapterReadResponse
    read_found user_id now (c, b) = do
      is_unlocked ← gets (λ (db, k). is_unlocked_for c user_id now db)
      if is_unlocked then gets (λ (db, k). unlocked (build_unlocked storage c db)) else (do
        preview ← preview_for c.id c.content_url
        gets (λ (db, k). locked (build_locked preview c b user_id now db)))

    -- What reads the database alone.
    abbrev on_db : {A : Type 0} → Action A → Exec (Db × K) A
    on_db m (db, k) = let (r, db') = m db in (r, (db', k))

    pub read_chapter : Ident → Option Ident → ℕ → Exec (Db × K) ChapterReadResponse
    read_chapter chapter_id user_id now = do
      found ← on_db (find_chapter prisma chapter_id)
      read_found user_id now found
