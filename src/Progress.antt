-- ===== src/Progress.antt =====
-- apps/api/src/modules/reading-progress/reading-progress.service.ts: how far a reader has come in
-- each chapter, and the books that the reader has read last.
pub mod Saved
pub mod Books
pub mod Recent
pub mod Sound
mod Tests
use Prim.Native.String.{String}
use novelhub.Prelude.{
  ℕ, zero, suc, ◌+◌, ◌-◌, ◌*◌, ◌/◌, min, Bool, true, false, Option, none, some, List, [], ◌∷◌, ◌++◌,
  take, head?, ltb, leb, ◌==◌, ◌&&◌, ◌||◌, is_none, is_some, if◌then◌else◌,
}
use novelhub.Prelude.Int.{ℤ, pos, negsuc, neg, pos_part}
use novelhub.Action.{
  Ident, domain, not_found, other, ok, err, throw, pure, gets, or_throw, throw_if, truthy,
  match_option, ◌>>=◌, ◌>>◌,
}
use novelhub.Prisma.{Prisma}
use novelhub.Schema.{Action, Book, Chapter, ReadingProgress, Db}
use novelhub.Catalog.{is_chapter, is_book, is_stored_chapter, find_unlock, has_active_subscription}

-- A finite number of JavaScript: `numerator / (below + 1)`.
pub record Number : Type 0 where
  pub numerator : ℤ
  pub below : ℕ

-- `Math.round`: the nearest whole number, a half going up.
abbrev pub round : Number → ℤ
round x = elim x.numerator [
  | pos a ↦ pos ((2 * a + suc x.below) / (2 * suc x.below))
  | negsuc a ↦ neg (pos ((2 * suc a - suc x.below + (2 * suc x.below - 1)) / (2 * suc x.below)))
]

abbrev pub clamp_scroll_percent : Number → ℕ
clamp_scroll_percent value = min 100 (pos_part (round value))

pub record ProgressResponse : Type 0 where
  pub id : Ident
  pub book_id : Ident
  pub chapter_id : Ident
  pub scroll_percent : ℕ
  pub last_read_at : ℕ

abbrev pub to_progress_response : ReadingProgress → ProgressResponse
to_progress_response p = record {
  id = p.id;
  book_id = p.book_id;
  chapter_id = p.chapter_id;
  scroll_percent = p.scroll_position;
  last_read_at = p.last_read_at;
}

pub record ProgressListItem : Type 0 where
  pub book_id : Ident
  pub chapter_id : Ident
  pub chapter_number : ℕ
  pub scroll_percent : ℕ
  pub book_title : String
  pub book_cover : String
  pub updated_at : ℕ

-- `userId` of a row that may belong to a guest
abbrev pub is_by : Ident → ReadingProgress → Bool
is_by user_id p = elim p.user_id [ none ↦ false | some id ↦ id == user_id ]

-- `{ userId_chapterId: { userId, chapterId } }`
abbrev pub is_progress_of : Ident → Ident → ReadingProgress → Bool
is_progress_of user_id chapter_id p = is_by user_id p && p.chapter_id == chapter_id

-- `query.x ? { x: query.x } : {}`
abbrev pub is_asked : Option Ident → Ident → Bool
is_asked query id = elim (truthy query) [ none ↦ true | some q ↦ id == q ]

abbrev pub is_queried : Ident → Option Ident → Option Ident → ReadingProgress → Bool
is_queried user_id book_id chapter_id p =
    is_by user_id p && (is_asked book_id p.book_id && is_asked chapter_id p.chapter_id)

abbrev pub read_last : ReadingProgress → ReadingProgress → Bool
read_last p q = leb q.last_read_at p.last_read_at

-- `[{ lastReadAt: 'desc' }, { updatedAt: 'desc' }, { id: 'asc' }]`
abbrev pub most_recent : ReadingProgress → ReadingProgress → Bool
most_recent p q =
    ltb q.last_read_at p.last_read_at
    || q.last_read_at == p.last_read_at
      && (ltb q.updated_at p.updated_at || q.updated_at == p.updated_at && leb p.id q.id)

-- `byBook.has(row.bookId)`
abbrev pub has_book : Ident → List ReadingProgress → Bool
has_book book_id [] = false
has_book book_id (p ∷ rows) = p.book_id == book_id || has_book book_id rows

-- The `reduce` into a `Map`, which keeps its entries in the order of their first insertion.
abbrev pub reduce_by_book : List ReadingProgress → List ReadingProgress → List ReadingProgress
reduce_by_book by_book [] = by_book
reduce_by_book by_book (p ∷ rows) =
    reduce_by_book (if has_book p.book_id by_book then by_book else by_book ++ p ∷ []) rows

-- `Math.min(requestedLimit * 5, 50)`
abbrev pub fetch_limit : ℕ → ℕ
fetch_limit requested_limit = min (requested_limit * 5) 50

-- The `create` and the `update` of the upsert.
abbrev pub put_progress : Chapter → ℕ → ℕ → ReadingProgress → ReadingProgress
put_progress c scroll_position now p = record p {
  book_id = c.book_id;
  scroll_position = scroll_position;
  last_read_at = now;
  updated_at = now;
}

abbrev pub new_progress : Ident → Ident → Ident → Chapter → ℕ → ℕ → ReadingProgress
new_progress id user_id chapter_id c scroll_position now = record {
  id = id;
  user_id = some user_id;
  book_id = c.book_id;
  chapter_id = chapter_id;
  scroll_position = scroll_position;
  last_read_at = now;
  updated_at = now;
}

-- A row as the answer shows it, with its chapter and its book.
abbrev pub list_item : ReadingProgress → Chapter → Book → ProgressListItem
list_item p c b = record {
  book_id = p.book_id;
  chapter_id = p.chapter_id;
  chapter_number = c.order;
  scroll_percent = p.scroll_position;
  book_title = b.title;
  book_cover = b.cover_url;
  updated_at = p.updated_at;
}

module _ (prisma : Prisma) where
  -- `{ id, deletedAt: null, book: { deletedAt: null } }`
  abbrev pub is_readable_chapter : Ident → Db → Chapter → Bool
  is_readable_chapter chapter_id db c =
      is_stored_chapter chapter_id c
      && is_some (prisma.find_first (λ b. is_book c.book_id b && is_none b.deleted_at) db.books)

  unfoldable pub user_can_read : Ident → Chapter → ℕ → Db → Bool
  user_can_read user_id c now db =
      c.is_free
      || (is_some (find_unlock prisma user_id c.id db)
          || has_active_subscription prisma user_id now db)

  unfoldable pub find_readable : Ident → Ident → ℕ → Db → Option Chapter
  find_readable user_id chapter_id now db =
      elim (prisma.find_first (is_readable_chapter chapter_id db) db.chapters) [
        | none ↦ none
        | some c ↦ if user_can_read user_id c now db then some c else none
      ]

  -- `readingProgress.upsert`
  unfoldable pub upsert_progress : Ident → Ident → Chapter → ℕ → ℕ → Action (Unit {0})
  upsert_progress user_id chapter_id c scroll_position now db = (
    ok tt,
    record db {
      progress =
          prisma.upsert (is_progress_of user_id chapter_id)
            (new_progress (prisma.uuid (λ (p : ReadingProgress). p.id) db.progress) user_id
              chapter_id c scroll_position now)
            (put_progress c scroll_position now) db.progress;
    },
  )

  unfoldable pub save : Ident → Ident → Number → ℕ → Action ProgressResponse
  save user_id chapter_id scroll_percent now = do
    c ← or_throw (← gets (find_readable user_id chapter_id now)) (domain not_found none)
    upsert_progress user_id chapter_id c (clamp_scroll_percent scroll_percent) now
    progress ←
        or_throw (← gets (λ db. prisma.find_first (is_progress_of user_id chapter_id) db.progress))
          other
    pure (to_progress_response progress)

  unfoldable pub find_one : Ident → Option Ident → Option Ident → Db → Option ProgressResponse
  find_one user_id book_id chapter_id db =
      elim (head?
        (prisma.find_many (is_queried user_id book_id chapter_id) read_last 0 1 db.progress)) [
          | none ↦ none
          | some p ↦ some (to_progress_response p)
        ]

  -- At most `limit` of the `fetch_limit` rows fetched, one for each book.
  unfoldable pub fetch_rows : Ident → ℕ → ℕ → Db → List ReadingProgress
  fetch_rows user_id limit zero db = []
  fetch_rows user_id limit (suc n) db =
      take limit
        (reduce_by_book [] (prisma.find_many (is_by user_id) most_recent 0 (suc n) db.progress))

  -- The rows that the answer shows.
  unfoldable pub recent_rows : Ident → ℤ → Db → List ReadingProgress
  recent_rows user_id limit db =
      let requested_limit = pos_part limit in
      fetch_rows user_id requested_limit (fetch_limit requested_limit) db

  -- The joins; the foreign keys give every row its chapter and its book.
  unfoldable pub item_of : Db → ReadingProgress → Option ProgressListItem
  item_of db p = elim (prisma.find_first (is_chapter p.chapter_id) db.chapters) [
    | none ↦ none
    | some c ↦ elim (prisma.find_first (is_book p.book_id) db.books) [
      | none ↦ none
      | some b ↦ some (list_item p c b)
    ]
  ]

  unfoldable pub items_of : Db → List ReadingProgress → Option (List ProgressListItem)
  items_of db [] = some []
  items_of db (p ∷ rows) = elim (item_of db p) [
    | none ↦ none
    | some i ↦ elim (items_of db rows) [ none ↦ none | some items ↦ some (i ∷ items) ]
  ]

  unfoldable pub list_recent : Ident → ℤ → Action (List ProgressListItem)
  list_recent user_id limit = do
    items ← gets (λ db. items_of db (recent_rows user_id limit db))
    or_throw items other
