-- ===== src/Unlocks.antt =====
-- apps/api/src/modules/unlocks/unlocks.service.ts: unlocking a chapter by coins or by subscription.
pub mod Sound
pub mod Failure
pub mod Again
pub mod Charge
mod Tests
use novelhub.Prelude.{ℕ, Bool, Option, none, some, leb, ◌==◌, ◌&&◌, is_some, if◌then◌else◌}
use novelhub.Prelude.Int.{ℤ, neg}
use novelhub.Action.{
  Ident, Error, domain, bad_request, payment_required, insufficient_balance, unique_violation, ok,
  err, pure, throw, gets, or_throw, catch, throw_if, ◌>>=◌, ◌>>◌,
}
use novelhub.Prisma.{Prisma}
use novelhub.Schema.{
  Action, Book, Chapter, ChapterUnlock, UnlockMethod, coins, subscription, chapter_unlock,
  unlock_clash, Db,
}
use novelhub.Catalog.{is_chapter, has_active_subscription, find_unlock, find_chapter}
use novelhub.Coins.{adjust_balance}
use novelhub.Paging.{Paginated, skip_of}

pub record UnlockResponse : Type 0 where
  pub id : Ident
  pub chapter_id : Ident
  pub book_id : Ident
  pub method : UnlockMethod
  pub unlocked_at : ℕ

abbrev pub response : ChapterUnlock → Ident → UnlockResponse
response u book_id = record {
  id = u.id;
  chapter_id = u.chapter_id;
  book_id = book_id;
  method = u.method;
  unlocked_at = u.unlocked_at;
}

-- `chapter?.bookId ?? ''`
abbrev pub book_id_of : Option Chapter → Ident
book_id_of none = 0
book_id_of (some c) = c.book_id

abbrev newest_first : ChapterUnlock → ChapterUnlock → Bool
newest_first a b = leb b.unlocked_at a.unlocked_at

module _ (prisma : Prisma) where
  -- `bookId ? { userId, chapter: { bookId } } : { userId }`
  pub is_listed : Ident → Option Ident → Db → ChapterUnlock → Bool
  is_listed user_id none db u = u.user_id == user_id
  is_listed user_id (some book_id) db u =
      u.user_id == user_id
      && is_some (prisma.find_first (λ c. c.id == u.chapter_id && c.book_id == book_id) db.chapters)

  -- `chapterUnlock.create`
  pub create_unlock : Ident → Ident → UnlockMethod → ℕ → Action ChapterUnlock
  create_unlock user_id chapter_id method now db =
      let u : ChapterUnlock = record {
        id = prisma.uuid (λ (v : ChapterUnlock). v.id) db.unlocks;
        user_id = user_id;
        chapter_id = chapter_id;
        method = method;
        unlocked_at = now;
      } in
      elim (prisma.create unlock_clash u db.unlocks) [
        | none ↦ (err unique_violation, db)
        | some unlocks ↦ (ok u, record db { unlocks = unlocks })
      ]

  -- The `catch` of the coin path.
  pub coin_failure : Ident → Ident → Ident → Error → Action UnlockResponse
  coin_failure user_id chapter_id book_id (insufficient_balance required current) = throw (
      domain payment_required (
        some (record { chapter_id = chapter_id; coin_cost = required; current_balance = current })))
  coin_failure user_id chapter_id book_id unique_violation = do
    existing ← or_throw (← gets (find_unlock prisma user_id chapter_id)) unique_violation
    pure (response existing book_id)
  coin_failure user_id chapter_id book_id e = throw e

  -- The spend and the unlock of one transaction.
  pub spend_and_unlock : Ident → Ident → ℤ → ℕ → Action ChapterUnlock
  spend_and_unlock user_id chapter_id cost now = do
    adjust_balance prisma user_id (neg cost) chapter_unlock (some chapter_id) now
    create_unlock user_id chapter_id coins now

  pub unlock_by_coins : Ident → Chapter → Book → ℕ → Action UnlockResponse
  unlock_by_coins user_id chapter book now =
      catch
        (do
          created ←
              prisma.transaction (spend_and_unlock user_id chapter.id book.coin_per_chapter now)
          pure (response created chapter.book_id))
        (coin_failure user_id chapter.id chapter.book_id)

  pub unlock_by_subscription : Ident → Chapter → ℕ → Action UnlockResponse
  unlock_by_subscription user_id chapter now = do
    created ← create_unlock user_id chapter.id subscription now
    pure (response created chapter.book_id)

  -- The rest of `unlockChapter`, once the chapter and its book have been found.
  pub unlock_found : Ident → ℕ → Chapter × Book → Action UnlockResponse
  unlock_found user_id now (chapter, book) = do
    throw_if chapter.is_free (domain bad_request none)
    subscribed ← gets (has_active_subscription prisma user_id now)
    if subscribed
        then unlock_by_subscription user_id chapter now
        else unlock_by_coins user_id chapter book now

  pub unlock_new : Ident → Ident → ℕ → Action UnlockResponse
  unlock_new user_id chapter_id now = find_chapter prisma chapter_id >>= unlock_found user_id now

  pub unlock_from : Ident → Ident → ℕ → Option ChapterUnlock → Action UnlockResponse
  unlock_from user_id chapter_id now (some existing) =
      gets (λ db.
        response existing (book_id_of (prisma.find_first (is_chapter chapter_id) db.chapters)))
  unlock_from user_id chapter_id now none = unlock_new user_id chapter_id now

  pub unlock_chapter : Ident → Ident → ℕ → Action UnlockResponse
  unlock_chapter user_id chapter_id now db =
      unlock_from user_id chapter_id now (find_unlock prisma user_id chapter_id db) db

  pub list : Ident → ℕ → ℕ → Option Ident → Action (Paginated ChapterUnlock)
  list user_id page limit book_id db = (
    ok (record {
      items =
          prisma.find_many (is_listed user_id book_id db) newest_first (skip_of page limit) limit
            db.unlocks;
      total = prisma.count (is_listed user_id book_id db) db.unlocks;
      page = page;
      limit = limit;
    }),
    db,
  )
