-- ===== src/Unlocks/Failure.antt =====
-- `unlockChapter` of unlocks.service.ts where it throws.
use novelhub.Prelude.{ℕ, ◌≡◌, refl, arith}
use novelhub.Action.{Ident, Error, err, unique_violation}
use novelhub.Prisma.{Prisma, IsDocumented, Uuid, on_lists, uuid_of, eq_on_lists}
use novelhub.Schema.{Book, Chapter, Db}
use novelhub.Catalog.{find_chapter}
use novelhub.Unlocks.{
  create_unlock, coin_failure, unlock_by_coins, unlock_by_subscription, unlock_found, unlock_new,
  unlock_from, unlock_chapter,
}

module _ (uuid : Uuid) (user_id : Ident) (now : ℕ) (db db' : Db) (x : Error) where
  coin_failure_state :
      (chapter_id book_id : Ident) (e : Error)
      → (coin_failure (on_lists uuid) user_id chapter_id book_id e db).1 ≡ db
  unfolding coin_failure
  coin_failure_state chapter_id book_id unique_violation = ground arith
  coin_failure_state chapter_id book_id e = refl

  coins_unchanged :
      (c : Chapter) (b : Book)
      → unlock_by_coins (on_lists uuid) user_id c b now db ≡ (err x, db')
      → db' ≡ db
  unfolding unlock_by_coins
  coins_unchanged c b e = grind (arith, coin_failure_state)

  subscription_unchanged :
      (c : Chapter)
      → unlock_by_subscription (on_lists uuid) user_id c now db ≡ (err x, db')
      → db' ≡ db
  unfolding unlock_by_subscription create_unlock
  subscription_unchanged c e = ground arith

  found_unchanged :
      (c : Chapter) (b : Book)
      → unlock_found (on_lists uuid) user_id now (c, b) db ≡ (err x, db')
      → db' ≡ db
  unfolding unlock_found
  found_unchanged c b e = ground (arith, coins_unchanged c b, subscription_unchanged c)

  unchanged_on_lists :
      (chapter_id : Ident)
      → unlock_chapter (on_lists uuid) user_id chapter_id now db ≡ (err x, db')
      → db' ≡ db
  unfolding unlock_chapter unlock_from unlock_new find_chapter
  unchanged_on_lists chapter_id e = grind (arith, found_unchanged)

-- Where `unlockChapter` throws, whatever the error is, the database is the one before the call.
pub unlock_chapter-err :
    (prisma : Prisma) (user_id chapter_id now : Ident) (db db' : Db) (x : Error)
    → IsDocumented prisma
    → unlock_chapter prisma user_id chapter_id now db ≡ (err x, db')
    → db' ≡ db
unlock_chapter-err prisma user_id chapter_id now db db' x doc =
    rw (eq_on_lists prisma doc)
      (unchanged_on_lists (uuid_of prisma) user_id now db db' x chapter_id)
