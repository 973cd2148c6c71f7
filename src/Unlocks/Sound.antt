-- ===== src/Unlocks/Sound.antt =====
-- `unlockChapter` of unlocks.service.ts and the coin ledger.
use novelhub.Prelude.{ℕ, Option, none, some, refl, arith}
use novelhub.Prelude.Int.{ℤ}
use novelhub.Action.{Ident, Error, unique_violation}
use novelhub.Prisma.{Uuid, on_lists}
use novelhub.Schema.{Book, Chapter, UnlockMethod, ChapterUnlock}
use novelhub.Catalog.{find_chapter, find_unlock}
use novelhub.Ledger.{IsSound}
use novelhub.Ledger.Keeps.{Keeps, KeepsIfOk, keeps_rules, ok_rules, untouched-Keeps}
use novelhub.Coins.Sound.{adjust_balance-KeepsIfOk}
use novelhub.Unlocks.{
  create_unlock, coin_failure, spend_and_unlock, unlock_by_coins, unlock_by_subscription,
  unlock_found, unlock_new, unlock_from, unlock_chapter,
}

module _ (uuid : Uuid) where
  create_unlock-Keeps :
      (user_id chapter_id : Ident) (method : UnlockMethod) (now : ℕ)
      → Keeps IsSound (create_unlock (on_lists uuid) user_id chapter_id method now)
  unfolding create_unlock
  create_unlock-Keeps user_id chapter_id method now = untouched-Keeps _ (λ db. ground arith)

  find_chapter-Keeps : (id : Ident) → Keeps IsSound (find_chapter (on_lists uuid) id)
  unfolding find_chapter
  find_chapter-Keeps id = untouched-Keeps _ (λ db. ground arith)

  coin_failure-Keeps :
      (user_id chapter_id book_id : Ident) (e : Error)
      → Keeps IsSound (coin_failure (on_lists uuid) user_id chapter_id book_id e)
  unfolding coin_failure
  coin_failure-Keeps user_id chapter_id book_id unique_violation =
      untouched-Keeps _ (λ db. ground arith)
  coin_failure-Keeps user_id chapter_id book_id e = untouched-Keeps _ (λ db. (refl, refl))

  spend_and_unlock_ok :
      (user_id chapter_id : Ident) (cost : ℤ) (now : ℕ)
      → KeepsIfOk IsSound (spend_and_unlock (on_lists uuid) user_id chapter_id cost now)
  unfolding spend_and_unlock
  spend_and_unlock_ok user_id chapter_id cost now =
      search (ok_rules, adjust_balance-KeepsIfOk, create_unlock-Keeps)

  unlock_by_coins-Keeps :
      (user_id : Ident) (chapter : Chapter) (book : Book) (now : ℕ)
      → Keeps IsSound (unlock_by_coins (on_lists uuid) user_id chapter book now)
  unfolding unlock_by_coins
  unlock_by_coins-Keeps user_id chapter book now =
      search (keeps_rules, spend_and_unlock_ok, coin_failure-Keeps) depth 7

  unlock_by_subscription-Keeps :
      (user_id : Ident) (chapter : Chapter) (now : ℕ)
      → Keeps IsSound (unlock_by_subscription (on_lists uuid) user_id chapter now)
  unfolding unlock_by_subscription
  unlock_by_subscription-Keeps user_id chapter now = search (keeps_rules, create_unlock-Keeps)

  unlock_found-Keeps :
      (user_id : Ident) (now : ℕ) (found : Chapter × Book)
      → Keeps IsSound (unlock_found (on_lists uuid) user_id now found)
  unfolding unlock_found
  unlock_found-Keeps user_id now (chapter, book) =
      search (keeps_rules, unlock_by_coins-Keeps, unlock_by_subscription-Keeps) depth 7

  unlock_new-Keeps :
      (user_id chapter_id : Ident) (now : ℕ)
      → Keeps IsSound (unlock_new (on_lists uuid) user_id chapter_id now)
  unfolding unlock_new
  unlock_new-Keeps user_id chapter_id now =
      search (keeps_rules, find_chapter-Keeps, unlock_found-Keeps)

  unlock_from-Keeps :
      (user_id chapter_id : Ident) (now : ℕ) (o : Option ChapterUnlock)
      → Keeps IsSound (unlock_from (on_lists uuid) user_id chapter_id now o)
  unfolding unlock_from
  unlock_from-Keeps user_id chapter_id now none = unlock_new-Keeps user_id chapter_id now
  unlock_from-Keeps user_id chapter_id now (some u) = search keeps_rules

  pub unlock_chapter-Keeps :
      (user_id chapter_id : Ident) (now : ℕ)
      → Keeps IsSound (unlock_chapter (on_lists uuid) user_id chapter_id now)
  unfolding unlock_chapter
  unlock_chapter-Keeps user_id chapter_id now = record {
    at = λ db s.
        (unlock_from-Keeps user_id chapter_id now
            (find_unlock (on_lists uuid) user_id chapter_id db)).at
          db s;
  }
