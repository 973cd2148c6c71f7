-- ===== src/Unlocks/Charge.antt =====
-- `unlockChapter` of unlocks.service.ts where coins pay for the chapter.
use novelhub.Prelude.{
  ℕ, true, false, none, some, List, [], ◌∷◌, ◌++◌, ◌≡◌, ◌≢◌, refl, arith, All, ◌∙◌,
}
use novelhub.Prelude.Int.{ℤ, pos, ◌+ℤ◌, ◌<ℤ◌, neg, leb_ℤ, ltb_ℤ, neg-neg, neg_of_pos, ltb-leb_ℤ}
use novelhub.Action.{Ident, ok, err, domain, payment_required, insufficient_balance}
use novelhub.Action.Runs.{bind-ok, bind-err}
use novelhub.Prisma.{
  Prisma, IsDocumented, Uuid, on_lists, uuid_of, eq_on_lists, transfer, first, update_rows,
}
use novelhub.Prisma.Rows.{insert_row-new}
use novelhub.Schema.{
  Action, Book, Chapter, ChapterUnlock, CoinTransaction, User, coins, chapter_unlock, unlock_clash,
  coin_txn_clash, has_id, is_live, Db,
}
use novelhub.Catalog.{find_chapter, find_unlock, is_unlock_of, has_active_subscription}
use novelhub.Ledger.{HaveUniqueIds}
use novelhub.Ledger.Sound.{increment}
use novelhub.Coins.{adjust_balance, AdjustResult}
use novelhub.Coins.Granted.{txn_is_new}
use novelhub.Coins.Inserted.{adjusted_by_insert, written, stored, txn_row, adjust_balance_lem}
use novelhub.Unlocks.{
  response, create_unlock, coin_failure, spend_and_unlock, unlock_by_coins, unlock_found,
  unlock_new, unlock_from, unlock_chapter,
}

-- The row of an unlock by coins.
abbrev pub unlock_row : Uuid → Ident → Ident → ℕ → Db → ChapterUnlock
unlock_row uuid user_id chapter_id now db = record {
  id = uuid ChapterUnlock (λ u. u.id) db.unlocks;
  user_id = user_id;
  chapter_id = chapter_id;
  method = coins;
  unlocked_at = now;
}

-- The database after a coin unlock: the cost is taken, and one audit row and one unlock are added.
abbrev pub charged : Uuid → Ident → Ident → ℤ → ℕ → User → Db → Db
charged uuid user_id chapter_id cost now u db = record db {
  users = update_rows (has_id user_id) (increment (neg cost)) db.users;
  coin_txns =
      db.coin_txns
      ++ txn_row uuid user_id (neg cost) chapter_unlock (some chapter_id) now db
          (u.coin_balance +ℤ neg cost)
        ∷ [];
  unlocks = db.unlocks ++ unlock_row uuid user_id chapter_id now db ∷ [];
}

unlock_is_new :
    (u : ChapterUnlock) (unlocks : List ChapterUnlock)
    → All (λ v. v.id ≢ u.id) unlocks
    → first (is_unlock_of u.user_id u.chapter_id) unlocks ≡ none
    → All (λ v. unlock_clash u v ≡ false) unlocks
unlock_is_new u [] h e = tt
unlock_is_new u (v ∷ unlocks) h e =
    (ground (arith, h.0), unlock_is_new u unlocks h.1 (ground arith))

module _ (uuid : Uuid) (user_id : Ident) (now : ℕ) (db : Db) (u : User)
    (unique : HaveUniqueIds db.users) (e : first (has_id user_id) db.users ≡ some u)
    (l : is_live u ≡ true) where
  module _ (chapter_id : Ident) (cost : ℤ) (p : pos 0 <ℤ cost) where
    abbrev pay : Action AdjustResult
    pay = adjust_balance (on_lists uuid) user_id (neg cost) chapter_unlock (some chapter_id) now

    abbrev then_unlock : AdjustResult → Action ChapterUnlock
    then_unlock _ = create_unlock (on_lists uuid) user_id chapter_id coins now

    adjust_short :
        ltb_ℤ u.coin_balance cost ≡ true
        → adjusted_by_insert uuid user_id
            (neg cost)
            chapter_unlock
            (some chapter_id)
            now
            db
            (some u)
          ≡ (err (insufficient_balance cost u.coin_balance), db)
    adjust_short s =
        let (z, n) = neg_of_pos cost p in
        rw (l, z, n, neg-neg cost, ltb-leb_ℤ u.coin_balance cost s) refl

    adjust_covered :
        leb_ℤ cost u.coin_balance ≡ true
        → adjusted_by_insert uuid user_id
            (neg cost)
            chapter_unlock
            (some chapter_id)
            now
            db
            (some u)
          ≡ written uuid user_id
              (neg cost)
              chapter_unlock
              (some chapter_id)
              now
              db
              (u.coin_balance +ℤ neg cost)
    adjust_covered c = let (z, n) = neg_of_pos cost p in rw (l, z, n, neg-neg cost, c) refl

    spend_short :
        ltb_ℤ u.coin_balance cost ≡ true
        → spend_and_unlock (on_lists uuid) user_id chapter_id cost now db
          ≡ (err (insufficient_balance cost u.coin_balance), db)
    unfolding spend_and_unlock
    spend_short s =
        let a =
          adjust_balance_lem uuid user_id (neg cost) chapter_unlock (some chapter_id) now db
            unique in
        let b = adjust_short s in
        let c : pay db ≡ (err (insufficient_balance cost u.coin_balance), db) = a ∙ rw e b in
        bind-err pay then_unlock db c

    written_new :
        All (λ s. s.id ≢ uuid CoinTransaction (λ t. t.id) db.coin_txns) db.coin_txns
        → (after : ℤ)
        → written uuid user_id (neg cost) chapter_unlock (some chapter_id) now db after
          ≡ stored uuid user_id (neg cost) chapter_unlock (some chapter_id) now db after (
              some (
                db.coin_txns
                ++ txn_row uuid user_id (neg cost) chapter_unlock (some chapter_id) now db after
                  ∷ []))
    written_new h after =
        let t = txn_row uuid user_id (neg cost) chapter_unlock (some chapter_id) now db after in
        rw (insert_row-new coin_txn_clash t db.coin_txns (txn_is_new t db.coin_txns refl h)) refl

    spend_covered :
        leb_ℤ cost u.coin_balance ≡ true
        → All (λ s. s.id ≢ uuid CoinTransaction (λ t. t.id) db.coin_txns) db.coin_txns
        → All (λ s. s.id ≢ uuid ChapterUnlock (λ t. t.id) db.unlocks) db.unlocks
        → find_unlock (on_lists uuid) user_id chapter_id db ≡ none
        → spend_and_unlock (on_lists uuid) user_id chapter_id cost now db ≡ (
          ok (unlock_row uuid user_id chapter_id now db),
          charged uuid user_id chapter_id cost now u db,
        )
    unfolding spend_and_unlock find_unlock create_unlock
    spend_covered c tn un fn =
        let a =
          adjust_balance_lem uuid user_id (neg cost) chapter_unlock (some chapter_id) now db
            unique in
        let after = u.coin_balance +ℤ neg cost in
        let t = txn_row uuid user_id (neg cost) chapter_unlock (some chapter_id) now db after in
        let d : pay db
            ≡ stored uuid user_id (neg cost) chapter_unlock (some chapter_id) now db after
                (some (db.coin_txns ++ t ∷ [])) =
          a ∙ rw e (adjust_covered c ∙ written_new tn (u.coin_balance +ℤ neg cost)) in
        let v = unlock_row uuid user_id chapter_id now db in
        bind-ok pay then_unlock db d
        ∙ (let i = insert_row-new unlock_clash v db.unlocks (unlock_is_new v db.unlocks un fn) in
            ground (arith, i))

  module _ (c : Chapter) (b : Book) (p : pos 0 <ℤ b.coin_per_chapter) (chapter_id : Ident)
      (f : find_chapter (on_lists uuid) chapter_id db ≡ (ok (c, b), db)) (free : c.is_free ≡ false)
      (sub : has_active_subscription (on_lists uuid) user_id now db ≡ false)
      (none_yet : find_unlock (on_lists uuid) user_id chapter_id db ≡ none) where
    by_coins :
        unlock_chapter (on_lists uuid) user_id chapter_id now db
        ≡ unlock_by_coins (on_lists uuid) user_id c b now db
    unfolding unlock_chapter unlock_from unlock_new unlock_found
    by_coins = rw none_yet (
        bind-ok (find_chapter (on_lists uuid) chapter_id) (unlock_found (on_lists uuid) user_id now)
          db f
        ∙ rw (free, sub) refl)

    unlock_short :
        ltb_ℤ u.coin_balance b.coin_per_chapter ≡ true
        → unlock_chapter (on_lists uuid) user_id chapter_id now db ≡ (
          err (
              domain payment_required (
                some (record {
                  chapter_id = c.id;
                  coin_cost = b.coin_per_chapter;
                  current_balance = u.coin_balance;
                }))),
          db,
        )
    unfolding unlock_by_coins coin_failure
    unlock_short s =
        let short = spend_short c.id b.coin_per_chapter p s in by_coins ∙ ground (arith, short)

    unlock_covered :
        leb_ℤ b.coin_per_chapter u.coin_balance ≡ true
        → find_unlock (on_lists uuid) user_id c.id db ≡ none
        → All (λ s. s.id ≢ uuid CoinTransaction (λ t. t.id) db.coin_txns) db.coin_txns
        → All (λ s. s.id ≢ uuid ChapterUnlock (λ t. t.id) db.unlocks) db.unlocks
        → unlock_chapter (on_lists uuid) user_id chapter_id now db ≡ (
          ok (response (unlock_row uuid user_id c.id now db) c.book_id),
          charged uuid user_id c.id b.coin_per_chapter now u db,
        )
    unfolding unlock_by_coins
    unlock_covered s fn tn un =
        let done = spend_covered c.id b.coin_per_chapter p s tn un fn in
        by_coins ∙ ground (arith, done)

-- A live user with unique id and a balance below the cost of a chapter, which is more than zero,
-- where the chapter is stored, not free, not unlocked and not covered by a subscription: the call throws a 402 that carries the chapter,
-- the cost and the balance, and nothing has changed.
pub unlock_chapter-short :
    (prisma : Prisma) (user_id chapter_id now : Ident) (db : Db) (u : User) (c : Chapter) (b : Book)
    → IsDocumented prisma
    → HaveUniqueIds db.users
    → first (has_id user_id) db.users ≡ some u
    → is_live u ≡ true
    → c.is_free ≡ false
    → pos 0 <ℤ b.coin_per_chapter
    → ltb_ℤ u.coin_balance b.coin_per_chapter ≡ true
    → find_chapter prisma chapter_id db ≡ (ok (c, b), db)
    → has_active_subscription prisma user_id now db ≡ false
    → find_unlock prisma user_id chapter_id db ≡ none
    → unlock_chapter prisma user_id chapter_id now db ≡ (
      err (
          domain payment_required (
            some (record {
              chapter_id = c.id;
              coin_cost = b.coin_per_chapter;
              current_balance = u.coin_balance;
            }))),
      db,
    )
unlock_chapter-short prisma user_id chapter_id now db u c b doc h e l free p s =
    rw (eq_on_lists prisma doc) λ f sub fn.
      unlock_short (uuid_of prisma) user_id now db u h e l c b p chapter_id f free sub fn s

-- A live user with unique id and a balance that covers the cost of a chapter, which is more than
-- zero, where the chapter is stored, not free, not unlocked and not covered by a subscription: the
-- call returns the new unlock, the user's balance has gone down by exactly the cost, one audit row
-- that states the new balance and one unlock row are appended, and nothing else has changed.
pub unlock_chapter-covered :
    (prisma : Prisma) (user_id now : Ident) (db : Db) (u : User) (c : Chapter) (b : Book)
    → IsDocumented prisma
    → HaveUniqueIds db.users
    → first (has_id user_id) db.users ≡ some u
    → is_live u ≡ true
    → c.is_free ≡ false
    → pos 0 <ℤ b.coin_per_chapter
    → leb_ℤ b.coin_per_chapter u.coin_balance ≡ true
    → find_chapter prisma c.id db ≡ (ok (c, b), db)
    → has_active_subscription prisma user_id now db ≡ false
    → find_unlock prisma user_id c.id db ≡ none
    → unlock_chapter prisma user_id c.id now db ≡ (
      ok (response (unlock_row (uuid_of prisma) user_id c.id now db) c.book_id),
      charged (uuid_of prisma) user_id c.id b.coin_per_chapter now u db,
    )
unlock_chapter-covered prisma user_id now db u c b doc h e l free p s f sub fn =
    transfer
      (λ q.
        find_chapter q c.id db ≡ (ok (c, b), db)
        → has_active_subscription q user_id now db ≡ false
        → find_unlock q user_id c.id db ≡ none
        → unlock_chapter q user_id c.id now db ≡ (
          ok (response (unlock_row (uuid_of prisma) user_id c.id now db) c.book_id),
          charged (uuid_of prisma) user_id c.id b.coin_per_chapter now u db,
        ))
      prisma doc
      (λ f sub fn.
        unlock_covered (uuid_of prisma) user_id now db u h e l c b p c.id f free sub fn s fn
          (doc.uuid_is_new _ db.coin_txns) (doc.uuid_is_new _ db.unlocks))
      f sub fn
