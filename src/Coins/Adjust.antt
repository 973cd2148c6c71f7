-- ===== src/Coins/Adjust.antt =====
-- `adjustBalance` of coins.service.ts as one table of cases over the user that is stored.
use novelhub.Prelude.{
  ℕ, Bool, true, false, Option, none, some, is_some, List, [], ◌∷◌, ◌++◌, All, ◌==◌, ◌≡◌, ◌≢◌, ◌∙◌,
  refl, arith, ◌&&◌, not, if◌then◌else◌,
}
use novelhub.Prelude.Int.{ℤ, pos, ◌+ℤ◌, neg, leb_ℤ, ltb_ℤ, is_zero}
use novelhub.Action.{
  Ident, Result, ok, err, domain, not_found, insufficient_balance, unique_violation,
}
use novelhub.Prisma.{Prisma, IsDocumented, Uuid, uuid_of, transfer, first, insert_row}
use novelhub.Schema.{
  User, CoinTransaction, CoinTxnType, coin_txn_clash, is_push_reward, Db, has_id, is_live,
}
use novelhub.Ledger.{HaveUniqueIds}
use novelhub.Coins.{AdjustResult, adjust_balance}
use novelhub.Coins.Inserted.{txn_row, moved, written, adjusted_by_insert, adjust_balance_lem}

clash_found :
    (t : CoinTransaction) (txns : List CoinTransaction)
    → All (λ s. s.id ≢ t.id) txns
    → is_some (first (coin_txn_clash t) txns) ≡ (
        is_push_reward t.type
        && is_some (first (λ s. t.user_id == s.user_id && is_push_reward s.type) txns))
clash_found t [] h = ground arith
clash_found t (s ∷ txns) h = let rest = clash_found t txns h.1 in ground (arith, h.0, rest)

insert_row-clash_found :
    (t : CoinTransaction) (txns : List CoinTransaction) (found : Bool)
    → is_some (first (coin_txn_clash t) txns) ≡ found
    → insert_row coin_txn_clash t txns ≡ (if found then none else some (txns ++ t ∷ []))
insert_row-clash_found t txns true e = ground (arith, e)
insert_row-clash_found t txns false e = ground (arith, e)

module _ (uuid : Uuid) (user_id : Ident) (amount : ℤ) (type : CoinTxnType)
    (related_id : Option Ident) (now : ℕ) where
  -- A second reward for push messages of one user.
  abbrev pub is_second_reward : Db → Bool
  is_second_reward db =
      is_push_reward type
      && is_some (first (λ s. user_id == s.user_id && is_push_reward s.type) db.coin_txns)

  -- What is left where the audit row is refused, and where it is added.
  abbrev pub moved_or_added : Db → ℤ → Bool → Result AdjustResult × Db
  moved_or_added db after true =
      (err unique_violation, moved uuid user_id amount type related_id now db)
  moved_or_added db after false =
      let t = txn_row uuid user_id amount type related_id now db after in
      (
        ok (record { balance = after; transaction_id = t.id }),
        record (moved uuid user_id amount type related_id now db) {
          coin_txns = db.coin_txns ++ t ∷ [];
        },
      )

  abbrev pub adjusted : Db → Option User → Result AdjustResult × Db
  adjusted db none = (err (domain not_found none), db)
  adjusted db (some u) =
      if not (is_live u)
      then (err (domain not_found none), db)
      else if is_zero amount
      then (ok (record { balance = u.coin_balance; transaction_id = 0 }), db)
      else if ltb_ℤ amount (pos 0) && not (leb_ℤ (neg amount) u.coin_balance)
      then (err (insufficient_balance (neg amount) u.coin_balance), db)
      else moved_or_added db (u.coin_balance +ℤ amount) (is_second_reward db)

  written_found :
      (db : Db) (after : ℤ) (found : Bool)
      → insert_row coin_txn_clash
          (txn_row uuid user_id amount type related_id now db after)
          db.coin_txns
        ≡ (if found
            then none
            else some
                (db.coin_txns ++ txn_row uuid user_id amount type related_id now db after ∷ []))
      → written uuid user_id amount type related_id now db after ≡ moved_or_added db after found
  written_found db after true e = rw (written, e) refl
  written_found db after false e = rw (written, e) refl

  written_cases :
      (db : Db) (after : ℤ)
      → All (λ s. s.id ≢ uuid CoinTransaction (λ t. t.id) db.coin_txns) db.coin_txns
      → written uuid user_id amount type related_id now db after
        ≡ moved_or_added db after (is_second_reward db)
  written_cases db after new =
      let t = txn_row uuid user_id amount type related_id now db after in
      written_found db after (is_second_reward db) (
        insert_row-clash_found t db.coin_txns (is_second_reward db)
          (clash_found t db.coin_txns new))

  adjusted_cases :
      (db : Db) (found : Option User)
      → All (λ s. s.id ≢ uuid CoinTransaction (λ t. t.id) db.coin_txns) db.coin_txns
      → adjusted_by_insert uuid user_id amount type related_id now db found ≡ adjusted db found
  adjusted_cases db none new = refl
  adjusted_cases db (some u) new = rw (written_cases db (u.coin_balance +ℤ amount) new) refl

-- Where ids of users are unique, `adjustBalance` does exactly what the table `adjusted` says: 404
-- and no change for a user who is missing or deleted; the balance and no change for an amount of
-- zero; an `InsufficientBalanceError` and no change for a debit of more than the balance; for a
-- reward for push messages where the user has one, a unique violation, and the balance has moved
-- nevertheless, which is for the transaction of the caller to undo; and otherwise success, with the
-- new balance and one more audit row that states it.
pub adjust_balance-adjusted :
    (prisma : Prisma) (user_id : Ident) (amount : ℤ) (type : CoinTxnType)
    (related_id : Option Ident) (now : ℕ) (db : Db)
    → IsDocumented prisma
    → HaveUniqueIds db.users
    → adjust_balance prisma user_id amount type related_id now db
      ≡ adjusted
          (uuid_of prisma)
          user_id
          amount
          type
          related_id
          now
          db
          (first (has_id user_id) db.users)
adjust_balance-adjusted prisma user_id amount type related_id now db doc h =
    transfer
      (λ q.
        adjust_balance q user_id amount type related_id now db
        ≡ adjusted (uuid_of prisma) user_id amount type related_id now db
            (first (has_id user_id) db.users))
      prisma doc
      (adjust_balance_lem (uuid_of prisma) user_id amount type related_id now db h
        ∙ adjusted_cases (uuid_of prisma) user_id amount type related_id now db
            (first (has_id user_id) db.users) (doc.uuid_is_new _ db.coin_txns))
