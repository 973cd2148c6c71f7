-- ===== src/Coins/Granted.antt =====
-- `adjustBalance` of coins.service.ts for an amount that is granted.
use novelhub.Prelude.{
  ℕ, true, false, Option, some, List, [], ◌∷◌, ◌++◌, ◌≡◌, ◌≢◌, ◌∙◌, refl, arith, All,
}
use novelhub.Prelude.Int.{ℤ, pos, ◌+ℤ◌, ltb_ℤ, is_zero}
use novelhub.Action.{Ident, ok}
use novelhub.Prisma.{Uuid, on_lists, first}
use novelhub.Prisma.Rows.{insert_row-new}
use novelhub.Schema.{
  User, CoinTransaction, CoinTxnType, coin_txn_clash, is_push_reward, Db, has_id, is_live,
}
use novelhub.Ledger.{HaveUniqueIds}
use novelhub.Ledger.Updates.{first-update}
use novelhub.Ledger.Sound.{increment}
use novelhub.Coins.{AdjustResult, adjust_balance}
use novelhub.Coins.Inserted.{txn_row, moved, written, adjust_balance_lem}

-- A row that is no push reward clashes only with its own id.
pub txn_is_new :
    (t : CoinTransaction) (txns : List CoinTransaction)
    → is_push_reward t.type ≡ false
    → All (λ s. s.id ≢ t.id) txns
    → All (λ s. coin_txn_clash t s ≡ false) txns
txn_is_new t [] e h = tt
txn_is_new t (s ∷ txns) e h = (ground (arith, h.0), txn_is_new t txns e h.1)

module _ (uuid : Uuid) (user_id : Ident) (amount : ℤ) (type : CoinTxnType)
    (related_id : Option Ident) (now : ℕ) (db : Db) (u : User) where
  -- The database after the grant: the balance is raised and one audit row is added.
  abbrev pub granted : Db
  granted = record (moved uuid user_id amount type related_id now db) {
    coin_txns =
        db.coin_txns
        ++ txn_row uuid user_id amount type related_id now db (u.coin_balance +ℤ amount) ∷ [];
  }

  module _ (e : first (has_id user_id) db.users ≡ some u) where
    pub granted-user :
        first (has_id user_id) granted.users
        ≡ some (record u { coin_balance = u.coin_balance +ℤ amount })
    granted-user = first-update user_id (increment amount) db.users u (λ v. refl) e

    pub adjust_balance-granted :
        HaveUniqueIds db.users
        → is_live u ≡ true
        → is_zero amount ≡ false
        → ltb_ℤ amount (pos 0) ≡ false
        → is_push_reward type ≡ false
        → All (λ t. t.id ≢ uuid CoinTransaction (λ t. t.id) db.coin_txns) db.coin_txns
        → (r : AdjustResult) × (adjust_balance (on_lists uuid) user_id amount type related_id now db
            ≡ (ok r, granted))
    adjust_balance-granted h l z s p new =
        let after = u.coin_balance +ℤ amount in
        let t = txn_row uuid user_id amount type related_id now db after in
        let inserted =
          insert_row-new coin_txn_clash t db.coin_txns (txn_is_new t db.coin_txns p new) in
        (
          record { balance = after; transaction_id = t.id },
          adjust_balance_lem uuid user_id amount type related_id now db h
              ∙ rw e (rw (l, z, s) (rw (written, inserted) refl)),
        )
