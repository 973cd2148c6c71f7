-- ===== src/Coins/Frame.antt =====
-- What `adjustBalance` of coins.service.ts writes.
use novelhub.Prelude.{ℕ, Bool, Option, none, some, List, ◌≡◌, arith}
use novelhub.Prelude.Int.{ℤ}
use novelhub.Action.{Ident}
use novelhub.Prisma.{Uuid, on_lists}
use novelhub.Schema.{User, CoinTransaction, CoinTxnType, Db}
use novelhub.Ledger.Keeps.{Keeps, keeps_rules}
use novelhub.Coins.{
  live_or_not_found, update_users, create_coin_txn, spend, grant, record_txn, adjust_balance,
}

-- `P` reads neither users nor audit rows.
module _ (P : Db → Type 0)
    (frame : (db : Db) (users : List User) (txns : List CoinTransaction)
      → P db
      → P (record db { users = users; coin_txns = txns }))
    (uuid : Uuid) where
  live_frame : (o : Option User) → Keeps P (live_or_not_found o)
  live_frame none = search keeps_rules
  live_frame (some u) = search keeps_rules

  users_frame : (w : User → Bool) (f : User → User) → Keeps P (update_users (on_lists uuid) w f)
  unfolding update_users
  users_frame w f = record { at = λ db p. frame db _ db.coin_txns p }

  txn_state :
      (t : CoinTransaction) (db : Db)
      → (create_coin_txn (on_lists uuid) t db).1
        ≡ record db { coin_txns = (create_coin_txn (on_lists uuid) t db).1.coin_txns }
  unfolding create_coin_txn
  txn_state t db = ground arith

  txn_frame : (t : CoinTransaction) → Keeps P (create_coin_txn (on_lists uuid) t)
  txn_frame t = record { at = λ db p. rw (txn_state t db) (frame db db.users _ p) }

  pub adjust_frame :
      (user_id : Ident) (amount : ℤ) (type : CoinTxnType) (related_id : Option Ident) (now : ℕ)
      → Keeps P (adjust_balance (on_lists uuid) user_id amount type related_id now)
  unfolding adjust_balance spend grant record_txn
  adjust_frame user_id amount type related_id now =
      search (keeps_rules, live_frame, users_frame, txn_frame) depth 16
