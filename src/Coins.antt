-- ===== src/Coins.antt =====
-- apps/api/src/modules/coins/coins.service.ts: the balance of a user and its audit rows.
pub mod Inserted
pub mod Adjust
pub mod Granted
pub mod Frame
pub mod Sound
mod Tests
use novelhub.Prelude.{
  ℕ, Bool, true, false, Option, none, some, List, leb, ◌==◌, ◌&&◌, is_none, if◌then◌else◌,
}
use novelhub.Prelude.Int.{ℤ, pos, ◌+ℤ◌, neg, leb_ℤ, ltb_ℤ, is_zero}
use novelhub.Action.{
  Ident, domain, not_found, insufficient_balance, unique_violation, ok, err, pure, throw, gets,
  or_throw, ◌>>=◌, ◌>>◌,
}
use novelhub.Prisma.{Prisma}
use novelhub.Schema.{
  Action, CoinTxnType, User, CoinTransaction, coin_txn_clash, has_id, is_live, Db,
}
use novelhub.Ledger.Sound.{increment}
use novelhub.Paging.{Paginated, skip_of}

pub record AdjustResult : Type 0 where
  pub balance : ℤ
  pub transaction_id : Ident

-- `if (!user || user.deletedAt) throw DomainError.notFound('User not found')`
abbrev pub live_or_not_found : Option User → Action User
live_or_not_found none = throw (domain not_found none)
live_or_not_found (some u) = if is_live u then pure u else throw (domain not_found none)

-- `where: { userId }`, `orderBy: { createdAt: 'desc' }`
abbrev of_user : Ident → CoinTransaction → Bool
of_user id t = t.user_id == id

abbrev newest_first : CoinTransaction → CoinTransaction → Bool
newest_first a b = leb b.created_at a.created_at

module _ (prisma : Prisma) where
  unfoldable pub update_users : (User → Bool) → (User → User) → Action ℕ
  update_users w f db =
      let (users, n) = prisma.update_many w f db.users in (ok n, record db { users = users })

  unfoldable pub create_coin_txn : CoinTransaction → Action Ident
  create_coin_txn t db = elim (prisma.create coin_txn_clash t db.coin_txns) [
    | none ↦ (err unique_violation, db)
    | some txns ↦ (ok t.id, record db { coin_txns = txns })
  ]

  -- The branch `amount < 0`, at `cost = -amount`.
  unfoldable pub spend : Ident → ℤ → ℤ → Action (Unit {0})
  unfolding update_users
  spend user_id cost amount = do
    n ←
        update_users (λ u. has_id user_id u && (is_live u && leb_ℤ cost u.coin_balance))
          (increment amount)
    if n == 0
        then (do
          user ← live_or_not_found (← gets (λ db. prisma.find_first (has_id user_id) db.users))
          throw (insufficient_balance cost user.coin_balance))
        else pure tt

  unfoldable pub grant : Ident → ℤ → Action (Unit {0})
  unfolding update_users
  grant user_id amount = do
    n ← update_users (λ u. has_id user_id u && is_live u) (increment amount)
    if n == 0 then throw (domain not_found none) else pure tt

  -- The audit row of an adjustment, written after the balance has changed.
  unfoldable pub record_txn : Ident → ℤ → CoinTxnType → Option Ident → ℕ → Action AdjustResult
  unfolding create_coin_txn
  record_txn user_id amount type related_id now = do
    user ←
        or_throw (← gets (λ db. prisma.find_first (has_id user_id) db.users))
          (domain not_found none)
    id ← gets (λ db. prisma.uuid (λ (t : CoinTransaction). t.id) db.coin_txns)
    txn_id ← create_coin_txn (record {
      id = id;
      user_id = user_id;
      amount = amount;
      type = type;
      related_id = related_id;
      balance_after = user.coin_balance;
      created_at = now;
    })
    pure (record { balance = user.coin_balance; transaction_id = txn_id })

  unfoldable pub adjust_balance : Ident → ℤ → CoinTxnType → Option Ident → ℕ → Action AdjustResult
  adjust_balance user_id amount type related_id now =
      if is_zero amount
      then (do
        user ← live_or_not_found (← gets (λ db. prisma.find_first (has_id user_id) db.users))
        pure (record { balance = user.coin_balance; transaction_id = 0 }))
      else (do
        (if ltb_ℤ amount (pos 0) then spend user_id (neg amount) amount else grant user_id amount)
        record_txn user_id amount type related_id now)

  pub get_balance : Ident → Action ℤ
  get_balance user_id = do
    user ← live_or_not_found (← gets (λ db. prisma.find_first (has_id user_id) db.users))
    pure user.coin_balance

  pub list_transactions : Ident → ℕ → ℕ → Action (Paginated CoinTransaction)
  list_transactions user_id page limit db = (
    ok (record {
      items =
          prisma.find_many (of_user user_id) newest_first (skip_of page limit) limit db.coin_txns;
      total = prisma.count (of_user user_id) db.coin_txns;
      page = page;
      limit = limit;
    }),
    db,
  )
