-- ===== src/Notifications/Once.antt =====
-- `grantBonus` of notifications.service.ts, asked for again.
use novelhub.Prelude.{ℕ, Bool, true, none, List, [], ◌∷◌, ◌++◌, ◌≡◌, ◌≢◌, arith}
use novelhub.Prelude.Int.{ℤ}
use novelhub.Action.{Ident, Error, ok, unique_violation, write_conflict, pure, ◌>>=◌}
use novelhub.Action.Gives.{
  Gives, gives-ok, Gives-of_result, Gives-if, Gives-commit, Gives-catch, Gives-bind, Gives-map,
  Gives-then-Keeps,
}
use novelhub.Prisma.{Prisma, IsDocumented, Uuid, on_lists, uuid_of, eq_on_lists, first}
use novelhub.Schema.{CoinTransaction, push_reward, Db}
use novelhub.Ledger.Keeps.{Keeps-pure}
use novelhub.Coins.{adjust_balance, AdjustResult, record_txn, create_coin_txn}
use novelhub.Notifications.{
  GrantBonusResult, granted, already_granted, no_subscription, is_reward_of, grant_body,
  grant_failure, grant_bonus, push_permission_reward_coins,
}

abbrev pub IsRewarded : Ident → List CoinTransaction → Type 0
IsRewarded user_id txns = first (is_reward_of user_id) txns ≢ none

last-IsRewarded :
    (user_id : Ident) (txns : List CoinTransaction) (t : CoinTransaction)
    → is_reward_of user_id t ≡ true
    → IsRewarded user_id (txns ++ t ∷ [])
last-IsRewarded user_id [] t h = ground arith
last-IsRewarded user_id (s ∷ txns) t h = ground (arith, last-IsRewarded user_id txns t)

abbrev IsAnswered : Ident → GrantBonusResult → Db → Type 0
IsAnswered user_id (granted _) db = IsRewarded user_id db.coin_txns
IsAnswered user_id already_granted db = Unit
IsAnswered user_id no_subscription db = Unit

module _ (uuid : Uuid) (user_id : Ident) where
  create-Gives :
      (id now : ℕ) (balance : ℤ)
      → Gives
          (λ _ db. IsRewarded user_id db.coin_txns)
          (create_coin_txn (on_lists uuid) (record {
            id = id;
            user_id = user_id;
            amount = push_permission_reward_coins;
            type = push_reward;
            related_id = none;
            balance_after = balance;
            created_at = now;
          }))
  unfolding create_coin_txn
  create-Gives id now balance = Gives-of_result _ λ db db' r e. ground (
    arith,
    last-IsRewarded user_id db.coin_txns (record {
      id = id;
      user_id = user_id;
      amount = push_permission_reward_coins;
      type = push_reward;
      related_id = none;
      balance_after = balance;
      created_at = now;
    }),
  )

  record-Gives :
      (now : ℕ)
      → Gives
          (λ _ db. IsRewarded user_id db.coin_txns)
          (record_txn (on_lists uuid) user_id push_permission_reward_coins push_reward none now)
  unfolding record_txn
  record-Gives now = search (Gives-then-Keeps, create-Gives, Keeps-pure, Gives-bind) depth 9

  adjust-Gives :
      (now : ℕ)
      → Gives
          (λ _ db. IsRewarded user_id db.coin_txns)
          (adjust_balance (on_lists uuid) user_id push_permission_reward_coins push_reward none now)
  unfolding adjust_balance
  adjust-Gives now = search (Gives-bind, record-Gives)

  pay-Gives :
      (now : ℕ)
      → Gives (IsAnswered user_id) (
          adjust_balance (on_lists uuid) user_id push_permission_reward_coins push_reward none now
          >>= λ r. pure (granted r.balance))
  pay-Gives now =
      Gives-map _ (λ (r : AdjustResult). granted r.balance) (adjust-Gives now) (λ r s h. h)

  already-Gives : Gives (IsAnswered user_id) (pure already_granted)
  already-Gives = record { at = λ s. tt }

  nothing-Gives : Gives (IsAnswered user_id) (pure no_subscription)
  nothing-Gives = record { at = λ s. tt }

  body-Gives : (now : ℕ) → Gives (IsAnswered user_id) (grant_body (on_lists uuid) user_id now)
  unfolding grant_body
  body-Gives now = search (Gives-bind, Gives-if, already-Gives, pay-Gives)

  failure-Gives : (e : Error) → Gives (IsAnswered user_id) (grant_failure (on_lists uuid) e)
  unfolding grant_failure
  failure-Gives unique_violation = record { at = λ s. tt }
  failure-Gives write_conflict = record { at = λ s. tt }
  failure-Gives e = record { at = λ s. tt }

  bonus-Gives :
      (subscribed : Bool) (now : ℕ)
      → Gives (IsAnswered user_id) (grant_bonus (on_lists uuid) subscribed user_id now)
  unfolding grant_bonus
  bonus-Gives subscribed now =
      search (Gives-if, nothing-Gives, Gives-catch, Gives-commit, body-Gives, failure-Gives)

  rewarded_once :
      (now : ℕ) (db : Db)
      → IsRewarded user_id db.coin_txns
      → grant_bonus (on_lists uuid) true user_id now db ≡ (ok already_granted, db)
  unfolding grant_bonus grant_body grant_failure
  rewarded_once now db h = ground arith

-- Once a push reward has been granted, every later request of a subscribed user is answered
-- `already_granted` and changes nothing.
pub grant_bonus-again :
    (prisma : Prisma) (subscribed : Bool) (user_id now later : Ident) (db db' : Db) (balance : ℤ)
    → IsDocumented prisma
    → grant_bonus prisma subscribed user_id now db ≡ (ok (granted balance), db')
    → grant_bonus prisma true user_id later db' ≡ (ok already_granted, db')
grant_bonus-again prisma subscribed user_id now later db db' balance doc =
    rw (eq_on_lists prisma doc) λ e. rewarded_once (uuid_of prisma) user_id later db' (
      gives-ok (grant_bonus (on_lists (uuid_of prisma)) subscribed user_id now)
        (bonus-Gives (uuid_of prisma) user_id subscribed now) e)
