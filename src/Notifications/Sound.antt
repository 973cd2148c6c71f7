-- ===== src/Notifications/Sound.antt =====
-- `grantBonus` of notifications.service.ts and the coin ledger.
use novelhub.Prelude.{ℕ, Bool}
use novelhub.Action.{Ident, Error, unique_violation, write_conflict}
use novelhub.Prisma.{Uuid, on_lists}
use novelhub.Ledger.{IsSound}
use novelhub.Ledger.Keeps.{Keeps, KeepsIfOk, keeps_rules, ok_rules}
use novelhub.Coins.Sound.{adjust_balance-KeepsIfOk}
use novelhub.Notifications.{grant_body, grant_failure, grant_bonus}

module _ (uuid : Uuid) where
  grant_body_ok :
      (user_id : Ident) (now : ℕ) → KeepsIfOk IsSound (grant_body (on_lists uuid) user_id now)
  unfolding grant_body
  grant_body_ok user_id now = search (ok_rules, keeps_rules, adjust_balance-KeepsIfOk) depth 8

  grant_failure-Keeps : (e : Error) → Keeps IsSound (grant_failure (on_lists uuid) e)
  unfolding grant_failure
  grant_failure-Keeps unique_violation = record { at = λ s h. h }
  grant_failure-Keeps write_conflict = record { at = λ s h. h }
  grant_failure-Keeps e = record { at = λ s h. h }

  pub grant_bonus-Keeps :
      (subscribed : Bool) (user_id : Ident) (now : ℕ)
      → Keeps IsSound (grant_bonus (on_lists uuid) subscribed user_id now)
  unfolding grant_bonus
  grant_bonus-Keeps subscribed user_id now =
      search (keeps_rules, grant_body_ok, grant_failure-Keeps) depth 8
