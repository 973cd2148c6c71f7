-- ===== src/Checkin/Sound.antt =====
-- checkin.service.ts and the coin ledger.
use novelhub.Prelude.{ℕ, arith}
use novelhub.Prelude.Int.{ℤ}
use novelhub.Action.{Ident, Error, unique_violation}
use novelhub.Prisma.{Uuid, on_lists}
use novelhub.Ledger.{IsSound}
use novelhub.Ledger.Keeps.{Keeps, KeepsIfOk, keeps_rules, ok_rules, untouched-Keeps}
use novelhub.Coins.Sound.{adjust_balance-KeepsIfOk}
use novelhub.Checkin.{create_checkin, award, claim_body, claim_failure, claim}

module _ (uuid : Uuid) where
  create_checkin-Keeps :
      (user_id : Ident) (today streak : ℕ) (reward : ℤ)
      → Keeps IsSound (create_checkin (on_lists uuid) user_id today streak reward)
  unfolding create_checkin
  create_checkin-Keeps user_id today streak reward = untouched-Keeps _ (λ db. ground arith)

  award_ok :
      (user_id : Ident) (now streak : ℕ) (reward : ℤ)
      → KeepsIfOk IsSound (award (on_lists uuid) user_id now streak reward)
  unfolding award
  award_ok user_id now streak reward =
      search (ok_rules, keeps_rules, adjust_balance-KeepsIfOk, create_checkin-Keeps)

  claim_body_ok :
      (user_id : Ident) (now : ℕ) → KeepsIfOk IsSound (claim_body (on_lists uuid) user_id now)
  unfolding claim_body
  claim_body_ok user_id now = search (ok_rules, keeps_rules, award_ok)

  claim_failure-Keeps : (e : Error) → Keeps IsSound (claim_failure (on_lists uuid) e)
  unfolding claim_failure
  claim_failure-Keeps unique_violation = record { at = λ s h. h }
  claim_failure-Keeps e = record { at = λ s h. h }

  pub claim-Keeps : (user_id : Ident) (now : ℕ) → Keeps IsSound (claim (on_lists uuid) user_id now)
  unfolding claim
  claim-Keeps user_id now = search (keeps_rules, claim_body_ok, claim_failure-Keeps)
