-- ===== src/Checkin/Reward.antt =====
-- checkin.service.ts: the rewards of a streak, and the status page.
use novelhub.Prelude.{ℕ, ◌+◌, ◌≤◌, false, Option, none, some, ◌≡◌, refl, arith}
use novelhub.Prelude.Int.{ℤ, pos, ◌+ℤ◌}
use novelhub.Action.{Ident, ok}
use novelhub.Prisma.{Prisma, IsDocumented, Uuid, on_lists, uuid_of, eq_on_lists}
use novelhub.Schema.{DailyCheckin, Db}
use novelhub.Checkin.{
  CheckinClaim, award, claim_body, claim_failure, claim, utc_day, find_latest, is_claimed_on,
  next_streak, reward_for_streak, status_of, get_status, CheckinStatus,
}

-- Any seven days in a row of one streak bring 75 coins in all.
reward_for_streak-week :
    (n : ℕ)
    → 1 ≤ n
    → reward_for_streak n
        +ℤ reward_for_streak (n + 1)
        +ℤ reward_for_streak (n + 2)
        +ℤ reward_for_streak (n + 3)
        +ℤ reward_for_streak (n + 4)
        +ℤ reward_for_streak (n + 5)
        +ℤ reward_for_streak (n + 6)
      ≡ pos 75
unfolding reward_for_streak ◌+ℤ◌
reward_for_streak-week n h = ground arith

module _ (uuid : Uuid) (user_id : Ident) (now : ℕ) where
  award_answer :
      (streak : ℕ) (reward : ℤ) (db db' : Db) (r : CheckinClaim)
      → award (on_lists uuid) user_id now streak reward db ≡ (ok r, db')
      → (r.streak_count ≡ streak) × (r.coins_awarded ≡ reward)
  unfolding award
  award_answer streak reward db db' r e = ground arith

  claim_answer :
      (db db' : Db) (r : CheckinClaim)
      → claim (on_lists uuid) user_id now db ≡ (ok r, db')
      → (is_claimed_on (utc_day now) (find_latest (on_lists uuid) user_id db) ≡ false)
        × (r.streak_count ≡ next_streak (utc_day now) (find_latest (on_lists uuid) user_id db))
        × (r.coins_awarded ≡ reward_for_streak r.streak_count)
  unfolding claim claim_body claim_failure
  claim_answer db db' r e =
      let streak = next_streak (utc_day now) (find_latest (on_lists uuid) user_id db) in
      let a = award_answer streak (reward_for_streak streak) db db' r in ground (arith, a)

  status_agrees :
      (today : ℕ) (o : Option DailyCheckin)
      → ((latest : DailyCheckin) → o ≡ some latest → latest.checkin_date ≤ today)
      → is_claimed_on today o ≡ false
      → (status_of today o).claimed_today ≡ false
        × (status_of today o).today_reward ≡ reward_for_streak (next_streak today o)
        × (status_of today o).next_reward ≡ reward_for_streak (next_streak today o)
  unfolding status_of next_streak
  status_agrees today none h c = ground arith
  status_agrees today (some latest) h c = let past = h latest refl in ground (arith, past)

  promised_on_lists :
      (db db' : Db) (r : CheckinClaim)
      → ((latest : DailyCheckin)
          → find_latest (on_lists uuid) user_id db ≡ some latest
          → latest.checkin_date ≤ utc_day now)
      → claim (on_lists uuid) user_id now db ≡ (ok r, db')
      → (s : CheckinStatus) × (get_status (on_lists uuid) user_id now db ≡ (ok s, db))
        × (s.claimed_today ≡ false)
        × (s.today_reward ≡ r.coins_awarded)
        × (s.next_reward ≡ r.coins_awarded)
  unfolding get_status
  promised_on_lists db db' r h e =
      let (c, streak, coins) = claim_answer db db' r e in
      let (a, b, d) = status_agrees (utc_day now) (find_latest (on_lists uuid) user_id db) h c in
      (status_of (utc_day now) (find_latest (on_lists uuid) user_id db), refl, a, cc, cc)

-- Where no stored check-in of the user lies in the future and a claim returns, the status page
-- just before it says that today is open and promises exactly the coins that the claim awards.
pub claim-promised :
    (prisma : Prisma) (user_id : Ident) (now : ℕ) (db db' : Db) (r : CheckinClaim)
    → IsDocumented prisma
    → ((latest : DailyCheckin)
        → find_latest prisma user_id db ≡ some latest
        → latest.checkin_date ≤ utc_day now)
    → claim prisma user_id now db ≡ (ok r, db')
    → (s : CheckinStatus) × (get_status prisma user_id now db ≡ (ok s, db))
      × (s.claimed_today ≡ false)
      × (s.today_reward ≡ r.coins_awarded)
      × (s.next_reward ≡ r.coins_awarded)
claim-promised prisma user_id now db db' r doc =
    rw (eq_on_lists prisma doc) (promised_on_lists (uuid_of prisma) user_id now db db' r)
