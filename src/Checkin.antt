-- ===== src/Checkin.antt =====
-- apps/api/src/modules/checkin/checkin.service.ts: the daily check-in, its streak and its reward.
-- A date at midnight UTC is its day number, so a day key is that number too.
pub mod Sound
pub mod Reward
pub mod Once
mod Tests
use novelhub.Prelude.{
  ℕ, ◌+◌, ◌-◌, ◌/◌, ◌%◌, Bool, true, false, Option, none, some, List, head?, ltb, leb, ◌==◌, ◌&&◌,
  if◌then◌else◌,
}
use novelhub.Prelude.Int.{ℤ, pos}
use novelhub.Action.{
  Ident, Error, domain, conflict, unique_violation, ok, err, pure, throw, gets, catch, throw_if,
  ◌>>=◌, ◌>>◌,
}
use novelhub.Prisma.{Prisma}
use novelhub.Schema.{Action, DailyCheckin, daily_checkin, checkin_clash, Db}
use novelhub.Coins.{adjust_balance}

pub record CheckinStatus : Type 0 where
  pub today : ℕ
  pub claimed_today : Bool
  pub streak_count : ℕ
  pub next_reward : ℤ
  pub today_reward : ℤ

pub record CheckinClaim : Type 0 where
  pub streak_count : ℕ
  pub coins_awarded : ℤ
  pub new_balance : ℤ

-- `REWARD_BY_DAY`; the days are 1 to 7.
abbrev pub reward_by_day : ℕ → ℤ
reward_by_day day = if leb day 3 then pos 5 else if leb day 6 then pos 10 else pos 30

-- Streaks count from 1.
unfoldable pub reward_for_streak : ℕ → ℤ
reward_for_streak streak_count = reward_by_day ((streak_count - 1) % 7 + 1)

abbrev pub ms_per_day : ℕ
ms_per_day = 86400000

-- `today` of `getUtcDayWindow`; yesterday is the day whose successor is today.
abbrev pub utc_day : ℕ → ℕ
utc_day now = now / ms_per_day

abbrev pub is_checkin_of : Ident → DailyCheckin → Bool
is_checkin_of user_id c = c.user_id == user_id

abbrev pub latest_first : DailyCheckin → DailyCheckin → Bool
latest_first a b = leb b.checkin_date a.checkin_date

abbrev pub is_yesterday : ℕ → DailyCheckin → Bool
is_yesterday today c = c.checkin_date + 1 == today

-- The streak that a claim on `today` continues or starts.
unfoldable pub next_streak : ℕ → Option DailyCheckin → ℕ
next_streak today none = 1
next_streak today (some latest) = if is_yesterday today latest then latest.streak_count + 1 else 1

abbrev pub is_claimed_on : ℕ → Option DailyCheckin → Bool
is_claimed_on today none = false
is_claimed_on today (some latest) = latest.checkin_date == today

abbrev build_status : ℕ → Bool → ℕ → ℤ → ℤ → CheckinStatus
build_status today claimed streak next_reward today_reward = record {
  today = today;
  claimed_today = claimed;
  streak_count = streak;
  next_reward = next_reward;
  today_reward = today_reward;
}

-- The branches of `getStatus`, in their order.
unfoldable pub status_of : ℕ → Option DailyCheckin → CheckinStatus
status_of today none = build_status today false 0 (reward_for_streak 1) (reward_for_streak 1)
status_of today (some latest) =
    if latest.checkin_date == today
    then build_status today true latest.streak_count (reward_for_streak (latest.streak_count + 1))
        latest.coins_awarded
    else if is_yesterday today latest
    then (let reward = reward_for_streak (latest.streak_count + 1) in
        build_status today false latest.streak_count reward reward)
    else if ltb (latest.checkin_date + 1) today
    then build_status today false 0 (reward_for_streak 1) (reward_for_streak 1)
    else (let reward =
          if ltb latest.checkin_date today then reward_for_streak 1 else latest.coins_awarded in
        build_status today false 0 reward reward)

module _ (prisma : Prisma) where
  unfoldable pub find_latest : Ident → Db → Option DailyCheckin
  find_latest user_id db =
      head? (prisma.find_many (is_checkin_of user_id) latest_first 0 1 db.checkins)

  pub get_status : Ident → ℕ → Action CheckinStatus
  get_status user_id now db = (ok (status_of (utc_day now) (find_latest user_id db)), db)

  -- `tx.dailyCheckin.create`
  pub create_checkin : Ident → ℕ → ℕ → ℤ → Action (Unit {0})
  create_checkin user_id today streak reward db =
      elim (prisma.create checkin_clash
        (record {
          id = prisma.uuid (λ (c : DailyCheckin). c.id) db.checkins;
          user_id = user_id;
          checkin_date = today;
          streak_count = streak;
          coins_awarded = reward;
        })
        db.checkins) [
          | none ↦ (err unique_violation, db)
          | some checkins ↦ (ok tt, record db { checkins = checkins })
        ]

  -- The body of the transaction of `claim`, at the latest check-in.
  pub award : Ident → ℕ → ℕ → ℤ → Action CheckinClaim
  award user_id now streak reward = do
    create_checkin user_id (utc_day now) streak reward
    adjusted ← adjust_balance prisma user_id reward daily_checkin none now
    pure (record { streak_count = streak; coins_awarded = reward; new_balance = adjusted.balance })

  pub claim_body : Ident → ℕ → Action CheckinClaim
  claim_body user_id now = do
    latest ← gets (find_latest user_id)
    throw_if (is_claimed_on (utc_day now) latest) (domain conflict none)
    let streak = next_streak (utc_day now) latest
    award user_id now streak (reward_for_streak streak)

  -- `P2002` becomes the same 409.
  pub claim_failure : Error → Action CheckinClaim
  claim_failure unique_violation = throw (domain conflict none)
  claim_failure e = throw e

  pub claim : Ident → ℕ → Action CheckinClaim
  claim user_id now = catch (prisma.transaction (claim_body user_id now)) claim_failure
