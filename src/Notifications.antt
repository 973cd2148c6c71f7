-- ===== src/Notifications.antt =====
-- apps/api/src/modules/notifications/notifications.service.ts: the one-time push reward, and who
-- gets a reminder. OneSignal's answers are arguments.
pub mod Sound
pub mod Once
pub mod Reminded
mod Tests
use Prim.Native.String.{String}
use novelhub.Prelude.{
  ℕ, ◌+◌, ◌-◌, ◌*◌, Bool, true, false, Option, none, some, List, [], ◌∷◌, map, ltb, leb, ◌==◌, ◌&&◌,
  ◌||◌, is_some, not, if◌then◌else◌,
}
use novelhub.Prelude.Int.{ℤ, pos}
use novelhub.Action.{
  Ident, Error, unique_violation, write_conflict, ok, pure, throw, gets, catch, ◌>>=◌, ◌>>◌,
}
use novelhub.Prisma.{Prisma}
use novelhub.Schema.{
  Action, Book, Chapter, CoinTransaction, ReadingProgress, Subscription, SubscriptionStatus, active,
  push_reward, is_push_reward, Db,
}
use novelhub.Catalog.{is_book, is_chapter}
use novelhub.Coins.{adjust_balance}

-- `PUSH_PERMISSION_REWARD_COINS` of packages/shared/src/index.ts.
abbrev pub push_permission_reward_coins : ℤ
push_permission_reward_coins = pos 10

pub data GrantBonusResult : Type 0 where
  granted : ℤ → GrantBonusResult
  already_granted no_subscription : GrantBonusResult

abbrev pub is_reward_of : Ident → CoinTransaction → Bool
is_reward_of user_id t = t.user_id == user_id && is_push_reward t.type

pub record ReEngagementTarget : Type 0 where
  pub user_id : Ident
  pub book_id : Ident
  pub book_title : String
  pub chapter_number : ℕ

abbrev pub hour_ms : ℕ
hour_ms = 3600000

abbrev pub day_ms : ℕ
day_ms = 86400000

-- `{ userId: { not: null }, lastReadAt: { gte: lower, lte: upper } }`
abbrev pub read_between : ℕ → ℕ → ReadingProgress → Bool
read_between lower upper p =
    is_some p.user_id && (leb lower p.last_read_at && leb p.last_read_at upper)

abbrev pub newest_read_first : ReadingProgress → ReadingProgress → Bool
newest_read_first a b = leb b.last_read_at a.last_read_at

abbrev pub is_user : Ident → Option Ident → Bool
is_user user_id none = false
is_user user_id (some u) = u == user_id

-- `{ userId, lastReadAt: { gt: … } }`
abbrev pub read_after : Ident → ℕ → ReadingProgress → Bool
read_after user_id time p = is_user user_id p.user_id && ltb time p.last_read_at

abbrev pub contains : List Ident → Ident → Bool
contains [] id = false
contains (x ∷ xs) id = x == id || contains xs id

-- `{ status: 'active', currentPeriodEnd: { gte, lte }, cancelAtPeriodEnd: false }`
abbrev pub is_active : SubscriptionStatus → Bool
is_active active = true
is_active _ = false

abbrev pub renews_between : ℕ → ℕ → Subscription → Bool
renews_between lower upper s =
    is_active s.status
    && (leb lower s.current_period_end
        && (leb s.current_period_end upper && not s.cancel_at_period_end))

module _ (prisma : Prisma) where
  -- The transaction's body.
  grant_body : Ident → ℕ → Action GrantBonusResult
  grant_body user_id now = do
    existing ← gets (λ db. prisma.find_first (is_reward_of user_id) db.coin_txns)
    if is_some existing then pure already_granted else (do
      adjusted ← adjust_balance prisma user_id push_permission_reward_coins push_reward none now
      pure (granted adjusted.balance))

  -- A unique violation and a write conflict both mean that another grant came first.
  grant_failure : Error → Action GrantBonusResult
  grant_failure unique_violation = pure already_granted
  grant_failure write_conflict = pure already_granted
  grant_failure e = throw e

  pub grant_bonus : Bool → Ident → ℕ → Action GrantBonusResult
  grant_bonus has_push_subscription user_id now =
      if not has_push_subscription
      then pure no_subscription
      else catch (prisma.transaction (grant_body user_id now)) grant_failure

  book_title : Ident → Db → String
  book_title id db = elim (prisma.find_first (is_book id) db.books) [ none ↦ "" | some b ↦ b.title ]

  chapter_order : Ident → Db → ℕ
  chapter_order id db = elim (prisma.find_first (is_chapter id) db.chapters) [
    | none ↦ 0
    | some c ↦ c.order
  ]

  target_of : Ident → ReadingProgress → Db → ReEngagementTarget
  target_of user_id p db = record {
    user_id = user_id;
    book_id = p.book_id;
    book_title = book_title p.book_id db;
    chapter_number = chapter_order p.chapter_id db;
  }

  -- The loop of `findUsersForReEngagement`, over the rows that are left and the users seen.
  pub collect_targets : Db → List Ident → List ReadingProgress → List ReEngagementTarget
  collect_targets db seen [] = []
  collect_targets db seen (p ∷ rows) = elim p.user_id [
    | none ↦ collect_targets db seen rows
    | some user_id ↦
        if contains seen user_id
        then collect_targets db seen rows
        else (let rest = collect_targets db (user_id ∷ seen) rows in
            if is_some (prisma.find_first (read_after user_id p.last_read_at) db.progress)
            then rest
            else target_of user_id p db ∷ rest)
  ]

  -- No limit is given: as many rows as there are.
  pub find_users_for_re_engagement : ℕ → Db → List ReEngagementTarget
  find_users_for_re_engagement now db =
      let window = read_between (now - 30 * hour_ms) (now - 24 * hour_ms) in
      collect_targets db []
        (prisma.find_many window newest_read_first 0 (prisma.count window db.progress) db.progress)

  pub find_users_for_renewal : ℕ → Db → List Ident
  find_users_for_renewal now db =
      map (λ (s : Subscription). s.user_id)
        (prisma.find_all (renews_between (now + 3 * day_ms) (now + 4 * day_ms)) db.subscriptions)
