-- ===== src/Schema.antt =====
-- packages/db/prisma/schema.prisma: the rows of the tables, their unique constraints, and the
-- database as the tuple of its tables. Times are milliseconds since the epoch; the columns that no
-- modelled service reads or writes (`createdAt` of most tables, `updatedAt`) are left out.
use Prim.Native.String.{String}
use text.Mathlib.Text.{◌==◌ as str_eq}
use novelhub.Prelude.{ℕ, Bool, true, false, Option, some, List, ◌==◌, ◌&&◌, ◌||◌, is_none}
use novelhub.Prelude.Int.{ℤ}
use novelhub.Action.{Ident, Exec}

pub data CoinTxnType : Type 0 where
  signup_bonus chapter_unlock purchase daily_checkin push_reward admin_adjustment refund :
      CoinTxnType

pub data UnlockMethod : Type 0 where
  coins subscription : UnlockMethod

-- `other_status` is any further status that Stripe sends.
pub data SubscriptionStatus : Type 0 where
  active past_due canceled expired other_status : SubscriptionStatus

pub data OrderType : Type 0 where
  coin_purchase subscription other_type : OrderType

pub data OrderStatus : Type 0 where
  pending completed failed refunded : OrderStatus

pub record User : Type 0 where
  pub id : Ident
  pub email : String
  pub password_hash : Option String
  pub google_id : Option Ident
  pub stripe_customer_id : Option Ident
  pub coin_balance : ℤ
  pub email_verified : Bool
  pub is_admin : Bool
  pub banned_at : Option ℕ
  pub deleted_at : Option ℕ

pub record Book : Type 0 where
  pub id : Ident
  pub title : String
  pub author : String
  pub cover_url : String
  pub cover_image_key : Option String
  pub description : String
  pub category : String
  pub tags : List String
  pub status : String
  pub is_featured : Bool
  pub total_chapters : ℕ
  pub free_chapter_count : ℕ
  pub coin_per_chapter : ℤ
  pub created_at : ℕ
  pub deleted_at : Option ℕ

pub record Chapter : Type 0 where
  pub id : Ident
  pub book_id : Ident
  pub order : ℕ
  pub title : String
  pub content_url : String
  pub word_count : ℕ
  pub is_free : Bool
  pub deleted_at : Option ℕ

pub record ChapterUnlock : Type 0 where
  pub id : Ident
  pub user_id : Ident
  pub chapter_id : Ident
  pub method : UnlockMethod
  pub unlocked_at : ℕ

pub record CoinTransaction : Type 0 where
  pub id : Ident
  pub user_id : Ident
  pub amount : ℤ
  pub type : CoinTxnType
  pub related_id : Option Ident
  pub balance_after : ℤ
  pub created_at : ℕ

pub record Subscription : Type 0 where
  pub id : Ident
  pub user_id : Ident
  pub stripe_subscription_id : Ident
  pub stripe_customer_id : Ident
  pub stripe_price_id : Ident
  pub status : SubscriptionStatus
  pub current_period_start : ℕ
  pub current_period_end : ℕ
  pub cancel_at_period_end : Bool
  pub canceled_at : Option ℕ

pub record Order : Type 0 where
  pub id : Ident
  pub user_id : Ident
  pub stripe_session_id : Ident
  pub stripe_payment_intent : Option Ident
  pub type : OrderType
  pub amount : ℕ
  pub currency : String
  pub coins_granted : Option ℤ
  pub status : OrderStatus
  pub completed_at : Option ℕ

-- `checkin_date` is a day, counted from the epoch.
pub record DailyCheckin : Type 0 where
  pub id : Ident
  pub user_id : Ident
  pub checkin_date : ℕ
  pub streak_count : ℕ
  pub coins_awarded : ℤ

pub record WebhookEvent : Type 0 where
  pub id : Ident
  pub stripe_event_id : Ident
  pub event_type : ℕ

pub record ReadingProgress : Type 0 where
  pub id : Ident
  pub user_id : Option Ident
  pub book_id : Ident
  pub chapter_id : Ident
  pub scroll_position : ℕ
  pub last_read_at : ℕ
  pub updated_at : ℕ

pub record Db : Type 0 where
  pub users : List User
  pub books : List Book
  pub chapters : List Chapter
  pub unlocks : List ChapterUnlock
  pub coin_txns : List CoinTransaction
  pub subscriptions : List Subscription
  pub orders : List Order
  pub checkins : List DailyCheckin
  pub webhook_events : List WebhookEvent
  pub progress : List ReadingProgress

-- What a service method does.
abbrev pub Action : Type 0 → Type 0
Action A = Exec Db A

-- Two nullable unique columns clash where both hold the same value.
abbrev pub same_value : Option Ident → Option Ident → Bool
same_value (some a) (some b) = a == b
same_value _ _ = false

abbrev pub is_push_reward : CoinTxnType → Bool
is_push_reward push_reward = true
is_push_reward _ = false

abbrev pub has_id : Ident → User → Bool
has_id id u = u.id == id

-- `!user.deletedAt`
abbrev pub is_live : User → Bool
is_live u = is_none u.deleted_at

-- The unique constraints. `id` is one in every table.
abbrev pub user_clash : User → User → Bool
user_clash a b =
    a.id == b.id
    || str_eq a.email b.email
    || same_value a.google_id b.google_id
    || same_value a.stripe_customer_id b.stripe_customer_id

abbrev pub chapter_clash : Chapter → Chapter → Bool
chapter_clash a b = a.id == b.id || a.book_id == b.book_id && a.order == b.order

abbrev pub unlock_clash : ChapterUnlock → ChapterUnlock → Bool
unlock_clash a b = a.id == b.id || a.user_id == b.user_id && a.chapter_id == b.chapter_id

-- The partial index of the migration 20260507120000_push_reward_unique_per_user.
abbrev pub coin_txn_clash : CoinTransaction → CoinTransaction → Bool
coin_txn_clash a b =
    a.id == b.id || a.user_id == b.user_id && is_push_reward a.type && is_push_reward b.type

abbrev pub subscription_clash : Subscription → Subscription → Bool
subscription_clash a b = a.id == b.id || a.stripe_subscription_id == b.stripe_subscription_id

abbrev pub order_clash : Order → Order → Bool
order_clash a b =
    a.id == b.id
    || a.stripe_session_id == b.stripe_session_id
    || same_value a.stripe_payment_intent b.stripe_payment_intent

abbrev pub checkin_clash : DailyCheckin → DailyCheckin → Bool
checkin_clash a b = a.id == b.id || a.user_id == b.user_id && a.checkin_date == b.checkin_date

abbrev pub webhook_event_clash : WebhookEvent → WebhookEvent → Bool
webhook_event_clash a b = a.id == b.id || a.stripe_event_id == b.stripe_event_id

abbrev pub progress_clash : ReadingProgress → ReadingProgress → Bool
progress_clash a b = a.id == b.id || same_value a.user_id b.user_id && a.chapter_id == b.chapter_id
