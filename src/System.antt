-- ===== src/System.antt =====
-- The API as a whole: the requests of apps/api/src/modules that change what readers own, in any
-- order. Each request runs to its end before the next one begins.
pub mod Reach
mod Tests
use Prim.Native.String.{String}
use novelhub.Prelude.{ℕ, Bool, Option}
use novelhub.Action.{Ident}
use novelhub.Prisma.{Prisma}
use novelhub.Schema.{Db}
use novelhub.Unlocks.{unlock_chapter}
use novelhub.Checkin.{claim}
use novelhub.Notifications.{grant_bonus}
use novelhub.Payments.Events.{Event, PurchaseEventPublisher}
use novelhub.Payments.Packages.{CoinPackageId, SubscriptionPlanId}
use novelhub.Payments.Stripe.{PaymentsDeps}
use novelhub.Payments.Checkout.{create_coin_checkout, create_subscription_checkout}
use novelhub.Session.{ban_user, unban_user}
use novelhub.Progress.{Number, save}
use novelhub.Payments.Webhook.{handle_event}
use novelhub.Auth.{Deps, register}
use novelhub.Auth.SignIn.{login_with_google}
use novelhub.Auth.Account.{delete_account, reset_password}

pub data Request : Type 0 where
  unlock_request : Ident → Ident → ℕ → Request
  claim_request : Ident → ℕ → Request
  bonus_request : Bool → Ident → ℕ → Request
  -- the body that Stripe posts, and its signature
  stripe_request : Ident → Option Ident → ℕ → Request
  register_request : String → String → ℕ → Request
  google_request : Ident → ℕ → Request
  delete_request : Ident → Option String → ℕ → Request
  reset_request : Ident → String → Request
  checkout_request : Ident → CoinPackageId → Option String → Request
  subscribe_request : Ident → SubscriptionPlanId → Option String → Request
  progress_request : Ident → Ident → Number → ℕ → Request
  ban_request : Ident → ℕ → Request
  unban_request : Ident → Request

-- What the API is started with.
pub record Config : Type 0 where
  pub deps : Deps
  pub payments : PaymentsDeps
  pub publisher : PurchaseEventPublisher
  pub to_lower_case : String → String
  pub construct_event : Ident → Ident → Ident → Option Event
  pub webhook_secret : Option Ident

module _ (prisma : Prisma) (config : Config) where
  -- The database after a request, whatever the answer is.
  unfoldable pub serve : Request → Db → Db
  serve (unlock_request user_id chapter_id now) db =
      (unlock_chapter prisma user_id chapter_id now db).1
  serve (claim_request user_id now) db = (claim prisma user_id now db).1
  serve (bonus_request subscribed user_id now) db = (grant_bonus prisma subscribed user_id now db).1
  serve (stripe_request body signature now) db =
      (handle_event prisma config.construct_event config.publisher config.to_lower_case
        config.webhook_secret body signature now db).1
  serve (register_request email password now) db =
      (register prisma config.deps email password now db).1
  serve (google_request token now) db = (login_with_google prisma config.deps token now db).1
  serve (delete_request user_id password now) db =
      (delete_account prisma config.deps user_id password now db).1
  serve (reset_request token password) db = (reset_password prisma config.deps token password db).1
  serve (checkout_request user_id package_id return_url) db =
      (create_coin_checkout config.payments prisma user_id package_id return_url db).1
  serve (subscribe_request user_id plan return_url) db =
      (create_subscription_checkout config.payments prisma user_id plan return_url db).1
  serve (progress_request user_id chapter_id scroll now) db =
      (save prisma user_id chapter_id scroll now db).1
  serve (ban_request id now) db = (ban_user prisma id now db).1
  serve (unban_request id) db = (unban_user prisma id db).1

  -- The databases that requests lead to.
  pub data Reaches : Db → Db → Type 0 where
    start : (db : Db) → Reaches db db
    then_serve : {db db' : Db} → Reaches db db' → (r : Request) → Reaches db (serve r db')
