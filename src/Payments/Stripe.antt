-- ===== src/Payments/Stripe.antt =====
-- apps/api/src/modules/payments/payments.service.ts: what is sent to Stripe and what a reader is
-- answered. Stripe, and the platform's URL parser, are arguments; the tracking metadata of an order
-- and the texts shown to a customer are left out.
use Prim.Native.String.{String}
use text.Mathlib.Text.{◌==◌ as str_eq}
use novelhub.Prelude.{ℕ, Bool, false, Option, none, some, ◌==◌, ◌&&◌, is_none, if◌then◌else◌}
use novelhub.Prelude.Int.{ℤ}
use novelhub.Action.{Ident, truthy}
use novelhub.Schema.{User, SubscriptionStatus, Order, OrderType, OrderStatus, pending}
use novelhub.Payments.Packages.{CoinPackageId, SubscriptionPlanId, weekly, monthly}

pub record SubscriptionPriceIds : Type 0 where
  pub weekly : Option Ident
  pub monthly : Option Ident

-- `{ customer }` or `{ customer_email }`
pub data CustomerIdentity : Type 0 where
  customer : Ident → CustomerIdentity
  customer_email : String → CustomerIdentity

-- `price_data` in cents, or the id of a `price`
pub data LineItem : Type 0 where
  price_data : ℕ → LineItem
  price : Ident → LineItem

-- The arguments of `checkout.sessions.create`.
pub record CheckoutParams : Type 0 where
  pub identity : CustomerIdentity
  pub line_item : LineItem
  pub success_url : String
  pub cancel_url : String
  pub user_id : Ident
  pub order_type : OrderType
  pub package_id : Option CoinPackageId
  pub plan_id : Option SubscriptionPlanId

pub record CheckoutSession : Type 0 where
  pub id : Ident
  pub url : Option String

-- The calls of Stripe; a call that throws is `none`.
pub record StripeApi : Type 0 where
  pub create_checkout : CheckoutParams → Option CheckoutSession
  pub create_portal : Ident → String → Option String

-- `new URL(…)`: its `origin` and `pathname`.
pub record Url : Type 0 where
  pub origin : String
  pub pathname : String

-- `PaymentsServiceDeps`, and the platform's functions on URLs. `stripe` is what `LazyStripe.get`
-- returns, which throws where no key is set.
pub record PaymentsDeps : Type 0 where
  pub stripe : Option StripeApi
  pub app_url : String
  pub subscription_price_ids : SubscriptionPriceIds
  pub new_url : String → Option String → Option Url
  pub encode_uri_component : String → String

pub record Checkout : Type 0 where
  pub url : String
  pub session_id : Ident

pub record SubscriptionSummary : Type 0 where
  pub plan : SubscriptionPlanId
  pub status : SubscriptionStatus
  pub current_period_end : ℕ
  pub cancel_at_period_end : Bool
  pub canceled_at : Option ℕ

pub record OrderSummary : Type 0 where
  pub status : OrderStatus
  pub type : OrderType
  pub amount : ℕ
  pub currency : String
  pub coins_granted : Option ℤ
  pub completed_at : Option ℕ

-- A text that is missing or empty fails `if (x)`.
abbrev pub truthy_text : Option String → Option String
truthy_text none = none
truthy_text (some s) = if str_eq s "" then none else some s

-- `PAYMENT_PATHS`
abbrev pub success_path : String
success_path = "/payment/success?session_id={CHECKOUT_SESSION_ID}"

abbrev pub cancel_path : String
cancel_path = "/payment/cancel"

abbrev pub portal_return : String
portal_return = "/me"

abbrev pub customer_identity : User → CustomerIdentity
customer_identity u = elim (truthy u.stripe_customer_id) [
  | none ↦ customer_email u.email
  | some id ↦ customer id
]

abbrev pub price_id_of : SubscriptionPriceIds → SubscriptionPlanId → Option Ident
price_id_of ids weekly = ids.weekly
price_id_of ids _ = ids.monthly

abbrev pub is_price : Option Ident → Ident → Bool
is_price none id = false
is_price (some p) id = p == id

-- The first plan with the price, and `weekly` where there is none.
abbrev pub plan_of : SubscriptionPriceIds → Ident → SubscriptionPlanId
plan_of ids id =
    if is_price ids.weekly id then weekly else if is_price ids.monthly id then monthly else weekly

-- `!user.deletedAt && !user.bannedAt`
abbrev pub may_pay : User → Bool
may_pay u = is_none u.deleted_at && is_none u.banned_at

abbrev pub pending_order : Ident → Ident → Ident → OrderType → ℕ → Option ℤ → Order
pending_order id user_id session_id type amount_cents coins_granted = record {
  id = id;
  user_id = user_id;
  stripe_session_id = session_id;
  stripe_payment_intent = none;
  type = type;
  amount = amount_cents;
  currency = "usd";
  coins_granted = coins_granted;
  status = pending;
  completed_at = none;
}
