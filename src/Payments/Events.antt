-- ===== src/Payments/Events.antt =====
-- The parts of Stripe's events that webhook.service.ts reads, and `PurchaseEventPublisher` of
-- purchase-event.publisher.ts.
use Prim.Native.String.{String}
use novelhub.Prelude.{ℕ, Bool, Option}
use novelhub.Prelude.Int.{ℤ}
use novelhub.Action.{Ident}
use novelhub.Schema.{Action, OrderType, SubscriptionStatus}
use novelhub.Payments.Packages.{CoinPackageId}

-- `Stripe.Checkout.Session`, as the handlers read it: `customer` is the id that it holds or refers
-- to, and `payment_intent` is its id, `none` where it is missing or is expanded to an object.
pub record Session : Type 0 where
  pub id : Ident
  pub user_id : Option Ident
  pub order_type : Option OrderType
  pub package_id : Option CoinPackageId
  pub customer : Option Ident
  pub payment_intent : Option Ident
  pub amount_total : Option ℕ
  pub currency : Option String

-- `Stripe.Subscription`; times are in seconds.
pub record StripeSubscription : Type 0 where
  pub id : Ident
  pub user_id : Option Ident
  pub price_id : Ident
  pub customer : Ident
  pub status : SubscriptionStatus
  pub current_period_start : Option ℕ
  pub current_period_end : Option ℕ
  pub cancel_at_period_end : Option Bool
  pub canceled_at : Option ℕ

pub data EventData : Type 0 where
  checkout_completed : Session → EventData
  subscription_created subscription_updated subscription_deleted : StripeSubscription → EventData
  invoice_payment_succeeded : EventData
  -- the invoice's `subscription`
  invoice_payment_failed : Option Ident → EventData
  -- the charge's `payment_intent`
  charge_refunded : Option Ident → EventData
  unhandled : EventData

pub record Event : Type 0 where
  pub id : Ident
  pub type : ℕ
  pub object : EventData

-- What a purchase event carries.
pub record PurchaseEvent : Type 0 where
  pub user_id : Ident
  pub order_id : Ident
  pub order_type : OrderType
  pub amount_minor : ℕ
  pub currency : String
  pub coins_granted : Option ℤ
  pub stripe_session_id : Ident

-- The publisher is an interface of the program: what it does to the database is its own matter.
pub record PurchaseEventPublisher : Type 0 where
  pub publish : PurchaseEvent → Action (Unit {0})
