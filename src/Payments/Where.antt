-- ===== src/Payments/Where.antt =====
-- The `where` and `data` objects of webhook.service.ts.
use novelhub.Prelude.{
  ℕ, ◌*◌, Bool, true, false, Option, none, some, ◌==◌, ◌&&◌, is_none, get_or, if◌then◌else◌,
}
use novelhub.Prelude.Int.{ℤ, pos, ltb_ℤ}
use novelhub.Action.{truthy, Ident}
use novelhub.Schema.{User, Order, OrderStatus, pending, completed, refunded, Subscription, has_id}
use novelhub.Payments.Events.{StripeSubscription}

abbrev pub is_pending : OrderStatus → Bool
is_pending pending = true
is_pending _ = false

abbrev pub is_completed : OrderStatus → Bool
is_completed completed = true
is_completed _ = false

abbrev pub of_session : Ident → Order → Bool
of_session session_id o = o.stripe_session_id == session_id

abbrev pub is_pending_of : Ident → Order → Bool
is_pending_of session_id o = of_session session_id o && is_pending o.status

abbrev pub of_payment_intent : Ident → Order → Bool
of_payment_intent intent o = elim o.stripe_payment_intent [ none ↦ false | some i ↦ i == intent ]

abbrev pub is_completed_order : Ident → Order → Bool
is_completed_order id o = o.id == id && is_completed o.status

-- `data: { status, completedAt, stripePaymentIntent }`
abbrev pub complete : Option Ident → ℕ → Order → Order
complete intent now o = record o {
  status = completed;
  completed_at = some now;
  stripe_payment_intent = intent;
}

abbrev pub mark_completed : ℕ → Order → Order
mark_completed now o = record o { status = completed; completed_at = some now }

abbrev pub mark_refunded : Order → Order
mark_refunded o = record o { status = refunded }

-- The coins of an order that has some: `coinsGranted && coinsGranted > 0`.
abbrev pub coins_of : Option ℤ → Option ℤ
coins_of none = none
coins_of (some coins) = if ltb_ℤ (pos 0) coins then some coins else none

abbrev pub of_subscription : Ident → Subscription → Bool
of_subscription id s = s.stripe_subscription_id == id

-- `{ id: userId, stripeCustomerId: null }`
abbrev pub has_no_customer : Ident → User → Bool
has_no_customer user_id u = has_id user_id u && is_none u.stripe_customer_id

abbrev pub set_customer : Ident → User → User
set_customer customer_id u = record u { stripe_customer_id = some customer_id }

-- `subscriptionPeriods`, in milliseconds.
abbrev pub subscription_periods : StripeSubscription → Option (ℕ × ℕ)
subscription_periods sub = elim (truthy sub.current_period_start) [
  | none ↦ none
  | some start ↦ elim (truthy sub.current_period_end) [
    | none ↦ none
    | some end ↦ some (start * 1000, end * 1000)
  ]
]

abbrev pub optional_date : Option ℕ → Option ℕ
optional_date seconds = elim (truthy seconds) [ none ↦ none | some s ↦ some (s * 1000) ]

-- The `update` of the subscription's upsert; its `create` writes the same over a new row.
abbrev pub apply_subscription : StripeSubscription → ℕ → ℕ → Subscription → Subscription
apply_subscription sub start end s = record s {
  stripe_customer_id = sub.customer;
  stripe_price_id = sub.price_id;
  status = sub.status;
  current_period_start = start;
  current_period_end = end;
  cancel_at_period_end = get_or sub.cancel_at_period_end false;
  canceled_at = optional_date sub.canceled_at;
}
