-- ===== src/Payments/Webhook.antt =====
-- apps/api/src/modules/payments/webhook.service.ts: Stripe's events applied to orders, coins and
-- subscriptions, behind a gate on the event's id.
use Prim.Native.String.{String}
use novelhub.Prelude.{ℕ, Bool, true, false, Option, none, some, ◌==◌, get_or, if◌then◌else◌}
use novelhub.Prelude.Int.{ℤ, neg}
use novelhub.Action.{
  truthy, Ident, Error, domain, bad_request, internal, unique_violation, ok, err, pure, throw, gets,
  or_throw, match_option, try_then, ◌>>=◌, ◌>>◌,
}
use novelhub.Prisma.{Prisma}
use novelhub.Schema.{
  Action, Order, coin_purchase, past_due, canceled, refund, Subscription, WebhookEvent,
  webhook_event_clash,
}
use novelhub.Coins.{adjust_balance}
use novelhub.Payments.Events.{
  StripeSubscription, EventData, checkout_completed, subscription_created, subscription_updated,
  subscription_deleted, invoice_payment_succeeded, invoice_payment_failed, charge_refunded,
  unhandled, Event, PurchaseEventPublisher,
}
use novelhub.Payments.Where.{
  is_completed, of_payment_intent, is_completed_order, mark_refunded, coins_of, of_subscription,
  subscription_periods, optional_date, apply_subscription,
}
use novelhub.Payments.Orders.{
  find_order, update_orders, capture_stripe_customer, on_checkout_completed,
}

pub record Received : Type 0 where
  pub type : ℕ
  pub duplicate : Bool

-- The `data` of `onSubscriptionDeleted`.
abbrev pub cancel : ℕ → Subscription → Subscription
cancel now s = record s { status = canceled; canceled_at = some now; cancel_at_period_end = false }

abbrev pub mark_past_due : Subscription → Subscription
mark_past_due s = record s { status = past_due }

-- The refunded coins of an order: only a coin purchase has some.
abbrev pub refund_of : Order → Option ℤ
refund_of o = elim o.type [ coin_purchase ↦ coins_of o.coins_granted | _ ↦ none ]

-- The gate's `catch`: a unique violation is a delivery that came before.
abbrev pub received_twice : Event → Error → Action Received
received_twice event unique_violation = pure (record { type = event.type; duplicate = true })
received_twice event e = throw e

module _ (prisma : Prisma) where
  unfoldable pub update_subscriptions :
      (Subscription → Bool) → (Subscription → Subscription) → Action (Unit {0})
  update_subscriptions w f db =
      (ok tt, record db { subscriptions = (prisma.update_many w f db.subscriptions).0 })

  -- The gate: `webhookEvent.create`.
  unfoldable pub create_webhook_event : Event → Action (Unit {0})
  create_webhook_event event db =
      elim (prisma.create webhook_event_clash
        (record {
          id = prisma.uuid (λ (e : WebhookEvent). e.id) db.webhook_events;
          stripe_event_id = event.id;
          event_type = event.type;
        })
        db.webhook_events) [
          | none ↦ (err unique_violation, db)
          | some events ↦ (ok tt, record db { webhook_events = events })
        ]

  -- The row of the upsert's `create`.
  unfoldable pub subscription_row : StripeSubscription → Ident → ℕ → ℕ → Ident → Subscription
  subscription_row sub user_id start end id = record {
    id = id;
    user_id = user_id;
    stripe_subscription_id = sub.id;
    stripe_customer_id = sub.customer;
    stripe_price_id = sub.price_id;
    status = sub.status;
    current_period_start = start;
    current_period_end = end;
    cancel_at_period_end = get_or sub.cancel_at_period_end false;
    canceled_at = optional_date sub.canceled_at;
  }

  unfoldable pub upsert_subscription : StripeSubscription → Ident → ℕ → ℕ → Action (Unit {0})
  upsert_subscription sub user_id start end db =
      let id = prisma.uuid (λ (s : Subscription). s.id) db.subscriptions in
      (
        ok tt,
        record db {
          subscriptions =
              prisma.upsert (of_subscription sub.id) (subscription_row sub user_id start end id)
                (apply_subscription sub start end) db.subscriptions;
        },
      )

  unfoldable pub on_subscription_upsert : StripeSubscription → Action (Unit {0})
  on_subscription_upsert sub = match_option (truthy sub.user_id) (pure tt) λ user_id.
      match_option (subscription_periods sub) (pure tt) λ (start, end). do
        capture_stripe_customer prisma user_id (some sub.customer)
        upsert_subscription sub user_id start end

  unfoldable pub on_subscription_deleted : StripeSubscription → ℕ → Action (Unit {0})
  on_subscription_deleted sub now = update_subscriptions (of_subscription sub.id) (cancel now)

  unfoldable pub on_invoice_payment_failed : Option Ident → Action (Unit {0})
  on_invoice_payment_failed subscription =
      match_option (truthy subscription) (pure tt)
        λ id. update_subscriptions (of_subscription id) mark_past_due

  -- The reversal of the coins, where the order granted some.
  unfoldable pub reverse_coins : Order → ℕ → Action (Unit {0})
  reverse_coins o now =
      match_option (refund_of o) (pure tt)
        λ coins. adjust_balance prisma o.user_id (neg coins) refund (some o.id) now >> pure tt

  -- The transaction's body.
  unfoldable pub refund_order : Order → ℕ → Action (Unit {0})
  refund_order o now = do
    n ← update_orders prisma (is_completed_order o.id) mark_refunded
    if n == 0 then pure tt else reverse_coins o now

  unfoldable pub refund_found : Option Order → ℕ → Action (Unit {0})
  refund_found none now = pure tt
  refund_found (some o) now =
      if is_completed o.status then prisma.transaction (refund_order o now) else pure tt

  unfoldable pub on_charge_refunded : Option Ident → ℕ → Action (Unit {0})
  on_charge_refunded payment_intent now = match_option (truthy payment_intent) (pure tt) λ intent.
      do order ← gets (find_order prisma (of_payment_intent intent)); refund_found order now

  -- The `switch` on the event's type.
  unfoldable pub dispatch :
      PurchaseEventPublisher → (String → String) → EventData → ℕ → Action (Unit {0})
  dispatch publisher to_lower_case (checkout_completed session) now =
      on_checkout_completed prisma publisher to_lower_case session now
  dispatch publisher to_lower_case (subscription_created sub) now = on_subscription_upsert sub
  dispatch publisher to_lower_case (subscription_updated sub) now = on_subscription_upsert sub
  dispatch publisher to_lower_case (subscription_deleted sub) now = on_subscription_deleted sub now
  dispatch publisher to_lower_case invoice_payment_succeeded now = pure tt
  dispatch publisher to_lower_case (invoice_payment_failed sub) now = on_invoice_payment_failed sub
  dispatch publisher to_lower_case (charge_refunded intent) now = on_charge_refunded intent now
  dispatch publisher to_lower_case unhandled now = pure tt

  unfoldable pub respond : PurchaseEventPublisher → (String → String) → Event → ℕ → Action Received
  respond publisher to_lower_case event now = do
    dispatch publisher to_lower_case event.object now
    pure (record { type = event.type; duplicate = false })

  -- A verified event: the gate, then the handler.
  unfoldable pub receive : PurchaseEventPublisher → (String → String) → Event → ℕ → Action Received
  receive publisher to_lower_case event now =
      try_then (create_webhook_event event) (λ _. respond publisher to_lower_case event now)
        (received_twice event)

  -- `constructEventAsync` is Stripe's: an event if the signature is good.
  unfoldable pub handle_event :
      {Payload : Type 0} (construct_event : Payload → Ident → Ident → Option Event)
      → PurchaseEventPublisher
      → (String → String)
      → Option Ident
      → Payload
      → Option Ident
      → ℕ
      → Action Received
  handle_event construct_event publisher to_lower_case webhook_secret raw_body signature now = do
    secret ← or_throw (truthy webhook_secret) (domain internal none)
    given ← or_throw (truthy signature) (domain bad_request none)
    event ← or_throw (construct_event raw_body given secret) (domain bad_request none)
    receive publisher to_lower_case event now
