-- ===== src/Payments/Frame.antt =====
-- webhook.service.ts: what the handlers do to the rows of the gate.
use Prim.Native.String.{String}
use novelhub.Prelude.{ℕ, Bool, Option, none, some, List, ◌≡◌, arith}
use novelhub.Prelude.Int.{ℤ}
use novelhub.Action.{Ident}
use novelhub.Prisma.{Uuid, on_lists}
use novelhub.Schema.{Order, OrderType, coin_purchase, Subscription, CoinTxnType, WebhookEvent, Db}
use novelhub.Ledger.Keeps.{Keeps, keeps_rules, weaken}
use novelhub.Coins.{adjust_balance}
use novelhub.Coins.Frame.{adjust_frame}
use novelhub.Payments.Packages.{CoinPackageId}
use novelhub.Payments.Events.{
  Session, StripeSubscription, EventData, checkout_completed, subscription_created,
  subscription_updated, subscription_deleted, invoice_payment_failed, charge_refunded,
  PurchaseEvent, PurchaseEventPublisher,
}
use novelhub.Payments.Orders.{
  Grant, update_orders, complete_pending, store_customer, create_order, capture_stripe_customer,
  grant_order, recover_order, settle_order, publish_grant, complete_coin_order,
  publish_subscription, complete_subscription_order, complete_order, on_checkout_completed,
}
use novelhub.Payments.Webhook.{
  update_subscriptions, upsert_subscription, on_subscription_upsert, on_subscription_deleted,
  on_invoice_payment_failed, reverse_coins, refund_order, refund_found, on_charge_refunded,
  dispatch,
}

-- `P` reads the rows of the gate alone.
module _ (P : List WebhookEvent → Type 0) (uuid : Uuid) (to_lower_case : String → String) where
  abbrev OfGate : Db → Type 0
  OfGate db = P db.webhook_events

  adjust_gate :
      (user_id : Ident) (amount : ℤ) (type : CoinTxnType) (related_id : Option Ident) (now : ℕ)
      → Keeps OfGate (adjust_balance (on_lists uuid) user_id amount type related_id now)
  adjust_gate = adjust_frame OfGate (λ db users txns p. p) uuid

  store_customer_state :
      (user_id customer_id : Ident) (db : Db)
      → (store_customer (on_lists uuid) user_id customer_id db).1.webhook_events ≡ db.webhook_events
  unfolding store_customer
  store_customer_state user_id customer_id db = ground arith

  store_customer_gate :
      (user_id customer_id : Ident)
      → Keeps OfGate (store_customer (on_lists uuid) user_id customer_id)
  store_customer_gate user_id customer_id = record {
    at = λ db p. rw (store_customer_state user_id customer_id db) p;
  }

  complete_pending_state :
      (session : Session) (now : ℕ) (db : Db)
      → (complete_pending (on_lists uuid) session now db).1.webhook_events ≡ db.webhook_events
  unfolding complete_pending
  complete_pending_state session now db = ground arith

  complete_pending_gate :
      (session : Session) (now : ℕ) → Keeps OfGate (complete_pending (on_lists uuid) session now)
  complete_pending_gate session now = record {
    at = λ db p. rw (complete_pending_state session now db) p;
  }

  update_orders_gate :
      (w : Order → Bool) (f : Order → Order) → Keeps OfGate (update_orders (on_lists uuid) w f)
  unfolding update_orders
  update_orders_gate w f = record { at = λ db p. p }

  create_order_state :
      (o : Order) (db : Db)
      → (create_order (on_lists uuid) o db).1.webhook_events ≡ db.webhook_events
  unfolding create_order
  create_order_state o db = ground arith

  create_order_gate : (o : Order) → Keeps OfGate (create_order (on_lists uuid) o)
  create_order_gate o = record { at = λ db p. rw (create_order_state o db) p }

  subscriptions_gate :
      (w : Subscription → Bool) (f : Subscription → Subscription)
      → Keeps OfGate (update_subscriptions (on_lists uuid) w f)
  unfolding update_subscriptions
  subscriptions_gate w f = record { at = λ db p. p }

  upsert_gate :
      (sub : StripeSubscription) (user_id : Ident) (start end : ℕ)
      → Keeps OfGate (upsert_subscription (on_lists uuid) sub user_id start end)
  unfolding upsert_subscription
  upsert_gate sub user_id start end = record { at = λ db p. p }

  capture_gate :
      (user_id : Ident) (customer : Option Ident)
      → Keeps OfGate (capture_stripe_customer (on_lists uuid) user_id customer)
  unfolding capture_stripe_customer
  capture_gate user_id customer = search (keeps_rules, store_customer_gate)

  grant_order_gate :
      (user_id : Ident) (now : ℕ) (o : Option Order)
      → Keeps OfGate (grant_order (on_lists uuid) user_id now o)
  unfolding grant_order
  grant_order_gate user_id now none = search keeps_rules
  grant_order_gate user_id now (some o) = search (keeps_rules, adjust_gate)

  recover_order_gate :
      (session : Session) (user_id : Ident) (package_id : CoinPackageId) (now : ℕ)
      (o : Option Order)
      → Keeps OfGate (recover_order (on_lists uuid) to_lower_case session user_id package_id now o)
  unfolding recover_order
  recover_order_gate session user_id package_id now (some o) = search keeps_rules
  recover_order_gate session user_id package_id now none =
      search (keeps_rules, adjust_gate, create_order_gate) depth 9

  settle_order_gate :
      (session : Session) (user_id : Ident) (package_id : CoinPackageId) (now : ℕ)
      → Keeps OfGate (settle_order (on_lists uuid) to_lower_case session user_id package_id now)
  unfolding settle_order
  settle_order_gate session user_id package_id now =
      search (keeps_rules, complete_pending_gate, recover_order_gate, grant_order_gate) depth 7

  refund_order_gate : (o : Order) (now : ℕ) → Keeps OfGate (refund_order (on_lists uuid) o now)
  unfolding refund_order reverse_coins
  refund_order_gate o now = search (keeps_rules, update_orders_gate, adjust_gate) depth 9

  refund_found_gate :
      (o : Option Order) (now : ℕ) → Keeps OfGate (refund_found (on_lists uuid) o now)
  unfolding refund_found
  refund_found_gate none now = search keeps_rules
  refund_found_gate (some o) now = search (keeps_rules, weaken, refund_order_gate)

  upsert_handler_gate :
      (sub : StripeSubscription) → Keeps OfGate (on_subscription_upsert (on_lists uuid) sub)
  unfolding on_subscription_upsert
  upsert_handler_gate sub = search (keeps_rules, capture_gate, upsert_gate) depth 7

  module _ (publisher : PurchaseEventPublisher)
      (quiet : (p : PurchaseEvent) → Keeps OfGate (publisher.publish p)) where
    publish_grant_gate :
        (session : Session) (user_id : Ident) (g : Option Grant)
        → Keeps OfGate (publish_grant (on_lists uuid) publisher session user_id g)
    unfolding publish_grant
    publish_grant_gate session user_id none = search keeps_rules
    publish_grant_gate session user_id (some g) = quiet _

    publish_subscription_gate :
        (session : Session) (user_id : Ident) (o : Option Order)
        → Keeps OfGate (publish_subscription (on_lists uuid) publisher session user_id o)
    unfolding publish_subscription
    publish_subscription_gate session user_id none = search keeps_rules
    publish_subscription_gate session user_id (some o) = quiet _

    complete_order_gate :
        (session : Session) (user_id : Ident) (now : ℕ) (type : OrderType)
        → Keeps OfGate
            (complete_order (on_lists uuid) publisher to_lower_case session user_id now type)
    unfolding complete_order complete_coin_order complete_subscription_order
    complete_order_gate session user_id now coin_purchase =
        search (keeps_rules, weaken, settle_order_gate, publish_grant_gate) depth 8
    complete_order_gate session user_id now OrderType.subscription =
        search (keeps_rules, update_orders_gate, publish_subscription_gate) depth 7
    complete_order_gate session user_id now OrderType.other_type = search keeps_rules

    checkout_gate :
        (session : Session) (now : ℕ)
        → Keeps OfGate (on_checkout_completed (on_lists uuid) publisher to_lower_case session now)
    unfolding on_checkout_completed
    checkout_gate session now = search (keeps_rules, capture_gate, complete_order_gate) depth 7

    pub dispatch_gate :
        (object : EventData) (now : ℕ)
        → Keeps OfGate (dispatch (on_lists uuid) publisher to_lower_case object now)
    unfolding dispatch on_subscription_deleted on_invoice_payment_failed on_charge_refunded
    dispatch_gate (checkout_completed session) now = checkout_gate session now
    dispatch_gate (subscription_created sub) now = upsert_handler_gate sub
    dispatch_gate (subscription_updated sub) now = upsert_handler_gate sub
    dispatch_gate (subscription_deleted sub) now = search (keeps_rules, subscriptions_gate)
    dispatch_gate (charge_refunded intent) now = search (keeps_rules, refund_found_gate) depth 8
    dispatch_gate (invoice_payment_failed sub) now = search (keeps_rules, subscriptions_gate)
    dispatch_gate _ now = search keeps_rules
