-- ===== src/Payments/Sound.antt =====
-- webhook.service.ts and the coin ledger.
use Prim.Native.String.{String}
use novelhub.Prelude.{ℕ, Bool, Option, none, some, refl, arith, ◌≡◌, ◌⊎◌, inl, inr}
use novelhub.Action.{Ident, Error, unique_violation}
use novelhub.Prisma.{Uuid, on_lists, update_rows}
use novelhub.Schema.{Order, OrderType, coin_purchase, Db}
use novelhub.Ledger.{IsSound}
use novelhub.Ledger.Sound.{relabel-IsSound}
use novelhub.Ledger.Keeps.{Keeps, KeepsIfOk, keeps_rules, ok_rules, untouched-Keeps}
use novelhub.Coins.Sound.{adjust_balance-KeepsIfOk}
use novelhub.Payments.Packages.{CoinPackageId}
use novelhub.Payments.Events.{
  Session, StripeSubscription, EventData, checkout_completed, subscription_created,
  subscription_updated, invoice_payment_failed, charge_refunded, Event, PurchaseEvent,
  PurchaseEventPublisher,
}
use novelhub.Payments.Where.{has_no_customer, set_customer}
use novelhub.Payments.Orders.{
  Grant, update_orders, complete_pending, store_customer, create_order, capture_stripe_customer,
  grant_order, recover_order, settle_order, publish_grant, complete_coin_order,
  publish_subscription, complete_subscription_order, complete_order, on_checkout_completed,
}
use novelhub.Payments.Webhook.{
  update_subscriptions, create_webhook_event, upsert_subscription, on_subscription_upsert,
  on_subscription_deleted, on_invoice_payment_failed, reverse_coins, refund_order, refund_found,
  on_charge_refunded, dispatch, received_twice, respond, receive, handle_event,
}

module _ (uuid : Uuid) (to_lower_case : String → String) where
  update_orders-Keeps :
      (w : Order → Bool) (f : Order → Order) → Keeps IsSound (update_orders (on_lists uuid) w f)
  unfolding update_orders
  update_orders-Keeps w f = untouched-Keeps _ (λ db. (refl, refl))

  pub create_order-Keeps : (o : Order) → Keeps IsSound (create_order (on_lists uuid) o)
  unfolding create_order
  create_order-Keeps o = untouched-Keeps _ (λ db. ground arith)

  complete_pending-Keeps :
      (session : Session) (now : ℕ) → Keeps IsSound (complete_pending (on_lists uuid) session now)
  unfolding complete_pending
  complete_pending-Keeps session now = untouched-Keeps _ (λ db. ground arith)

  store_customer_returns :
      (user_id customer_id : Ident) (db : Db)
      → ((store_customer (on_lists uuid) user_id customer_id db).1 ≡ db)
        ⊎ ((store_customer (on_lists uuid) user_id customer_id db).1 ≡ record db {
          users = update_rows (has_no_customer user_id) (set_customer customer_id) db.users;
        })
  unfolding store_customer
  store_customer_returns user_id customer_id db = ground arith

  store_customer-Keeps :
      (user_id customer_id : Ident)
      → Keeps IsSound (store_customer (on_lists uuid) user_id customer_id)
  store_customer-Keeps user_id customer_id = record {
    at = λ db s. elim (store_customer_returns user_id customer_id db) [
      | inl same ↦ rw same s
      | inr after ↦ rw after (
          relabel-IsSound (has_no_customer user_id) (set_customer customer_id) db
            (λ u. (refl, refl)) s)
    ];
  }

  upsert-Keeps :
      (sub : StripeSubscription) (user_id : Ident) (start end : ℕ)
      → Keeps IsSound (upsert_subscription (on_lists uuid) sub user_id start end)
  unfolding upsert_subscription
  upsert-Keeps sub user_id start end = untouched-Keeps _ (λ db. (refl, refl))

  capture-Keeps :
      (user_id : Ident) (customer : Option Ident)
      → Keeps IsSound (capture_stripe_customer (on_lists uuid) user_id customer)
  unfolding capture_stripe_customer
  capture-Keeps user_id customer = search (keeps_rules, store_customer-Keeps)

  grant_order_ok :
      (user_id : Ident) (now : ℕ) (o : Option Order)
      → KeepsIfOk IsSound (grant_order (on_lists uuid) user_id now o)
  unfolding grant_order
  grant_order_ok user_id now none = search (ok_rules, keeps_rules)
  grant_order_ok user_id now (some o) = search (ok_rules, keeps_rules, adjust_balance-KeepsIfOk)

  recover_order_ok :
      (session : Session) (user_id : Ident) (package_id : CoinPackageId) (now : ℕ)
      (o : Option Order)
      → KeepsIfOk IsSound
          (recover_order (on_lists uuid) to_lower_case session user_id package_id now o)
  unfolding recover_order
  recover_order_ok session user_id package_id now (some o) = search (ok_rules, keeps_rules)
  recover_order_ok session user_id package_id now none =
      search (ok_rules, keeps_rules, adjust_balance-KeepsIfOk, create_order-Keeps) depth 9

  settle_order_ok :
      (session : Session) (user_id : Ident) (package_id : CoinPackageId) (now : ℕ)
      → KeepsIfOk IsSound
          (settle_order (on_lists uuid) to_lower_case session user_id package_id now)
  unfolding settle_order
  settle_order_ok session user_id package_id now =
      search (ok_rules, keeps_rules, complete_pending-Keeps, recover_order_ok, grant_order_ok) depth
        7

  reverse_coins_ok : (o : Order) (now : ℕ) → KeepsIfOk IsSound (reverse_coins (on_lists uuid) o now)
  unfolding reverse_coins
  reverse_coins_ok o now = search (ok_rules, keeps_rules, adjust_balance-KeepsIfOk)

  refund_order_ok : (o : Order) (now : ℕ) → KeepsIfOk IsSound (refund_order (on_lists uuid) o now)
  unfolding refund_order
  refund_order_ok o now = search (ok_rules, keeps_rules, update_orders-Keeps, reverse_coins_ok)

  refund_found-Keeps :
      (o : Option Order) (now : ℕ) → Keeps IsSound (refund_found (on_lists uuid) o now)
  unfolding refund_found
  refund_found-Keeps none now = search keeps_rules
  refund_found-Keeps (some o) now = search (keeps_rules, refund_order_ok)

  on_charge_refunded-Keeps :
      (intent : Option Ident) (now : ℕ)
      → Keeps IsSound (on_charge_refunded (on_lists uuid) intent now)
  unfolding on_charge_refunded
  on_charge_refunded-Keeps intent now = search (keeps_rules, refund_found-Keeps)

  on_subscription_upsert-Keeps :
      (sub : StripeSubscription) → Keeps IsSound (on_subscription_upsert (on_lists uuid) sub)
  unfolding on_subscription_upsert
  on_subscription_upsert-Keeps sub = search (keeps_rules, capture-Keeps, upsert-Keeps) depth 7

  module _ (publisher : PurchaseEventPublisher)
      (quiet : (p : PurchaseEvent) → Keeps IsSound (publisher.publish p)) where
    publish_grant-Keeps :
        (session : Session) (user_id : Ident) (g : Option Grant)
        → Keeps IsSound (publish_grant (on_lists uuid) publisher session user_id g)
    unfolding publish_grant
    publish_grant-Keeps session user_id none = search keeps_rules
    publish_grant-Keeps session user_id (some g) = quiet _

    publish_subscription-Keeps :
        (session : Session) (user_id : Ident) (o : Option Order)
        → Keeps IsSound (publish_subscription (on_lists uuid) publisher session user_id o)
    unfolding publish_subscription
    publish_subscription-Keeps session user_id none = search keeps_rules
    publish_subscription-Keeps session user_id (some o) = quiet _

    complete_subscription-Keeps :
        (session : Session) (user_id : Ident) (now : ℕ)
        → Keeps IsSound (complete_subscription_order (on_lists uuid) publisher session user_id now)
    unfolding complete_subscription_order
    complete_subscription-Keeps session user_id now =
        search (keeps_rules, update_orders-Keeps, publish_subscription-Keeps) depth 7

    complete_order-Keeps :
        (session : Session) (user_id : Ident) (now : ℕ) (type : OrderType)
        → Keeps IsSound
            (complete_order (on_lists uuid) publisher to_lower_case session user_id now type)
    unfolding complete_order complete_coin_order
    complete_order-Keeps session user_id now coin_purchase =
        search (keeps_rules, settle_order_ok, publish_grant-Keeps) depth 7
    complete_order-Keeps session user_id now OrderType.subscription =
        complete_subscription-Keeps session user_id now
    complete_order-Keeps session user_id now OrderType.other_type = search keeps_rules

    on_checkout_completed-Keeps :
        (session : Session) (now : ℕ)
        → Keeps IsSound (on_checkout_completed (on_lists uuid) publisher to_lower_case session now)
    unfolding on_checkout_completed
    on_checkout_completed-Keeps session now =
        search (keeps_rules, capture-Keeps, complete_order-Keeps) depth 7

    dispatch-Keeps :
        (object : EventData) (now : ℕ)
        → Keeps IsSound (dispatch (on_lists uuid) publisher to_lower_case object now)
    unfolding dispatch on_subscription_deleted on_invoice_payment_failed update_subscriptions
    dispatch-Keeps (checkout_completed session) now = on_checkout_completed-Keeps session now
    dispatch-Keeps (subscription_created sub) now = on_subscription_upsert-Keeps sub
    dispatch-Keeps (subscription_updated sub) now = on_subscription_upsert-Keeps sub
    dispatch-Keeps (charge_refunded intent) now = on_charge_refunded-Keeps intent now
    dispatch-Keeps (invoice_payment_failed sub) now = untouched-Keeps _ (λ db. ground arith)
    dispatch-Keeps _ now = untouched-Keeps _ (λ db. (refl, refl))

    gate-Keeps : (event : Event) → Keeps IsSound (create_webhook_event (on_lists uuid) event)
    unfolding create_webhook_event
    gate-Keeps event = untouched-Keeps _ (λ db. ground arith)

    received_twice-Keeps : (event : Event) (e : Error) → Keeps IsSound (received_twice event e)
    received_twice-Keeps event unique_violation = record { at = λ s h. h }
    received_twice-Keeps event e = record { at = λ s h. h }

    receive-Keeps :
        (event : Event) (now : ℕ)
        → Keeps IsSound (receive (on_lists uuid) publisher to_lower_case event now)
    unfolding receive respond
    receive-Keeps event now = search (keeps_rules, gate-Keeps, dispatch-Keeps, received_twice-Keeps)

    pub handle_event-Keeps :
        {Payload : Type 0} (construct_event : Payload → Ident → Ident → Option Event)
        (secret : Option Ident) (body : Payload) (signature : Option Ident) (now : ℕ)
        → Keeps IsSound (
            handle_event
              (on_lists uuid)
              construct_event
              publisher
              to_lower_case
              secret
              body
              signature
              now)
    unfolding handle_event
    handle_event-Keeps construct_event secret body signature now =
        search (keeps_rules, receive-Keeps) depth 9
