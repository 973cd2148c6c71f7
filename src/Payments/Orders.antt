-- ===== src/Payments/Orders.antt =====
-- apps/api/src/modules/payments/webhook.service.ts, `checkout.session.completed`: an order is
-- completed, its coins are granted, and the purchase is published.
use Prim.Native.String.{String}
use novelhub.Prelude.{ℕ, Bool, Option, none, some, ◌==◌, get_or, if◌then◌else◌}
use novelhub.Prelude.Int.{ℤ}
use novelhub.Action.{
  truthy, Ident, unique_violation, ok, err, pure, gets, match_option, ◌>>=◌, ◌>>◌,
}
use novelhub.Prisma.{Prisma}
use novelhub.Schema.{
  Action, Order, OrderType, coin_purchase, completed, purchase, order_clash, user_clash, Db,
}
use novelhub.Coins.{adjust_balance}
use novelhub.Payments.Packages.{CoinPackageId, CoinPackage, coin_packages}
use novelhub.Payments.Events.{Session, PurchaseEventPublisher}
use novelhub.Payments.Where.{
  of_session, is_pending_of, complete, mark_completed, coins_of, has_no_customer, set_customer,
}

-- What a coin order's transaction hands to the publisher.
pub record Grant : Type 0 where
  pub order_id : Ident
  pub coins_granted : ℤ
  pub amount_minor : ℕ
  pub currency : String

module _ (prisma : Prisma) where
  unfoldable pub find_order : (Order → Bool) → Db → Option Order
  find_order w db = prisma.find_first w db.orders

  -- `order.updateMany`
  unfoldable pub update_orders : (Order → Bool) → (Order → Order) → Action ℕ
  update_orders w f db =
      let (orders, n) = prisma.update_many w f db.orders in (ok n, record db { orders = orders })

  -- `order.updateMany` of the payment intent, which is unique.
  unfoldable pub complete_pending : Session → ℕ → Action ℕ
  complete_pending session now db =
      elim (prisma.update_many_unique order_clash (is_pending_of session.id)
        (complete session.payment_intent now) db.orders) [
          | none ↦ (err unique_violation, db)
          | some (orders, n) ↦ (ok n, record db { orders = orders })
        ]

  unfoldable pub create_order : Order → Action (Unit {0})
  create_order o db = elim (prisma.create order_clash o db.orders) [
    | none ↦ (err unique_violation, db)
    | some orders ↦ (ok tt, record db { orders = orders })
  ]

  -- `user.updateMany` of the customer id, which is unique.
  unfoldable pub store_customer : Ident → Ident → Action (Unit {0})
  store_customer user_id customer_id db =
      elim (prisma.update_many_unique user_clash (has_no_customer user_id)
        (set_customer customer_id) db.users) [
          | none ↦ (err unique_violation, db)
          | some (users, _) ↦ (ok tt, record db { users = users })
        ]

  unfoldable pub capture_stripe_customer : Ident → Option Ident → Action (Unit {0})
  capture_stripe_customer user_id customer =
      match_option (truthy customer) (pure tt) λ customer_id. store_customer user_id customer_id

  -- The happy path of a coin order, which this delivery has just moved to `completed`.
  unfoldable pub grant_order : Ident → ℕ → Option Order → Action (Option Grant)
  grant_order user_id now none = pure none
  grant_order user_id now (some o) = match_option (coins_of o.coins_granted) (pure none) λ coins. do
    adjust_balance prisma user_id coins purchase (some o.id) now
    pure (
        some (record {
          order_id = o.id;
          coins_granted = coins;
          amount_minor = o.amount;
          currency = o.currency;
        }))

  -- The order that the recovery path writes.
  unfoldable pub recovered_order :
      (String → String) → Session → Ident → CoinPackage → ℕ → Ident → Order
  recovered_order to_lower_case session user_id pkg now id = record {
    id = id;
    user_id = user_id;
    stripe_session_id = session.id;
    stripe_payment_intent = session.payment_intent;
    type = coin_purchase;
    amount = get_or session.amount_total pkg.price_cents;
    currency = to_lower_case (get_or session.currency "usd");
    coins_granted = some pkg.coins;
    status = completed;
    completed_at = some now;
  }

  -- No pending order was there: one that is done already, or none at all.
  unfoldable pub recover_order :
      (String → String) → Session → Ident → CoinPackageId → ℕ → Option Order → Action (Option Grant)
  recover_order to_lower_case session user_id package_id now (some existing) = pure none
  recover_order to_lower_case session user_id package_id now none =
      match_option (coin_packages package_id) (pure none) λ pkg. do
        id ← gets (λ db. prisma.uuid (λ (o : Order). o.id) db.orders)
        let o = recovered_order to_lower_case session user_id pkg now id
        create_order o
        adjust_balance prisma user_id pkg.coins purchase (some id) now
        pure (
            some (record {
              order_id = id;
              coins_granted = pkg.coins;
              amount_minor = o.amount;
              currency = o.currency;
            }))

  -- The transaction's body.
  unfoldable pub settle_order :
      (String → String) → Session → Ident → CoinPackageId → ℕ → Action (Option Grant)
  settle_order to_lower_case session user_id package_id now = do
    n ← complete_pending session now
    order ← gets (find_order (of_session session.id))
    if n == 0
        then recover_order to_lower_case session user_id package_id now order
        else grant_order user_id now order

  -- Published after the commit.
  unfoldable pub publish_grant :
      PurchaseEventPublisher → Session → Ident → Option Grant → Action (Unit {0})
  publish_grant publisher session user_id none = pure tt
  publish_grant publisher session user_id (some grant) = publisher.publish (record {
    user_id = user_id;
    order_id = grant.order_id;
    order_type = coin_purchase;
    amount_minor = grant.amount_minor;
    currency = grant.currency;
    coins_granted = some grant.coins_granted;
    stripe_session_id = session.id;
  })

  unfoldable pub complete_coin_order :
      PurchaseEventPublisher → (String → String) → Session → Ident → ℕ → Action (Unit {0})
  complete_coin_order publisher to_lower_case session user_id now =
      match_option session.package_id (pure tt) λ package_id. do
        grant ← prisma.transaction (settle_order to_lower_case session user_id package_id now)
        publish_grant publisher session user_id grant

  unfoldable pub publish_subscription :
      PurchaseEventPublisher → Session → Ident → Option Order → Action (Unit {0})
  publish_subscription publisher session user_id none = pure tt
  publish_subscription publisher session user_id (some order) = publisher.publish (record {
    user_id = user_id;
    order_id = order.id;
    order_type = OrderType.subscription;
    amount_minor = order.amount;
    currency = order.currency;
    coins_granted = none;
    stripe_session_id = session.id;
  })

  unfoldable pub complete_subscription_order :
      PurchaseEventPublisher → Session → Ident → ℕ → Action (Unit {0})
  complete_subscription_order publisher session user_id now = do
    update_orders (is_pending_of session.id) (mark_completed now)
    order ← gets (find_order (of_session session.id))
    publish_subscription publisher session user_id order

  -- The two branches on the order's type; any other type does nothing.
  unfoldable pub complete_order :
      PurchaseEventPublisher
      → (String → String)
      → Session
      → Ident
      → ℕ
      → OrderType
      → Action (Unit {0})
  complete_order publisher to_lower_case session user_id now coin_purchase =
      complete_coin_order publisher to_lower_case session user_id now
  complete_order publisher to_lower_case session user_id now OrderType.subscription =
      complete_subscription_order publisher session user_id now
  complete_order publisher to_lower_case session user_id now OrderType.other_type = pure tt

  unfoldable pub on_checkout_completed :
      PurchaseEventPublisher → (String → String) → Session → ℕ → Action (Unit {0})
  on_checkout_completed publisher to_lower_case session now =
      match_option (truthy session.user_id) (pure tt) λ user_id.
        match_option session.order_type (pure tt) λ order_type. do
          capture_stripe_customer user_id session.customer
          complete_order publisher to_lower_case session user_id now order_type
