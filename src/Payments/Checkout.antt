-- ===== src/Payments/Checkout.antt =====
-- apps/api/src/modules/payments/payments.service.ts: the checkouts that a reader starts, and what
-- the reader asks about orders and the subscription.
use Prim.Native.String.{String}
use Prim.Native.String.{◌++◌ as append}
use text.Mathlib.Text.{starts_with, find?, ◌==◌ as str_eq}
use novelhub.Prelude.{
  ℕ, Bool, false, Option, none, some, head?, not, ◌==◌, ◌&&◌, is_some, get_or, if◌then◌else◌,
}
use novelhub.Prelude.Int.{ℤ}
use novelhub.Action.{
  Ident, domain, bad_request, unauthorized, not_found, other, pure, gets, catch, or_throw, throw_if,
  truthy, ◌>>=◌, ◌>>◌,
}
use novelhub.Prisma.{Prisma}
use novelhub.Schema.{Action, User, Subscription, Order, OrderType, coin_purchase, Db, has_id}
use novelhub.Catalog.{is_active_for}
use novelhub.Payments.Packages.{
  CoinPackageId, coin_packages, SubscriptionPlanId, subscription_plans,
}
use novelhub.Payments.Where.{of_session}
use novelhub.Payments.Orders.{create_order}
use novelhub.Payments.Stripe.{
  PaymentsDeps, Checkout, SubscriptionSummary, OrderSummary, truthy_text, success_path, cancel_path,
  portal_return, customer_identity, price_id_of, plan_of, may_pay, pending_order, price_data, price,
}

module _ (deps : PaymentsDeps) where
  -- Only a page of the reader on the app's own origin is taken; an URL that does not parse is not.
  unfoldable pub is_safe_reader_return_url : Option String → Bool
  is_safe_reader_return_url return_url = elim (truthy_text return_url) [
    | none ↦ false
    | some r ↦ elim (deps.new_url deps.app_url none) [
      | none ↦ false
      | some app ↦ elim (deps.new_url r (some deps.app_url)) [
        | none ↦ false
        | some url ↦ str_eq url.origin app.origin && starts_with url.pathname "/read/"
      ]
    ]
  ]

  unfoldable pub success_url : Option String → String
  success_url return_url =
      let url = append deps.app_url success_path in
      if is_safe_reader_return_url return_url
      then append url (
          append (if is_some (find? url "?") then "&" else "?")
            (append "return_url=" (deps.encode_uri_component (get_or return_url ""))))
      else url

  unfoldable pub require_subscription_price_id : SubscriptionPlanId → Action Ident
  require_subscription_price_id plan =
      or_throw (truthy (price_id_of deps.subscription_price_ids plan)) (domain bad_request none)

  module _ (prisma : Prisma) where
    unfoldable pub require_user : Ident → Action User
    require_user user_id = do
      found ← gets (λ db. prisma.find_first (has_id user_id) db.users)
      user ← or_throw found (domain unauthorized none)
      throw_if (not (may_pay user)) (domain unauthorized none)
      pure user

    -- A failure is only logged: the webhook creates the order on completion.
    unfoldable pub persist_pending_order :
        Ident → Ident → OrderType → ℕ → Option ℤ → Action (Unit {0})
    persist_pending_order user_id session_id type amount_cents coins_granted = do
      id ← gets (λ db. prisma.uuid (λ (o : Order). o.id) db.orders)
      catch
          (create_order prisma
            (pending_order id user_id session_id type amount_cents coins_granted))
          (λ _. pure tt)

    unfoldable pub create_coin_checkout : Ident → CoinPackageId → Option String → Action Checkout
    create_coin_checkout user_id package_id return_url = do
      pkg ← or_throw (coin_packages package_id) (domain bad_request none)
      user ← require_user user_id
      stripe ← or_throw deps.stripe other
      session ←
          or_throw
            (stripe.create_checkout (record {
              identity = customer_identity user;
              line_item = price_data pkg.price_cents;
              success_url = success_url return_url;
              cancel_url = append deps.app_url cancel_path;
              user_id = user_id;
              order_type = coin_purchase;
              package_id = some package_id;
              plan_id = none;
            }))
            other
      persist_pending_order user_id session.id coin_purchase pkg.price_cents (some pkg.coins)
      url ← or_throw (truthy_text session.url) (domain bad_request none)
      pure (record { url = url; session_id = session.id })

    unfoldable pub create_subscription_checkout :
        Ident → SubscriptionPlanId → Option String → Action Checkout
    create_subscription_checkout user_id plan return_url = do
      price_cents ← or_throw (subscription_plans plan) (domain bad_request none)
      user ← require_user user_id
      price_id ← require_subscription_price_id plan
      stripe ← or_throw deps.stripe other
      session ←
          or_throw
            (stripe.create_checkout (record {
              identity = customer_identity user;
              line_item = price price_id;
              success_url = success_url return_url;
              cancel_url = append deps.app_url cancel_path;
              user_id = user_id;
              order_type = OrderType.subscription;
              package_id = none;
              plan_id = some plan;
            }))
            other
      persist_pending_order user_id session.id OrderType.subscription price_cents none
      url ← or_throw (truthy_text session.url) (domain bad_request none)
      pure (record { url = url; session_id = session.id })

    -- `orderBy: { updatedAt: 'desc' }`; the column is Prisma's own, and so its order is given.
    module _ (updated_last : Subscription → Subscription → Bool) where
      unfoldable pub stripe_customer_of : User → Db → Option Ident
      stripe_customer_of u db = elim (truthy u.stripe_customer_id) [
        | some id ↦ some id
        | none ↦
            elim (head? (
              prisma.find_many (λ (s : Subscription). s.user_id == u.id) updated_last 0 1
                db.subscriptions)) [ none ↦ none | some s ↦ truthy (some s.stripe_customer_id) ]
      ]

      unfoldable pub create_portal_session : Ident → Action String
      create_portal_session user_id = do
        user ← require_user user_id
        found ← gets (stripe_customer_of user)
        customer_id ← or_throw found (domain not_found none)
        stripe ← or_throw deps.stripe other
        or_throw (stripe.create_portal customer_id (append deps.app_url portal_return)) other

      unfoldable pub summary_of : Option Subscription → Option SubscriptionSummary
      summary_of none = none
      summary_of (some s) = some (record {
        plan = plan_of deps.subscription_price_ids s.stripe_price_id;
        status = s.status;
        current_period_end = s.current_period_end;
        cancel_at_period_end = s.cancel_at_period_end;
        canceled_at = s.canceled_at;
      })

      unfoldable pub get_active_subscription : Ident → ℕ → Action (Option SubscriptionSummary)
      get_active_subscription user_id now = do
        require_user user_id
        gets (λ db. summary_of (
            head? (prisma.find_many (is_active_for user_id now) updated_last 0 1 db.subscriptions)))

module _ (prisma : Prisma) where
  unfoldable pub get_order_status : Ident → Ident → Action OrderSummary
  get_order_status user_id session_id = do
    found ← gets (λ db. prisma.find_first (of_session session_id) db.orders)
    order ← or_throw found (domain not_found none)
    throw_if (not (order.user_id == user_id)) (domain not_found none)
    pure (record {
      status = order.status;
      type = order.type;
      amount = order.amount;
      currency = order.currency;
      coins_granted = order.coins_granted;
      completed_at = order.completed_at;
    })
