-- ===== src/Payments/Quiet.antt =====
-- The checkouts of payments.service.ts and the coin ledger.
use Prim.Native.String.{String}
use novelhub.Prelude.{ℕ, Option}
use novelhub.Prelude.Int.{ℤ}
use novelhub.Action.{Ident}
use novelhub.Prisma.{Uuid, on_lists}
use novelhub.Schema.{OrderType}
use novelhub.Ledger.{IsSound}
use novelhub.Ledger.Keeps.{Keeps, keeps_rules}
use novelhub.Payments.Packages.{CoinPackageId, SubscriptionPlanId}
use novelhub.Payments.Stripe.{PaymentsDeps}
use novelhub.Payments.Sound.{create_order-Keeps}
use novelhub.Payments.Checkout.{
  require_user, require_subscription_price_id, persist_pending_order, create_coin_checkout,
  create_subscription_checkout,
}

module _ (deps : PaymentsDeps) (uuid : Uuid) where
  require_user-Keeps : (user_id : Ident) → Keeps IsSound (require_user deps (on_lists uuid) user_id)
  unfolding require_user
  require_user-Keeps user_id = search keeps_rules depth 20

  persist-Keeps :
      (user_id session_id : Ident) (type : OrderType) (amount : ℕ) (coins : Option ℤ)
      → Keeps IsSound
          (persist_pending_order deps (on_lists uuid) user_id session_id type amount coins)
  unfolding persist_pending_order
  persist-Keeps user_id session_id type amount coins =
      search (keeps_rules, create_order-Keeps uuid (λ s. s)) depth 20

  pub create_coin_checkout-Keeps :
      (user_id : Ident) (package_id : CoinPackageId) (return_url : Option String)
      → Keeps IsSound (create_coin_checkout deps (on_lists uuid) user_id package_id return_url)
  unfolding create_coin_checkout
  create_coin_checkout-Keeps user_id package_id return_url =
      search (keeps_rules, require_user-Keeps, persist-Keeps) depth 30

  pub create_subscription_checkout-Keeps :
      (user_id : Ident) (plan : SubscriptionPlanId) (return_url : Option String)
      → Keeps IsSound (create_subscription_checkout deps (on_lists uuid) user_id plan return_url)
  unfolding create_subscription_checkout require_subscription_price_id
  create_subscription_checkout-Keeps user_id plan return_url =
      search (keeps_rules, require_user-Keeps, persist-Keeps) depth 30
