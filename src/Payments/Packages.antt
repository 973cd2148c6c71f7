-- ===== src/Payments/Packages.antt =====
-- `COIN_PACKAGES` and `SUBSCRIPTION_PLANS` of packages/shared/src/index.ts. A price in dollars is
-- the whole number of cents that `Math.round(priceUsd * 100)` gives.
use novelhub.Prelude.{ℕ, Option, none, some}
use novelhub.Prelude.Int.{ℤ, pos}

-- `unknown_package` is any text that is no key of `COIN_PACKAGES`.
pub data CoinPackageId : Type 0 where
  pack_50 pack_120 pack_260 pack_700 unknown_package : CoinPackageId

pub record CoinPackage : Type 0 where
  pub price_cents : ℕ
  pub coins : ℤ

abbrev pub coin_packages : CoinPackageId → Option CoinPackage
coin_packages pack_50 = some (record { price_cents = 499; coins = pos 50 })
coin_packages pack_120 = some (record { price_cents = 999; coins = pos 120 })
coin_packages pack_260 = some (record { price_cents = 1999; coins = pos 260 })
coin_packages pack_700 = some (record { price_cents = 4999; coins = pos 700 })
coin_packages unknown_package = none

-- `unknown_plan` is any text that is no key of `SUBSCRIPTION_PLANS`.
pub data SubscriptionPlanId : Type 0 where
  weekly monthly unknown_plan : SubscriptionPlanId

-- The price in cents.
abbrev pub subscription_plans : SubscriptionPlanId → Option ℕ
subscription_plans weekly = some 1299
subscription_plans monthly = some 2999
subscription_plans unknown_plan = none
