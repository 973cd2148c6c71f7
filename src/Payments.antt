-- ===== src/Payments.antt =====
-- apps/api/src/modules/payments: the coin packages on sale, the checkouts, Stripe's events, and the
-- webhook.
pub mod Packages
pub mod Events
pub mod Where
pub mod Orders
pub mod Webhook
pub mod Stripe
pub mod Checkout
pub mod Quiet
pub mod Opened
pub mod Purchase
pub mod Sound
pub mod Settle
pub mod Again
pub mod Frame
mod Tests
