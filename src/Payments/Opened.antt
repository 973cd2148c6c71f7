-- ===== src/Payments/Opened.antt =====
-- payments.service.ts: the order that a coin checkout opens.
use Prim.Native.String.{String}
use mathlib.Core.Path.{subst}
use novelhub.Prelude.{
  ap, true, false, Option, none, some, List, [], ◌∷◌, ◌++◌, ◌≡◌, ◌≢◌, ◌∙◌, sym, arith, All, All-map,
  inl, inr, Option-cases,
}
use novelhub.Action.{Ident, Result, ok, err, domain, not_found}
use novelhub.Prisma.{Prisma, IsDocumented, Uuid, on_lists, uuid_of, eq_on_lists, first}
use novelhub.Prisma.Rows.{insert_row-new, first-last, All-first}
use novelhub.Schema.{User, Order, coin_purchase, pending, order_clash, same_value, Db, has_id}
use novelhub.Payments.Packages.{CoinPackage, CoinPackageId, coin_packages}
use novelhub.Payments.Where.{of_session}
use novelhub.Payments.Orders.{create_order}
use novelhub.Payments.Stripe.{PaymentsDeps, Checkout, OrderSummary, may_pay, pending_order}
use novelhub.Payments.Checkout.{
  require_user, persist_pending_order, create_coin_checkout, get_order_status,
}

-- No order has the session or the payment intent.
abbrev pub IsNew : Ident → Option Ident → List Order → Type 0
IsNew session_id intent orders =
    All
      (λ (o : Order).
        (o.stripe_session_id ≢ session_id) × (same_value o.stripe_payment_intent intent ≡ false))
      orders

module _ (deps : PaymentsDeps) (uuid : Uuid) (user_id : Ident) (package_id : CoinPackageId)
    (return_url : Option String) (db db' : Db) (checkout : Checkout) where
  abbrev pub IsStarted : Type 0
  IsStarted =
      (pkg : CoinPackage) × (u : User) × (coin_packages package_id ≡ some pkg)
      × (first (has_id user_id) db.users ≡ some u)
      × (may_pay u ≡ true)
      × (persist_pending_order deps (on_lists uuid) user_id checkout.session_id coin_purchase
            pkg.price_cents (some pkg.coins) db
          ≡ (ok tt, db'))

  pub started :
      create_coin_checkout deps (on_lists uuid) user_id package_id return_url db
        ≡ (ok checkout, db')
      → IsStarted
  unfolding create_coin_checkout require_user persist_pending_order
  started e = elim (Option-cases (coin_packages package_id)) [
    | inl n ↦ absurd (ground arith)
    | inr (pkg, p) ↦ elim (Option-cases (first (has_id user_id) db.users)) [
      | inl n ↦ absurd (ground arith)
      | inr (u, f) ↦ (pkg, u, p, f, ground arith, ground arith)
    ]
  ]

module _ (deps : PaymentsDeps) (uuid : Uuid) (user_id session_id : Ident) (pkg : CoinPackage)
    (db : Db)
    (new_ids : All (λ (o : Order). o.id ≢ uuid Order (λ o. o.id) db.orders) db.orders) where
  abbrev pub opened : Order
  opened =
      pending_order (uuid Order (λ o. o.id) db.orders) user_id session_id coin_purchase
        pkg.price_cents (some pkg.coins)

  abbrev pub pending_db : Db
  pending_db = record db { orders = db.orders ++ opened ∷ [] }

  apart :
      (intent : Option Ident) (orders : List Order)
      → All (λ (o : Order). o.id ≢ opened.id) orders
      → IsNew session_id intent orders
      → All (λ o. order_clash opened o ≡ false) orders
  apart intent [] h k = tt
  apart intent (o ∷ orders) h k = (ground (arith, h.0, k.0.0), apart intent orders h.1 k.1)

  persisted :
      (intent : Option Ident)
      → IsNew session_id intent db.orders
      → persist_pending_order deps
          (on_lists uuid)
          user_id
          session_id
          coin_purchase
          pkg.price_cents
          (some pkg.coins)
          db
        ≡ (ok tt, pending_db)
  unfolding persist_pending_order create_order
  persisted intent h =
      let i = insert_row-new order_clash opened db.orders (apart intent db.orders new_ids h) in
      ground (arith, i)

-- The order that a checkout of a package opens.
abbrev pub opened_summary : CoinPackage → OrderSummary
opened_summary pkg = record {
  status = pending;
  type = coin_purchase;
  amount = pkg.price_cents;
  currency = "usd";
  coins_granted = some pkg.coins;
  completed_at = none;
}

module _ (deps : PaymentsDeps) (uuid : Uuid) (user_id session_id : Ident) (pkg : CoinPackage)
    (db : Db) (ids : All (λ (o : Order). o.id ≢ uuid Order (λ o. o.id) db.orders) db.orders)
    (fresh : IsNew session_id none db.orders) where
  abbrev status_of : Ident → Result OrderSummary × Db
  status_of reader =
      get_order_status (on_lists uuid) reader session_id
        (pending_db deps uuid user_id session_id pkg db ids)

  opened_found :
      first (of_session session_id) (pending_db deps uuid user_id session_id pkg db ids).orders
      ≡ some (opened deps uuid user_id session_id pkg db ids)
  opened_found =
      first-last (of_session session_id) db.orders _
        (All-first (of_session session_id) db.orders
          (All-map _ _ db.orders (λ o h. ground (arith, h.0)) fresh))
        (ground arith)

  own_status :
      status_of user_id
      ≡ (ok (opened_summary pkg), pending_db deps uuid user_id session_id pkg db ids)
  unfolding get_order_status
  own_status = ground (arith, opened_found)

  foreign_status :
      (other_id : Ident)
      → other_id ≢ user_id
      → status_of other_id
        ≡ (err (domain not_found none), pending_db deps uuid user_id session_id pkg db ids)
  unfolding get_order_status
  foreign_status other_id h = ground (arith, opened_found)

-- A checkout that returns has stored its order.
pub opens :
    (deps : PaymentsDeps) (uuid : Uuid) (user_id session_id : Ident) (intent : Option Ident)
    (pkg : CoinPackage) (db db' : Db)
    (ids : All (λ (o : Order). o.id ≢ uuid Order (λ o. o.id) db.orders) db.orders)
    → IsNew session_id intent db.orders
    → persist_pending_order deps
        (on_lists uuid)
        user_id
        session_id
        coin_purchase
        pkg.price_cents
        (some pkg.coins)
        db
      ≡ (ok tt, db')
    → pending_db deps uuid user_id session_id pkg db ids ≡ db'
opens deps uuid user_id session_id intent pkg db db' ids fresh kept =
    ap (λ (r, s). s) (sym (persisted deps uuid user_id session_id pkg db ids intent fresh) ∙ kept)

-- The status of the order of a coin checkout that returns, with a session id that no order had
-- before: for its user it is pending, with the price and the coins of the package, and for anyone
-- else it is not found.
pub create_coin_checkout-get_order_status :
    (deps : PaymentsDeps) (prisma : Prisma) (user_id : Ident) (package_id : CoinPackageId)
    (return_url : Option String) (db db' : Db) (checkout : Checkout)
    → IsDocumented prisma
    → IsNew checkout.session_id none db.orders
    → create_coin_checkout deps prisma user_id package_id return_url db ≡ (ok checkout, db')
    → (pkg : CoinPackage) × (coin_packages package_id ≡ some pkg)
      × (get_order_status prisma user_id checkout.session_id db' ≡ (ok (opened_summary pkg), db'))
      × ((other_id : Ident)
          → other_id ≢ user_id
          → get_order_status prisma other_id checkout.session_id db'
            ≡ (err (domain not_found none), db'))
create_coin_checkout-get_order_status deps prisma user_id package_id return_url db db' checkout doc
      fresh =
    rw (eq_on_lists prisma doc) λ e.
      let uuid = uuid_of prisma in
      let ids = doc.uuid_is_new (λ (o : Order). o.id) db.orders in
      let (pkg, u, p, f, l, kept) =
        started deps uuid user_id package_id return_url db db' checkout e in
      let after = opens deps uuid user_id checkout.session_id none pkg db db' ids fresh kept in
      (
        pkg,
        p,
        subst
            (λ d.
              get_order_status (on_lists uuid) user_id checkout.session_id d
              ≡ (ok (opened_summary pkg), d))
            after (own_status deps uuid user_id checkout.session_id pkg db ids fresh),
        (λ other_id h.
            subst
              (λ d.
                get_order_status (on_lists uuid) other_id checkout.session_id d
                ≡ (err (domain not_found none), d))
              after
              (foreign_status deps uuid user_id checkout.session_id pkg db ids fresh other_id h)),
      )
