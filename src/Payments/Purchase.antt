-- ===== src/Payments/Purchase.antt =====
-- A purchase of coins, from its checkout in payments.service.ts to the webhook that settles it.
use Prim.Native.String.{String}
use mathlib.Core.Path.{subst}
use novelhub.Prelude.{
  ℕ, true, false, Option, some, List, [], ◌∷◌, ◌++◌, ◌≡◌, ◌≢◌, refl, arith, All, All-map,
}
use novelhub.Prelude.Int.{pos, ◌+ℤ◌, ltb_ℤ, is_zero}
use novelhub.Action.{Ident, ok}
use novelhub.Prisma.{Prisma, IsDocumented, Uuid, on_lists, uuid_of, eq_on_lists, first}
use novelhub.Prisma.Rows.{first-last, All-first, update_rows-last, update_clashes-last}
use novelhub.Schema.{User, Order, purchase, order_clash, Db, has_id, is_live, CoinTransaction}
use novelhub.Ledger.{HaveUniqueIds}
use novelhub.Coins.Granted.{granted, granted-user, adjust_balance-granted}
use novelhub.Payments.Packages.{
  CoinPackage, CoinPackageId, coin_packages, pack_50, pack_120, pack_260, pack_700, unknown_package,
}
use novelhub.Payments.Events.{Session}
use novelhub.Payments.Where.{of_session, is_pending_of, complete}
use novelhub.Payments.Orders.{Grant, find_order, complete_pending, grant_order, settle_order}
use novelhub.Payments.Opened.{IsNew, opened, pending_db, started, opens}
use novelhub.Payments.Stripe.{PaymentsDeps, Checkout, may_pay}
use novelhub.Payments.Checkout.{create_coin_checkout}

-- A package grants coins.
package_has_coins :
    (id : CoinPackageId) (pkg : CoinPackage)
    → coin_packages id ≡ some pkg
    → (ltb_ℤ (pos 0) pkg.coins ≡ true)
      × (is_zero pkg.coins ≡ false)
      × (ltb_ℤ pkg.coins (pos 0) ≡ false)
package_has_coins pack_50 pkg e = ground arith
package_has_coins pack_120 pkg e = ground arith
package_has_coins pack_260 pkg e = ground arith
package_has_coins pack_700 pkg e = ground arith
package_has_coins unknown_package pkg e = absurd (ground arith)

-- What the webhook's transaction does to an order that is paid.
abbrev pub IsPaid :
    Prisma → (String → String) → Session → Ident → CoinPackageId → ℕ → Db → Db → Type 0
IsPaid prisma to_lower_case session user_id package_id now db db' =
    (pkg : CoinPackage) × (u : User) × (g : Grant) × (paid_db : Db) × (coin_packages package_id
      ≡ some pkg)
    × (first (has_id user_id) db.users ≡ some u)
    × (settle_order prisma to_lower_case session user_id package_id now db'
        ≡ (ok (some g), paid_db))
    × (g.coins_granted ≡ pkg.coins)
    × (first (has_id user_id) paid_db.users
        ≡ some (record u { coin_balance = u.coin_balance +ℤ pkg.coins }))

module _ (deps : PaymentsDeps) (uuid : Uuid) (to_lower_case : String → String) (session : Session)
    (user_id : Ident) (package_id : CoinPackageId) (pkg : CoinPackage) (now : ℕ) (db : Db)
    (u : User) (p : coin_packages package_id ≡ some pkg)
    (e : first (has_id user_id) db.users ≡ some u) (l : may_pay u ≡ true)
    (unique : HaveUniqueIds db.users)
    (new_orders : All (λ (o : Order). o.id ≢ uuid Order (λ o. o.id) db.orders) db.orders)
    (new_txns : All
      (λ (t : CoinTransaction). t.id ≢ uuid CoinTransaction (λ t. t.id) db.coin_txns)
      db.coin_txns)
    (fresh : IsNew session.id session.payment_intent db.orders) where
  abbrev order : Order
  order = opened deps uuid user_id session.id pkg db new_orders

  abbrev paid : Order
  paid = complete session.payment_intent now order

  abbrev paid_db : Db
  paid_db = record db { orders = db.orders ++ paid ∷ [] }

  none_pending : All (λ o. is_pending_of session.id o ≡ false) db.orders
  none_pending = All-map _ _ db.orders (λ o h. ground (arith, h.0)) fresh

  none_of_session : All (λ o. of_session session.id o ≡ false) db.orders
  none_of_session = All-map _ _ db.orders (λ o h. ground (arith, h.0)) fresh

  no_clash :
      (orders : List Order)
      → All (λ (o : Order). o.id ≢ paid.id) orders
      → IsNew session.id session.payment_intent orders
      → All (λ o. order_clash o paid ≡ false) orders
  no_clash [] h k = tt
  no_clash (o ∷ orders) h k = (ground (arith, h.0, k.0.0, k.0.1), no_clash orders h.1 k.1)

  completes :
      complete_pending
        (on_lists uuid)
        session
        now
        (pending_db deps uuid user_id session.id pkg db new_orders)
      ≡ (ok 1, paid_db)
  unfolding complete_pending
  completes =
      let chosen : is_pending_of session.id order ≡ true = ground arith in
      let f = complete session.payment_intent now in
      let rows =
        update_rows-last (is_pending_of session.id) f order chosen db.orders none_pending in
      let free =
        update_clashes-last (is_pending_of session.id) f order chosen order_clash db.orders
          none_pending (no_clash db.orders new_orders fresh) in
      ground (arith, rows, free)

  found : find_order (on_lists uuid) (of_session session.id) paid_db ≡ some paid
  unfolding find_order
  found =
      first-last (of_session session.id) db.orders paid
        (All-first (of_session session.id) db.orders none_of_session) (ground arith)

  abbrev the_grant : Grant
  the_grant = record {
    order_id = order.id;
    coins_granted = pkg.coins;
    amount_minor = pkg.price_cents;
    currency = "usd";
  }

  abbrev settled_db : Db
  settled_db = granted uuid user_id pkg.coins purchase (some order.id) now paid_db u

  grants :
      grant_order (on_lists uuid) user_id now (some paid) paid_db
      ≡ (ok (some the_grant), settled_db)
  unfolding grant_order
  grants =
      let (has, z, s) = package_has_coins package_id pkg p in
      let live : is_live u ≡ true = ground arith in
      let (r, done) =
        adjust_balance-granted uuid user_id pkg.coins purchase (some order.id) now paid_db u e
          unique live z s refl new_txns in
      ground (arith, has, done)

  settles :
      settle_order
        (on_lists uuid)
        to_lower_case
        session
        user_id
        package_id
        now
        (pending_db deps uuid user_id session.id pkg db new_orders)
      ≡ (ok (some the_grant), settled_db)
  unfolding settle_order
  settles = ground (arith, completes, found, grants)

  pays :
      IsPaid
        (on_lists uuid)
        to_lower_case
        session
        user_id
        package_id
        now
        db
        (pending_db deps uuid user_id session.id pkg db new_orders)
  pays = (
    pkg,
    u,
    the_grant,
    settled_db,
    p,
    e,
    settles,
    refl,
    granted-user uuid user_id pkg.coins purchase (some order.id) now paid_db u e,
  )

-- Where ids of users are unique, a coin checkout that returns leads to its coins: once Stripe
-- reports its session as paid, with a session id and a payment intent that no order had before, the
-- webhook's transaction grants exactly the coins of the package that the reader chose, and the
-- balance of the reader has grown by them.
pub create_coin_checkout-settle_order :
    (deps : PaymentsDeps) (prisma : Prisma) (to_lower_case : String → String) (session : Session)
    (user_id : Ident) (package_id : CoinPackageId) (return_url : Option String) (now : ℕ)
    (db db' : Db) (checkout : Checkout)
    → IsDocumented prisma
    → HaveUniqueIds db.users
    → IsNew session.id session.payment_intent db.orders
    → session.id ≡ checkout.session_id
    → create_coin_checkout deps prisma user_id package_id return_url db ≡ (ok checkout, db')
    → IsPaid prisma to_lower_case session user_id package_id now db db'
create_coin_checkout-settle_order deps prisma to_lower_case session user_id package_id return_url
      now db db' checkout doc unique fresh same =
    rw (eq_on_lists prisma doc) λ e.
      let uuid = uuid_of prisma in
      let ids = doc.uuid_is_new (λ (o : Order). o.id) db.orders in
      let txns = doc.uuid_is_new (λ (t : CoinTransaction). t.id) db.coin_txns in
      let (pkg, u, p, f, l, kept) =
        started deps uuid user_id package_id return_url db db' checkout e in
      let after =
        opens deps uuid user_id session.id session.payment_intent pkg db db' ids fresh
          (rw same kept) in
      subst (IsPaid (on_lists uuid) to_lower_case session user_id package_id now db) after (
        pays deps uuid to_lower_case session user_id package_id pkg now db u p f l unique ids txns
          fresh)
