-- ===== src/Payments/Settle.antt =====
-- webhook.service.ts: the transaction of a paid session, run again.
use Prim.Native.String.{String}
use novelhub.Prelude.{
  ℕ, true, false, Option, none, some, List, [], ◌∷◌, ◌++◌, ◌≡◌, ◌≢◌, refl, sym, arith, All,
  All-append, ◌==◌, inl, inr, ◌⊎◌, Option-cases, Bool-cases,
}
use novelhub.Prelude.Int.{ℤ}
use novelhub.Action.{Ident, ok}
use novelhub.Prisma.{
  Prisma, IsDocumented, Uuid, on_lists, uuid_of, eq_on_lists, first, update_rows, count_rows,
}
use novelhub.Prisma.Rows.{update_rows-none, update_clashes-none, update_rows-clears}
use novelhub.Schema.{Order, CoinTxnType, order_clash, Db}
use novelhub.Coins.{adjust_balance}
use novelhub.Coins.Frame.{adjust_frame}
use novelhub.Payments.Packages.{CoinPackageId, coin_packages}
use novelhub.Payments.Events.{Session}
use novelhub.Payments.Where.{of_session, is_pending_of, complete}
use novelhub.Payments.Orders.{
  Grant, find_order, complete_pending, create_order, grant_order, recovered_order, recover_order,
  settle_order,
}

abbrev NonePending : Ident → List Order → Type 0
NonePending session_id orders = All (λ o. is_pending_of session_id o ≡ false) orders

abbrev HasSession : Ident → List Order → Type 0
HasSession session_id orders = first (of_session session_id) orders ≢ none

last-HasSession :
    (session_id : Ident) (orders : List Order) (o : Order)
    → of_session session_id o ≡ true
    → HasSession session_id (orders ++ o ∷ [])
last-HasSession session_id [] o h = ground arith
last-HasSession session_id (p ∷ orders) o h = ground (arith, last-HasSession session_id orders o)

module _ (uuid : Uuid) (to_lower_case : String → String) (session : Session) (user_id : Ident)
    (package_id : CoinPackageId) where
  adjust_orders :
      (id : Ident) (amount : ℤ) (type : CoinTxnType) (related_id : Option Ident) (now : ℕ) (db : Db)
      → (adjust_balance (on_lists uuid) id amount type related_id now db).1.orders ≡ db.orders
  adjust_orders id amount type related_id now db =
      (adjust_frame (λ s. s.orders ≡ db.orders) (λ s users txns p. p) uuid id amount type related_id
          now).at
        db refl

  settled :
      (now : ℕ) (db : Db)
      → NonePending session.id db.orders
      → HasSession session.id db.orders
      → settle_order (on_lists uuid) to_lower_case session user_id package_id now db ≡ (ok none, db)
  unfolding settle_order complete_pending find_order recover_order
  settled now db p h =
      let (same, zero) =
        update_rows-none (is_pending_of session.id) (complete session.payment_intent now) db.orders
          p in
      let free =
        update_clashes-none order_clash (is_pending_of session.id)
          (complete session.payment_intent now) db.orders p in
      ground (arith, same, zero, free)

  grant_orders :
      (now : ℕ) (o : Option Order) (db db' : Db) (g : Grant)
      → grant_order (on_lists uuid) user_id now o db ≡ (ok (some g), db')
      → (o ≢ none) × (db'.orders ≡ db.orders)
  unfolding grant_order
  grant_orders now o db db' g e = grind (arith, adjust_orders)

  recover_orders :
      (now : ℕ) (o : Option Order) (db db' : Db) (g : Grant)
      → recover_order (on_lists uuid) to_lower_case session user_id package_id now o db
        ≡ (ok (some g), db')
      → (r : Order) × (of_session session.id r ≡ true)
        × (is_pending_of session.id r ≡ false)
        × (db'.orders ≡ db.orders ++ r ∷ [])
  unfolding recover_order create_order recovered_order
  recover_orders now (some o) db db' g e = absurd (ground arith)
  recover_orders now none db db' g e = elim (Option-cases (coin_packages package_id)) [
    | inl n ↦ absurd (ground arith)
    | inr (pkg, n) ↦ (
      recovered_order (on_lists uuid) to_lower_case session user_id pkg now
          (uuid Order (λ o. o.id) db.orders),
      ground arith,
      ground arith,
      grind (arith, adjust_orders),
    )
  ]

  abbrev claimed : ℕ → Db → Db
  claimed now db = record db {
    orders = update_rows (is_pending_of session.id) (complete session.payment_intent now) db.orders;
  }

  settle_splits :
      (now : ℕ) (db db' : Db) (g : Grant)
      → settle_order (on_lists uuid) to_lower_case session user_id package_id now db
        ≡ (ok (some g), db')
      → (o : Option Order) × (o ≡ first (of_session session.id) (claimed now db).orders)
        × ((recover_order
                (on_lists uuid)
                to_lower_case
                session
                user_id
                package_id
                now
                o
                (claimed now db)
              ≡ (ok (some g), db'))
            ⊎ (grant_order (on_lists uuid) user_id now o (claimed now db) ≡ (ok (some g), db')))
  unfolding settle_order complete_pending find_order
  settle_splits now db db' g e =
      elim (Bool-cases (count_rows (is_pending_of session.id) db.orders == 0)) [
        | inl z ↦ (first (of_session session.id) (claimed now db).orders, refl, inl (ground arith))
        | inr z ↦ (first (of_session session.id) (claimed now db).orders, refl, inr (ground arith))
      ]

  granted_orders :
      (now : ℕ) (db db' : Db) (g : Grant)
      → settle_order (on_lists uuid) to_lower_case session user_id package_id now db
        ≡ (ok (some g), db')
      → NonePending session.id db'.orders × HasSession session.id db'.orders
  granted_orders now db db' g e =
      let cleared =
        update_rows-clears (is_pending_of session.id) (complete session.payment_intent now)
          db.orders (λ o. ground arith) in
      let (o, found, split) = settle_splits now db db' g e in
      elim split [
        | inl r ↦
            let (row, of_it, done, after) = recover_orders now o (claimed now db) db' g r in
            rw after (
              All-append _ (claimed now db).orders cleared done,
              last-HasSession session.id (claimed now db).orders row of_it,
            )
        | inr r ↦
            let (there, after) = grant_orders now o (claimed now db) db' g r in
            rw after (cleared, rw (sym found) there)
      ]

-- Once the transaction of a paid session has granted its coins, the same transaction run again,
-- for another event that reports the session, grants nothing and changes nothing.
pub settle_order-again :
    (prisma : Prisma) (to_lower_case : String → String) (session : Session) (user_id : Ident)
    (package_id : CoinPackageId) (now later : ℕ) (db db' : Db) (g : Grant)
    → IsDocumented prisma
    → settle_order prisma to_lower_case session user_id package_id now db ≡ (ok (some g), db')
    → settle_order prisma to_lower_case session user_id package_id later db' ≡ (ok none, db')
settle_order-again prisma to_lower_case session user_id package_id now later db db' g doc =
    rw (eq_on_lists prisma doc) λ e.
      let (p, h) =
        granted_orders (uuid_of prisma) to_lower_case session user_id package_id now db db' g e in
      settled (uuid_of prisma) to_lower_case session user_id package_id later db' p h
