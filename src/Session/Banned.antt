-- ===== src/Session/Banned.antt =====
-- A user who is banned, and the methods that ask for the account.
use Prim.Native.String.{String}
use novelhub.Prelude.{ℕ, Bool, false, Option, none, some, ◌≡◌, refl, arith, inl, inr, Option-cases}
use novelhub.Action.{Ident, ok, err, domain, unauthorized}
use novelhub.Prisma.{Prisma, IsDocumented, Uuid, on_lists, uuid_of, eq_on_lists, first, update_rows}
use novelhub.Schema.{User, Subscription, Db, has_id}
use novelhub.Ledger.Updates.{first-update}
use novelhub.Auth.{Deps, JwtPayload, usable}
use novelhub.Auth.SignIn.{get_current_user, refresh}
use novelhub.Payments.Packages.{
  CoinPackageId, CoinPackage, coin_packages, SubscriptionPlanId, subscription_plans,
}
use novelhub.Payments.Stripe.{PaymentsDeps, may_pay}
use novelhub.Payments.Checkout.{
  require_user, create_coin_checkout, create_subscription_checkout, create_portal_session,
}
use novelhub.Session.{
  read_token, set_banned, find_subject, resolve_user, require_auth, update_banned, ban_user,
}

-- The stored row of a user is banned.
abbrev IsBanned : Ident → Db → Type 0
IsBanned id db =
    (u : User) × (first (has_id id) db.users ≡ some u)
    × (usable (some u) ≡ none)
    × (may_pay u ≡ false)

IsBanned-on_lists :
    (uuid : Uuid) (id r : Ident) (now : ℕ) (db db' : Db)
    → ban_user (on_lists uuid) id now db ≡ (ok r, db')
    → IsBanned id db'
unfolding ban_user update_banned
IsBanned-on_lists uuid id r now db db' e = elim (Option-cases (first (has_id id) db.users)) [
  | inl n ↦ absurd (ground arith)
  | inr (u, f) ↦
      let users_are : db'.users ≡ update_rows (has_id id) (set_banned (some now)) db.users =
        ground (arith, f) in
      (
        set_banned (some now) u,
        rw users_are (first-update id (set_banned (some now)) db.users u (λ v. refl) f),
        ground arith,
        ground arith,
      )
]

current_refused :
    (deps : Deps) (uuid : Uuid) (id : Ident) (later : ℕ) (db : Db)
    → IsBanned id db
    → get_current_user (on_lists uuid) deps id later db ≡ (err (domain unauthorized none), db)
unfolding get_current_user
current_refused deps uuid id later db (u, f, no_use, no_pay) = ground arith

refresh_refused :
    (deps : Deps) (uuid : Uuid) (token : Ident) (payload : JwtPayload) (db : Db)
    → deps.verify_refresh token ≡ some payload
    → IsBanned payload.sub db
    → refresh (on_lists uuid) deps token db ≡ (err (domain unauthorized none), db)
unfolding refresh
refresh_refused deps uuid token payload db v (u, f, no_use, no_pay) = ground arith

session_refused :
    (uuid : Uuid) (verify_access : String → Option JwtPayload) (cookie header : Option String)
    (token : String) (payload : JwtPayload) (db : Db)
    → read_token cookie header ≡ some token
    → verify_access token ≡ some payload
    → IsBanned payload.sub db
    → require_auth (on_lists uuid) verify_access cookie header db
      ≡ (err (domain unauthorized none), db)
unfolding require_auth resolve_user find_subject
session_refused uuid verify_access cookie header token payload db t v (u, f, no_use, no_pay) =
    ground arith

module _ (deps : PaymentsDeps) (uuid : Uuid) (id : Ident) (db : Db) (banned : IsBanned id db) where
  require_user_refused :
      require_user deps (on_lists uuid) id db ≡ (err (domain unauthorized none), db)
  unfolding require_user
  require_user_refused = let (u, f, no_use, no_pay) = banned in ground arith

  checkout_refused :
      (package_id : CoinPackageId) (pkg : CoinPackage) (return_url : Option String)
      → coin_packages package_id ≡ some pkg
      → create_coin_checkout deps (on_lists uuid) id package_id return_url db
        ≡ (err (domain unauthorized none), db)
  unfolding create_coin_checkout
  checkout_refused package_id pkg return_url p =
      let refused = require_user_refused in ground (arith, refused)

  subscription_refused :
      (plan : SubscriptionPlanId) (price_cents : ℕ) (return_url : Option String)
      → subscription_plans plan ≡ some price_cents
      → create_subscription_checkout deps (on_lists uuid) id plan return_url db
        ≡ (err (domain unauthorized none), db)
  unfolding create_subscription_checkout
  subscription_refused plan price_cents return_url p =
      let refused = require_user_refused in ground (arith, refused)

  portal_refused :
      (updated_last : Subscription → Subscription → Bool)
      → create_portal_session deps (on_lists uuid) updated_last id db
        ≡ (err (domain unauthorized none), db)
  unfolding create_portal_session
  portal_refused updated_last = let refused = require_user_refused in ground (arith, refused)

-- In the database right after the administration has banned a user, whatever the clock says, these
-- six calls for that user give a 401 and change nothing: a request with an access token of the user
-- that is still good, the refresh of a session with a good refresh token, the profile, a checkout of
-- a package of coins and one of a subscription plan that are on sale, and the billing portal.
pub ban_user-refused :
    (prisma : Prisma) (deps : Deps) (payments : PaymentsDeps)
    (verify_access : String → Option JwtPayload) (cookie header : Option String) (token : String)
    (payload : JwtPayload) (refresh_token : Ident) (refresh_payload : JwtPayload)
    (package_id : CoinPackageId) (pkg : CoinPackage) (plan : SubscriptionPlanId) (price_cents : ℕ)
    (updated_last : Subscription → Subscription → Bool) (return_url : Option String) (id r : Ident)
    (now later : ℕ) (db db' : Db)
    → IsDocumented prisma
    → read_token cookie header ≡ some token
    → verify_access token ≡ some payload
    → payload.sub ≡ id
    → deps.verify_refresh refresh_token ≡ some refresh_payload
    → refresh_payload.sub ≡ id
    → coin_packages package_id ≡ some pkg
    → subscription_plans plan ≡ some price_cents
    → ban_user prisma id now db ≡ (ok r, db')
    → (require_auth prisma verify_access cookie header db' ≡ (err (domain unauthorized none), db'))
      × (refresh prisma deps refresh_token db' ≡ (err (domain unauthorized none), db'))
      × (get_current_user prisma deps id later db' ≡ (err (domain unauthorized none), db'))
      × (create_coin_checkout payments prisma id package_id return_url db'
          ≡ (err (domain unauthorized none), db'))
      × (create_subscription_checkout payments prisma id plan return_url db'
          ≡ (err (domain unauthorized none), db'))
      × (create_portal_session payments prisma updated_last id db'
          ≡ (err (domain unauthorized none), db'))
ban_user-refused prisma deps payments verify_access cookie header token payload refresh_token
      refresh_payload package_id pkg plan price_cents updated_last return_url id r now later db db'
      doc t v same v' same' p q =
    rw (eq_on_lists prisma doc) λ e.
      let uuid = uuid_of prisma in
      let banned = IsBanned-on_lists uuid id r now db db' e in
      (
        session_refused uuid verify_access cookie header token payload db' t v (rw same banned),
        refresh_refused deps uuid refresh_token refresh_payload db' v' (rw same' banned),
        current_refused deps uuid id later db' banned,
        checkout_refused payments uuid id db' banned package_id pkg return_url p,
        subscription_refused payments uuid id db' banned plan price_cents return_url q,
        portal_refused payments uuid id db' banned updated_last,
      )
