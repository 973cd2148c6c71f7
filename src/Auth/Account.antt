-- ===== src/Auth/Account.antt =====
-- apps/api/src/modules/auth/auth.service.ts: `deleteAccount`, `forgotPassword` and
-- `resetPassword`.
use Prim.Native.String.{String}
use Prim.Native.String
use novelhub.Prelude.{ℕ, Option, none, some, List, [], ◌∷◌, ltb, not, ◌||◌, if◌then◌else◌}
use novelhub.Action.{
  truthy, Ident, domain, unauthorized, bad_request, internal, pure, throw, gets, or_throw, throw_if,
  match_option, ◌>>=◌, ◌>>◌,
}
use novelhub.Prisma.{Prisma}
use novelhub.Schema.{Action, User, Subscription, has_id, is_live}
use novelhub.Auth.{
  Deps, Cancellation, done, nothing_to_cancel, refused, is_reset, set_deleted, set_password,
  is_cancelable, update_user, has_email,
}

-- The first two conditions and `!user.deletedAt`.
abbrev pub live : Option User → Option User
live none = none
live (some u) = if is_live u then some u else none

module _ (prisma : Prisma) (deps : Deps) where
  -- An account with a password is deleted only with that password, of eight characters or more
  -- (JavaScript counts a character beyond 16 bits twice; here it counts once).
  unfoldable pub check_password : Option String → Option String → Action (Unit {0})
  check_password none password = pure tt
  check_password (some hashed) none = throw (domain unauthorized none)
  check_password (some hashed) (some password) =
      throw_if (ltb (String.count password) 8 || not (deps.compare password hashed))
        (domain unauthorized none)

  -- One round of the loop: an error that says there is nothing to cancel is passed over.
  unfoldable pub cancel_one : Cancellation → Action (Unit {0})
  cancel_one done = pure tt
  cancel_one nothing_to_cancel = pure tt
  cancel_one refused = throw (domain internal none)

  unfoldable pub cancel_all : List Subscription → Action (Unit {0})
  cancel_all [] = pure tt
  cancel_all (s ∷ subs) =
      cancel_one (deps.cancel_subscription s.stripe_subscription_id) >> cancel_all subs

  unfoldable pub cancel_subscriptions : List Subscription → Action (Unit {0})
  cancel_subscriptions [] = pure tt
  cancel_subscriptions (s ∷ subs) =
      throw_if (not deps.stripe_configured) (domain internal none) >> cancel_all (s ∷ subs)

  unfoldable pub delete_account : Ident → Option String → ℕ → Action (Unit {0})
  delete_account user_id password now = do
    found ← gets (λ db. prisma.find_first (has_id user_id) db.users)
    match_option (live found) (pure tt) λ user. do
      check_password user.password_hash password
      subs ← gets (λ db. prisma.find_all (is_cancelable user_id) db.subscriptions)
      cancel_subscriptions subs
      update_user prisma deps user.id (set_deleted now)

  -- Whether a reset mail is sent, and to which user.
  unfoldable pub forgot_password : String → Action (Option Ident)
  forgot_password email = do
    found ← gets (λ db. prisma.find_first (has_email (deps.normalize_email email)) db.users)
    match_option (live found) (pure none) λ user. pure (some user.id)

  unfoldable pub reset_password : Ident → String → Action (Unit {0})
  reset_password token new_password = do
    payload ← or_throw (deps.verify_reset token) (domain bad_request none)
    throw_if (not (is_reset payload.type)) (domain bad_request none)
    id ← or_throw (truthy (some payload.sub)) (domain bad_request none)
    found ← gets (λ db. prisma.find_first (has_id id) db.users)
    user ← or_throw (live found) (domain bad_request none)
    update_user prisma deps user.id (set_password (deps.hash new_password))
