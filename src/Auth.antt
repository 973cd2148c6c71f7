-- ===== src/Auth.antt =====
-- apps/api/src/modules/auth/auth.service.ts: accounts, sign-in and tokens. The welcome mail, the
-- Facebook event and the reset mail are fire-and-forget calls whose failures are only logged; they
-- change nothing here and are left out.
pub mod SignIn
pub mod Account
pub mod Sound
pub mod Registered
mod Tests
use Prim.Native.String.{String}
use Prim.Native.String
use text.Mathlib.Text.{◌==◌ as str_eq}
use novelhub.Prelude.{
  ℕ, Bool, true, false, Option, none, some, List, [], ◌∷◌, ltb, ◌==◌, ◌&&◌, ◌||◌, is_none, is_some,
  not, if◌then◌else◌,
}
use novelhub.Prelude.Int.{ℤ, pos}
use novelhub.Action.{
  Ident, domain, conflict, unauthorized, bad_request, internal, unique_violation, record_not_found,
  ok, err, pure, throw, gets, or_throw, throw_if, match_option, ◌>>=◌, ◌>>◌,
}
use novelhub.Prisma.{Prisma}
use novelhub.Schema.{Action, User, Subscription, signup_bonus, user_clash, has_id, is_live, Db}
use novelhub.Catalog.{has_active_subscription, is_active_status}
use novelhub.Coins.{create_coin_txn}

-- `SIGNUP_BONUS_COINS`
abbrev pub signup_bonus_coins : ℤ
signup_bonus_coins = pos 20

pub data TokenType : Type 0 where
  access refresh_token reset : TokenType

pub record JwtPayload : Type 0 where
  pub sub : Ident
  pub type : TokenType

-- `ticket.getPayload()` of a Google sign-in, once the token is verified.
pub record GooglePayload : Type 0 where
  pub sub : Option Ident
  pub email : Option String
  pub email_verified : Bool

-- How Stripe answers a cancellation: done, an error that says there is nothing to cancel, or any
-- other error.
pub data Cancellation : Type 0 where
  done nothing_to_cancel refused : Cancellation

-- What the service calls outside the repository. A token is compared and passed on, so it is an Ident.
pub record Deps : Type 0 where
  -- `email.trim().toLowerCase()`
  pub normalize_email : String → String
  -- `bcrypt.hash(password, 12)` and `bcrypt.compare`
  pub hash : String → String
  pub compare : String → String → Bool
  pub sign_access : Ident → String → Ident
  pub sign_refresh : Ident → Ident
  -- `verifyAsync` of the refresh and reset secrets; `none` where it throws
  pub verify_refresh : Ident → Option JwtPayload
  pub verify_reset : Ident → Option JwtPayload
  -- `GOOGLE_CLIENT_ID` is set, and `verifyIdToken`
  pub google_configured : Bool
  pub verify_google : Ident → Option GooglePayload
  -- `stripe.get()` succeeds, and `subscriptions.cancel`
  pub stripe_configured : Bool
  pub cancel_subscription : Ident → Cancellation

pub record AuthUser : Type 0 where
  pub id : Ident
  pub email : String
  pub coin_balance : ℤ
  pub has_password : Bool
  pub has_active_subscription : Bool
  pub is_admin : Bool
  pub banned_at : Option ℕ

pub record TokenPair : Type 0 where
  pub access_token : Ident
  pub refresh_token : Ident

pub record AuthResult : Type 0 where
  pub user : AuthUser
  pub tokens : TokenPair

pub record GoogleAuthResult : Type 0 where
  pub result : AuthResult
  pub is_new_user : Bool
  pub created : Bool

abbrev pub has_email : String → User → Bool
has_email email u = str_eq u.email email

abbrev pub has_google_id : Ident → User → Bool
has_google_id google_id u = elim u.google_id [ none ↦ false | some g ↦ g == google_id ]

-- `!user.deletedAt && !user.bannedAt`
abbrev pub is_usable : User → Bool
is_usable u = is_live u && is_none u.banned_at

-- A user that is found and usable.
abbrev pub usable : Option User → Option User
usable none = none
usable (some u) = if is_usable u then some u else none

-- `!emailRaw`
abbrev pub non_empty : Option String → Option String
non_empty none = none
non_empty (some s) = if str_eq s "" then none else some s

abbrev pub is_refresh : TokenType → Bool
is_refresh refresh_token = true
is_refresh _ = false

abbrev pub is_reset : TokenType → Bool
is_reset reset = true
is_reset _ = false

abbrev pub link_google : Ident → User → User
link_google google_id u = record u { google_id = some google_id; email_verified = true }

abbrev pub set_deleted : ℕ → User → User
set_deleted now u = record u { deleted_at = some now }

abbrev pub set_password : String → User → User
set_password hashed u = record u { password_hash = some hashed }

-- `status: { in: [...SUBSCRIPTION_ACTIVE_STATUSES] }`, whatever the period.
abbrev pub is_cancelable : Ident → Subscription → Bool
is_cancelable user_id s = s.user_id == user_id && is_active_status s.status

abbrev pub to_auth_user : User → Bool → AuthUser
to_auth_user u has_sub = record {
  id = u.id;
  email = u.email;
  coin_balance = u.coin_balance;
  has_password = is_some u.password_hash;
  has_active_subscription = has_sub;
  is_admin = u.is_admin;
  banned_at = u.banned_at;
}

module _ (prisma : Prisma) (deps : Deps) where
  pub issue_tokens : Ident → String → TokenPair
  issue_tokens id email = record {
    access_token = deps.sign_access id email;
    refresh_token = deps.sign_refresh id;
  }

  pub auth_result : User → ℕ → Db → AuthResult
  auth_result u now db = record {
    user = to_auth_user u (has_active_subscription prisma u.id now db);
    tokens = issue_tokens u.id u.email;
  }

  -- The row of a new account.
  pub new_user : String → Option String → Option Ident → Bool → Db → User
  new_user email password_hash google_id verified db = record {
    id = prisma.uuid (λ (u : User). u.id) db.users;
    email = email;
    password_hash = password_hash;
    google_id = google_id;
    stripe_customer_id = none;
    coin_balance = signup_bonus_coins;
    email_verified = verified;
    is_admin = false;
    banned_at = none;
    deleted_at = none;
  }

  pub create_user : User → Action (Unit {0})
  create_user u db = elim (prisma.create user_clash u db.users) [
    | none ↦ (err unique_violation, db)
    | some users ↦ (ok tt, record db { users = users })
  ]

  -- The transaction's body: the user and the audit row of the bonus.
  pub enroll : String → Option String → Option Ident → Bool → ℕ → Action User
  enroll email password_hash google_id verified now = do
    u ← gets (new_user email password_hash google_id verified)
    create_user u
    id ← gets (λ db. prisma.uuid (λ t. t.id) db.coin_txns)
    create_coin_txn prisma (record {
      id = id;
      user_id = u.id;
      amount = signup_bonus_coins;
      type = signup_bonus;
      related_id = none;
      balance_after = signup_bonus_coins;
      created_at = now;
    })
    pure u

  pub register : String → String → ℕ → Action AuthResult
  register email password now = do
    let normalized = deps.normalize_email email
    existing ← gets (λ db. prisma.find_first (has_email normalized) db.users)
    throw_if (is_some existing) (domain conflict none)
    created ← prisma.transaction (enroll normalized (some (deps.hash password)) none false now)
    pure (record {
      user = to_auth_user created false;
      tokens = issue_tokens created.id created.email;
    })

  -- `user.update({ where: { id }, data })`
  pub update_user : Ident → (User → User) → Action (Unit {0})
  update_user id f db = elim (prisma.update user_clash (has_id id) f db.users) [
    | ok users ↦ (ok tt, record db { users = users })
    | err e ↦ (err e, db)
  ]
