-- ===== src/Auth/SignIn.antt =====
-- apps/api/src/modules/auth/auth.service.ts: `login`, `loginWithGoogle`, `refresh` and
-- `getCurrentUser`.
use Prim.Native.String.{String}
use novelhub.Prelude.{ℕ, true, false, none, some, not}
use novelhub.Action.{
  truthy, Ident, domain, unauthorized, pure, gets, or_throw, throw_if, match_option, ◌>>=◌, ◌>>◌,
}
use novelhub.Prisma.{Prisma}
use novelhub.Schema.{Action, User, has_id}
use novelhub.Catalog.{has_active_subscription}
use novelhub.Auth.{
  Deps, AuthUser, AuthResult, GoogleAuthResult, TokenPair, has_email, has_google_id, usable,
  non_empty, is_refresh, link_google, to_auth_user, issue_tokens, auth_result, enroll, update_user,
}

module _ (prisma : Prisma) (deps : Deps) where
  unfoldable pub login : String → String → ℕ → Action AuthResult
  login email password now = do
    found ← gets (λ db. prisma.find_first (has_email (deps.normalize_email email)) db.users)
    user ← or_throw (usable found) (domain unauthorized none)
    hashed ← or_throw user.password_hash (domain unauthorized none)
    throw_if (not (deps.compare password hashed)) (domain unauthorized none)
    gets (auth_result prisma deps user now)

  -- A first sign-in.
  unfoldable pub create_from_google : Ident → String → ℕ → Action GoogleAuthResult
  create_from_google google_id email now = do
    created ← prisma.transaction (enroll prisma deps email none (some google_id) true now)
    pure (record {
      result = record {
        user = to_auth_user created false;
        tokens = issue_tokens prisma deps created.id created.email;
      };
      is_new_user = true;
      created = true;
    })

  -- An account with the address of the Google account is linked to it.
  unfoldable pub link_by_email : Ident → User → ℕ → Action GoogleAuthResult
  link_by_email google_id existing now = do
    update_user prisma deps existing.id (link_google google_id)
    result ← gets (auth_result prisma deps (link_google google_id existing) now)
    pure (record { result = result; is_new_user = false; created = false })

  unfoldable pub sign_in_known : Ident → String → ℕ → Action GoogleAuthResult
  sign_in_known google_id email now = do
    by_google ← gets (λ db. prisma.find_first (has_google_id google_id) db.users)
    by_email ← gets (λ db. prisma.find_first (has_email email) db.users)
    match_option (usable by_google)
        (match_option (usable by_email) (create_from_google google_id email now)
          (λ existing. link_by_email google_id existing now))
        (λ existing. do
          result ← gets (auth_result prisma deps existing now)
          pure (record { result = result; is_new_user = false; created = false }))

  unfoldable pub login_with_google : Ident → ℕ → Action GoogleAuthResult
  login_with_google id_token now = do
    throw_if (not deps.google_configured) (domain unauthorized none)
    payload ← or_throw (deps.verify_google id_token) (domain unauthorized none)
    google_id ← or_throw (truthy payload.sub) (domain unauthorized none)
    email ← or_throw (non_empty payload.email) (domain unauthorized none)
    throw_if (not payload.email_verified) (domain unauthorized none)
    sign_in_known google_id (deps.normalize_email email) now

  unfoldable pub refresh : Ident → Action TokenPair
  refresh token = do
    payload ← or_throw (deps.verify_refresh token) (domain unauthorized none)
    throw_if (not (is_refresh payload.type)) (domain unauthorized none)
    id ← or_throw (truthy (some payload.sub)) (domain unauthorized none)
    found ← gets (λ db. prisma.find_first (has_id id) db.users)
    user ← or_throw (usable found) (domain unauthorized none)
    pure (issue_tokens prisma deps user.id user.email)

  unfoldable pub get_current_user : Ident → ℕ → Action AuthUser
  get_current_user user_id now = do
    found ← gets (λ db. prisma.find_first (has_id user_id) db.users)
    user ← or_throw (usable found) (domain unauthorized none)
    gets (λ db. to_auth_user user (has_active_subscription prisma user.id now db))
