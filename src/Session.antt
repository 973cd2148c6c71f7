-- ===== src/Session.antt =====
-- apps/api/src/worker/middleware/auth.ts: who a request is from; and the bans of
-- apps/api/src/modules/admin/admin.service.ts. The verification of a token is an argument.
pub mod Banned
pub mod Sound
mod Tests
use Prim.Native.String.{String}
use Prim.Native.String
use text.Mathlib.Text.{starts_with}
use novelhub.Prelude.{
  ℕ, zero, suc, Bool, true, false, Option, none, some, not, is_none, is_some, if◌then◌else◌,
}
use novelhub.Action.{
  Ident, unauthorized, forbidden, domain, ok, err, pure, gets, or_throw, throw_if, truthy, ◌>>=◌,
  ◌>>◌,
}
use novelhub.Prisma.{Prisma}
use novelhub.Schema.{Action, User, user_clash, has_id, Db}
use novelhub.Auth.{TokenType, access, JwtPayload, usable, non_empty}

pub record AuthedUser : Type 0 where
  pub id : Ident
  pub email : String
  pub is_admin : Bool

-- `s.slice(n)`
abbrev pub drop_chars : ℕ → String → String
drop_chars zero s = s
drop_chars (suc n) String.[] = String.[]
drop_chars (suc n) (String.◌∷◌ c s) = drop_chars n s

abbrev pub is_access : TokenType → Bool
is_access access = true
is_access _ = false

-- `readToken`: the cookie, or else the bearer token of the header `Authorization`.
abbrev pub read_token : Option String → Option String → Option String
read_token cookie header = elim (non_empty cookie) [
  | some c ↦ some c
  | none ↦ elim (non_empty header) [
    | none ↦ none
    | some h ↦ if starts_with h "Bearer " then some (drop_chars 7 h) else none
  ]
]

abbrev pub to_authed_user : User → AuthedUser
to_authed_user u = record { id = u.id; email = u.email; is_admin = u.is_admin }

abbrev pub set_banned : Option ℕ → User → User
set_banned at u = record u { banned_at = at }

-- The subject of a token that is verified, is an access token and names a user.
abbrev pub subject_of : Option JwtPayload → Option Ident
subject_of none = none
subject_of (some p) = if is_access p.type then truthy (some p.sub) else none

module _ (prisma : Prisma) where
  module _ (verify_access : String → Option JwtPayload) where
    unfoldable pub find_subject : Option Ident → Db → Option AuthedUser
    find_subject none db = none
    find_subject (some id) db = elim (usable (prisma.find_first (has_id id) db.users)) [
      | none ↦ none
      | some u ↦ some (to_authed_user u)
    ]

    unfoldable pub resolve_user : Option String → Db → Option AuthedUser
    resolve_user token db = elim (non_empty token) [
      | none ↦ none
      | some t ↦ find_subject (subject_of (verify_access t)) db
    ]

    unfoldable pub require_auth : Option String → Option String → Action AuthedUser
    require_auth cookie header = do
      user ← gets (resolve_user (read_token cookie header))
      or_throw user (domain unauthorized none)

    unfoldable pub optional_auth : Option String → Option String → Action (Option AuthedUser)
    optional_auth cookie header = gets (resolve_user (read_token cookie header))

    unfoldable pub require_admin : Option String → Option String → Action AuthedUser
    require_admin cookie header = do
      found ← gets (resolve_user (read_token cookie header))
      user ← or_throw found (domain unauthorized none)
      throw_if (not user.is_admin) (domain forbidden none)
      pure user

  -- `user.update({ where: { id }, data: { bannedAt } })`
  unfoldable pub update_banned : Ident → Option ℕ → Action Ident
  update_banned id at db = elim (prisma.update user_clash (has_id id) (set_banned at) db.users) [
    | err e ↦ (err e, db)
    | ok users ↦ (ok id, record db { users = users })
  ]

  unfoldable pub ban_user : Ident → ℕ → Action Ident
  ban_user id now = update_banned id (some now)

  unfoldable pub unban_user : Ident → Action Ident
  unban_user id = update_banned id none
