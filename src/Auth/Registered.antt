-- ===== src/Auth/Registered.antt =====
-- `register` and `login` of auth.service.ts, one after the other.
use Prim.Native.String.{String}
use novelhub.Prelude.{
  ℕ, true, false, none, some, [], ◌∷◌, ◌++◌, ◌≡◌, refl, sym, arith, inl, inr, Option-cases,
}
use novelhub.Action.{ok, err, domain, conflict}
use novelhub.Prisma.{Prisma, IsDocumented, Uuid, on_lists, uuid_of, eq_on_lists, first}
use novelhub.Prisma.Rows.{first-last}
use novelhub.Schema.{User, Db, user_clash}
use novelhub.Coins.{create_coin_txn}
use novelhub.Auth.{
  Deps, AuthResult, has_email, signup_bonus_coins, new_user, create_user, enroll, register,
  auth_result,
}
use novelhub.Auth.SignIn.{login}
use text.Mathlib.TextPositions.{eq_refl}

module _ (uuid : Uuid) (deps : Deps) (email password : String) (now : ℕ) (db db' : Db)
    (r : AuthResult) (e : register (on_lists uuid) deps email password now db ≡ (ok r, db')) where
  abbrev address : String
  address = deps.normalize_email email

  abbrev row : User
  row = new_user (on_lists uuid) deps address (some (deps.hash password)) none false db

  was_free : first (has_email address) db.users ≡ none
  unfolding register
  was_free = elim (Option-cases (first (has_email address) db.users)) [
    | inl n ↦ n
    | inr (u, f) ↦ absurd (ground arith)
  ]

  is_stored : (db'.users ≡ db.users ++ row ∷ []) × (r.user.id ≡ row.id)
  unfolding register enroll create_user new_user create_coin_txn
  is_stored =
      let free = was_free in
      elim (Option-cases (first (user_clash row) db.users)) [
        | inl n ↦ (ground (arith, free, n), ground (arith, free, n))
        | inr (u, f) ↦ absurd (ground (arith, free, f))
      ]

  is_found : first (has_email address) db'.users ≡ some row
  unfolding new_user
  is_found =
      rw (is_stored.0) (first-last (has_email address) db.users row was_free (eq_refl address))

  logs_in :
      (later : ℕ)
      → deps.compare password (deps.hash password) ≡ true
      → login (on_lists uuid) deps email password later db'
        ≡ (ok (auth_result (on_lists uuid) deps row later db'), db')
  unfolding login new_user
  logs_in later h = let found = is_found in ground (arith, found, h)

  same_account :
      (later : ℕ)
      → let s : AuthResult = auth_result (on_lists uuid) deps row later db' in
        (s.user.id ≡ r.user.id) × (s.user.coin_balance ≡ signup_bonus_coins)
  unfolding auth_result new_user
  same_account later = (sym is_stored.1, refl)

  is_taken :
      (other : String) (later : ℕ)
      → register (on_lists uuid) deps email other later db' ≡ (err (domain conflict none), db')
  unfolding register
  is_taken other later = let found = is_found in ground (arith, found)

-- Where bcrypt accepts a password against its own hash: in the database right after a registration,
-- whatever the clock says by then, a login with the same address and password succeeds, changes
-- nothing and gives the account that the registration has made, with the coins of the signup bonus.
pub register-login :
    (prisma : Prisma) (deps : Deps) (email password : String) (now later : ℕ) (db db' : Db)
    (r : AuthResult)
    → IsDocumented prisma
    → deps.compare password (deps.hash password) ≡ true
    → register prisma deps email password now db ≡ (ok r, db')
    → (s : AuthResult) × (login prisma deps email password later db' ≡ (ok s, db'))
      × (s.user.id ≡ r.user.id)
      × (s.user.coin_balance ≡ signup_bonus_coins)
register-login prisma deps email password now later db db' r doc h =
    rw (eq_on_lists prisma doc) λ e.
      let uuid = uuid_of prisma in
      (
        auth_result (on_lists uuid) deps (row uuid deps email password now db db' r e) later db',
        logs_in uuid deps email password now db db' r e later h,
        (same_account uuid deps email password now db db' r e later).0,
        (same_account uuid deps email password now db db' r e later).1,
      )

-- A second registration with the address of an account is refused with 409, whatever the password,
-- and changes nothing.
pub register-again :
    (prisma : Prisma) (deps : Deps) (email password other : String) (now later : ℕ) (db db' : Db)
    (r : AuthResult)
    → IsDocumented prisma
    → register prisma deps email password now db ≡ (ok r, db')
    → register prisma deps email other later db' ≡ (err (domain conflict none), db')
register-again prisma deps email password other now later db db' r doc =
    rw (eq_on_lists prisma doc)
      λ e. is_taken (uuid_of prisma) deps email password now db db' r e other later
