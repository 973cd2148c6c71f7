-- ===== src/Auth/Sound.antt =====
-- The methods of auth.service.ts and the coin ledger.
use Prim.Native.String.{String}
use novelhub.Prelude.{
  ℕ, Bool, Option, none, some, List, [], ◌∷◌, ◌++◌, ◌≡◌, refl, arith, ◌⊎◌, inl, inr,
}
use novelhub.Action.{Ident, ok}
use novelhub.Prisma.{Uuid, on_lists, first, update_rows}
use novelhub.Schema.{User, Subscription, CoinTransaction, signup_bonus, user_clash, has_id, Db}
use novelhub.Ledger.{IsSound}
use novelhub.Ledger.Sound.{relabel-IsSound}
use novelhub.Ledger.Join.{joined-IsSound, unique_of_insert}
use novelhub.Ledger.Keeps.{Keeps, KeepsIfOk, ok_of_result, keeps_rules, Keeps-bind}
use novelhub.Coins.{create_coin_txn}
use novelhub.Auth.{
  Deps, Cancellation, done, nothing_to_cancel, refused, link_google, set_deleted, set_password,
  signup_bonus_coins, new_user, update_user, create_user, enroll, register,
}
use novelhub.Auth.SignIn.{create_from_google, link_by_email, sign_in_known, login_with_google}
use novelhub.Auth.Account.{
  check_password, cancel_one, cancel_all, cancel_subscriptions, delete_account, reset_password,
}

module _ (uuid : Uuid) (deps : Deps) where
  abbrev bonus_row : User → ℕ → Db → CoinTransaction
  bonus_row u now db = record {
    id = uuid CoinTransaction (λ t. t.id) db.coin_txns;
    user_id = u.id;
    amount = signup_bonus_coins;
    type = signup_bonus;
    related_id = none;
    balance_after = signup_bonus_coins;
    created_at = now;
  }

  module _ (email : String) (password_hash : Option String) (google_id : Option Ident)
      (verified : Bool) (now : ℕ) where
    abbrev row : Db → User
    row db = new_user (on_lists uuid) deps email password_hash google_id verified db

    enroll_returns :
        (db db' : Db) (v : User)
        → enroll (on_lists uuid) deps email password_hash google_id verified now db ≡ (ok v, db')
        → (first (user_clash (row db)) db.users ≡ none)
          × (db' ≡ record db {
            users = db.users ++ row db ∷ [];
            coin_txns = db.coin_txns ++ bonus_row (row db) now db ∷ [];
          })
    unfolding enroll create_user create_coin_txn
    enroll_returns db db' v e = ground arith

    enroll_ok :
        KeepsIfOk IsSound (enroll (on_lists uuid) deps email password_hash google_id verified now)
    unfolding new_user
    enroll_ok = ok_of_result _ λ db db' v s e.
        let (new, after) = enroll_returns db db' v e in
        rw after (
          joined-IsSound (row db) (bonus_row (row db) now db) db s
            (unique_of_insert (row db) db.users new) refl refl refl (omega arith))

  update_user_returns :
      (id : Ident) (f : User → User) (db : Db)
      → ((update_user (on_lists uuid) deps id f db).1 ≡ db)
        ⊎ ((update_user (on_lists uuid) deps id f db).1
            ≡ record db { users = update_rows (has_id id) f db.users })
  unfolding update_user
  update_user_returns id f db = ground arith

  update_user-Keeps :
      (id : Ident) (f : User → User)
      → ((u : User) → ((f u).id ≡ u.id) × ((f u).coin_balance ≡ u.coin_balance))
      → Keeps IsSound (update_user (on_lists uuid) deps id f)
  update_user-Keeps id f k = record {
    at = λ db s. elim (update_user_returns id f db) [
      | inl same ↦ rw same s
      | inr after ↦ rw after (relabel-IsSound (has_id id) f db k s)
    ];
  }

  link_google-Keeps :
      (id google_id : Ident)
      → Keeps IsSound (update_user (on_lists uuid) deps id (link_google google_id))
  link_google-Keeps id google_id = update_user-Keeps id (link_google google_id) (λ u. (refl, refl))

  set_password-Keeps :
      (id : Ident) (hashed : String)
      → Keeps IsSound (update_user (on_lists uuid) deps id (set_password hashed))
  set_password-Keeps id hashed = update_user-Keeps id (set_password hashed) (λ u. (refl, refl))

  set_deleted-Keeps :
      (id : Ident) (now : ℕ) → Keeps IsSound (update_user (on_lists uuid) deps id (set_deleted now))
  set_deleted-Keeps id now = update_user-Keeps id (set_deleted now) (λ u. (refl, refl))

  pub register-Keeps :
      (email password : String) (now : ℕ)
      → Keeps IsSound (register (on_lists uuid) deps email password now)
  unfolding register
  register-Keeps email password now = search (keeps_rules, enroll_ok) depth 9

  create_from_google-Keeps :
      (google_id : Ident) (email : String) (now : ℕ)
      → Keeps IsSound (create_from_google (on_lists uuid) deps google_id email now)
  unfolding create_from_google
  create_from_google-Keeps google_id email now = search (keeps_rules, enroll_ok) depth 9

  link_by_email-Keeps :
      (google_id : Ident) (u : User) (now : ℕ)
      → Keeps IsSound (link_by_email (on_lists uuid) deps google_id u now)
  unfolding link_by_email
  link_by_email-Keeps google_id u now = search (keeps_rules, link_google-Keeps)

  sign_in_known-Keeps :
      (google_id : Ident) (email : String) (now : ℕ)
      → Keeps IsSound (sign_in_known (on_lists uuid) deps google_id email now)
  unfolding sign_in_known
  sign_in_known-Keeps google_id email now =
      search (keeps_rules, create_from_google-Keeps, link_by_email-Keeps) depth 9

  pub login_with_google-Keeps :
      (id_token : Ident) (now : ℕ)
      → Keeps IsSound (login_with_google (on_lists uuid) deps id_token now)
  unfolding login_with_google
  login_with_google-Keeps id_token now = search (keeps_rules, sign_in_known-Keeps) depth 14

  check_password-Keeps :
      (hashed password : Option String)
      → Keeps IsSound (check_password (on_lists uuid) deps hashed password)
  unfolding check_password
  check_password-Keeps none password = search keeps_rules
  check_password-Keeps (some h) none = search keeps_rules
  check_password-Keeps (some h) (some p) = search keeps_rules

  cancel_one-Keeps : (c : Cancellation) → Keeps IsSound (cancel_one (on_lists uuid) deps c)
  unfolding cancel_one
  cancel_one-Keeps done = search keeps_rules
  cancel_one-Keeps nothing_to_cancel = search keeps_rules
  cancel_one-Keeps refused = search keeps_rules

  cancel_all-Keeps :
      (subs : List Subscription) → Keeps IsSound (cancel_all (on_lists uuid) deps subs)
  unfolding cancel_all
  cancel_all-Keeps [] = search keeps_rules
  cancel_all-Keeps (s ∷ subs) =
      Keeps-bind _ _ (cancel_one-Keeps (deps.cancel_subscription s.stripe_subscription_id))
        (λ _. cancel_all-Keeps subs)

  cancel_subscriptions-Keeps :
      (subs : List Subscription) → Keeps IsSound (cancel_subscriptions (on_lists uuid) deps subs)
  unfolding cancel_subscriptions
  cancel_subscriptions-Keeps [] = search keeps_rules
  cancel_subscriptions-Keeps (s ∷ subs) = search (keeps_rules, cancel_all-Keeps)

  pub delete_account-Keeps :
      (id : Ident) (password : Option String) (now : ℕ)
      → Keeps IsSound (delete_account (on_lists uuid) deps id password now)
  unfolding delete_account
  delete_account-Keeps id password now =
      search (keeps_rules, check_password-Keeps, cancel_subscriptions-Keeps, set_deleted-Keeps)
        depth 12

  pub reset_password-Keeps :
      (token : Ident) (password : String)
      → Keeps IsSound (reset_password (on_lists uuid) deps token password)
  unfolding reset_password
  reset_password-Keeps token password = search (keeps_rules, set_password-Keeps) depth 14
