-- ===== src/Auth/Tests.antt =====
-- A reader registers in a small database.
use text.Mathlib.Text.{◌==◌ as str_eq}
use novelhub.Prelude.{none, some, [], ◌∷◌, ◌≡◌, refl, false, true}
use novelhub.Prelude.Int.{pos}
use novelhub.Action.{ok, err, domain, conflict}
use novelhub.Schema.{User, Db}
use novelhub.Coins.{create_coin_txn}
use novelhub.Sample.{client, client-IsDocumented, library, reader, bonus, offline}
use novelhub.Auth.{
  Deps, AuthResult, signup_bonus_coins, register, enroll, create_user, new_user, issue_tokens,
}
use novelhub.Auth.SignIn.{login}
use novelhub.Auth.Registered.{register-login, register-again}

abbrev deps : Deps
deps = record offline { compare = λ s t. str_eq s t }

abbrev jane : User
jane = record reader { id = 2; email = "jane@example.com"; password_hash = some "persuasion" }

abbrev with_jane : Db
with_jane = record library {
  users = reader ∷ jane ∷ [];
  coin_txns = bonus ∷ record bonus { id = 2; user_id = 2; created_at = 30 } ∷ [];
}

abbrev welcome : AuthResult
welcome = record {
  user = record {
    id = 2;
    email = "jane@example.com";
    coin_balance = pos 20;
    has_password = true;
    has_active_subscription = false;
    is_admin = false;
    banned_at = none;
  };
  tokens = record { access_token = 2; refresh_token = 2 };
}

registers :
    register client deps "jane@example.com" "persuasion" 30 library ≡ (ok welcome, with_jane)
unfolding register enroll create_user new_user issue_tokens create_coin_txn
registers = refl

register-login_example :
    (s : AuthResult) × (login client deps "jane@example.com" "persuasion" 99 with_jane
      ≡ (ok s, with_jane))
    × (s.user.id ≡ 2)
    × (s.user.coin_balance ≡ signup_bonus_coins)
register-login_example =
    register-login client deps "jane@example.com" "persuasion" 30 99 library with_jane welcome
      client-IsDocumented refl registers

register-again_example :
    register client deps "jane@example.com" "emma" 99 with_jane
    ≡ (err (domain conflict none), with_jane)
register-again_example =
    register-again client deps "jane@example.com" "persuasion" "emma" 30 99 library with_jane
      welcome client-IsDocumented registers
