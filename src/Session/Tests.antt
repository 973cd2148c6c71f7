-- ===== src/Session/Tests.antt =====
-- A user of a small database is banned.
use Prim.Native.String.{String}
use novelhub.Prelude.{true, Option, none, some, ◌∷◌, [], ◌≡◌, refl}
use novelhub.Prelude.Int.{pos}
use novelhub.Action.{ok, err, domain, unauthorized}
use novelhub.Schema.{Db}
use novelhub.Auth.{Deps, JwtPayload, access, refresh_token}
use novelhub.Auth.SignIn.{get_current_user, refresh}
use novelhub.Sample.{client, client-IsDocumented, library, reader, shop, offline}
use novelhub.Payments.Packages.{pack_50, monthly}
use novelhub.Payments.Checkout.{
  create_coin_checkout, create_subscription_checkout, create_portal_session,
}
use novelhub.Session.{require_auth, ban_user, update_banned, read_token}
use novelhub.Session.Banned.{ban_user-refused}

abbrev deps : Deps
deps = record offline { verify_refresh = λ t. some (record { sub = 1; type = refresh_token }) }

abbrev verify_access : String → Option JwtPayload
verify_access token = some (record { sub = 1; type = access })

abbrev banned : Db
banned = record library { users = record reader { banned_at = some 60 } ∷ [] }

bans : ban_user client 1 60 library ≡ (ok 1, banned)
unfolding ban_user update_banned
bans = refl

bearer : read_token none (some "Bearer abc") ≡ some "abc"
bearer = refl

ban_user-refused_example :
    (require_auth client verify_access none (some "Bearer abc") banned
      ≡ (err (domain unauthorized none), banned))
    × (refresh client deps 5 banned ≡ (err (domain unauthorized none), banned))
    × (get_current_user client deps 1 70 banned ≡ (err (domain unauthorized none), banned))
    × (create_coin_checkout shop client 1 pack_50 none banned
        ≡ (err (domain unauthorized none), banned))
    × (create_subscription_checkout shop client 1 monthly none banned
        ≡ (err (domain unauthorized none), banned))
    × (create_portal_session shop client (λ a b. true) 1 banned
        ≡ (err (domain unauthorized none), banned))
ban_user-refused_example =
    ban_user-refused client deps shop verify_access none (some "Bearer abc") "abc"
      (record { sub = 1; type = access }) 5 (record { sub = 1; type = refresh_token }) pack_50
      (record { price_cents = 499; coins = pos 50 }) monthly 2999 (λ a b. true) none 1 1 60 70
      library banned client-IsDocumented bearer refl refl refl refl refl refl bans
