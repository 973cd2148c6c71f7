-- ===== src/System/Tests.antt =====
-- A run of requests.

use novelhub.Prelude.{none}
use novelhub.Schema.{Db}
use novelhub.Ledger.{IsSound}
use novelhub.Sample.{offline, shop, client, client-IsDocumented, library, library-IsSound, silent}
use novelhub.Payments.Packages.{pack_50}
use novelhub.System.{
  Config, serve, Reaches, start, then_serve, unlock_request, claim_request, register_request,
  checkout_request,
}
use novelhub.System.Reach.{Reaches-IsSound}

abbrev config : Config
config = record {
  deps = offline;
  payments = shop;
  publisher = silent;
  to_lower_case = λ s. s;
  construct_event = λ body signature secret. none;
  webhook_secret = none;
}

abbrev later : Db
later = serve client config (checkout_request 1 pack_50 none) (
    serve client config (register_request "jane@example.com" "persuasion" 30) (
      serve client config (claim_request 1 20)
        (serve client config (unlock_request 1 2 9) library)))

run : Reaches client config library later
run =
    then_serve
      (then_serve
        (then_serve (then_serve (start library) (unlock_request 1 2 9)) (claim_request 1 20))
        (register_request "jane@example.com" "persuasion" 30))
      (checkout_request 1 pack_50 none)

Reaches-IsSound_example : IsSound later
Reaches-IsSound_example =
    Reaches-IsSound config (λ p. record { at = λ db h. h }) client client-IsDocumented run
      library-IsSound
