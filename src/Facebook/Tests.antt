-- ===== src/Facebook/Tests.antt =====
-- A purchase that is reported, in a world that counts the requests.
use novelhub.Prelude.{ℕ, suc, false, none, some, [], ◌∷◌, ◌≡◌, refl}
use novelhub.Sample.{client, client-IsDocumented}
use novelhub.Facebook.{FbCapiServiceDeps, SendEvent, send_event, send_configured, hex_of}
use novelhub.Facebook.Again.{send_event-again}

abbrev deps : FbCapiServiceDeps ℕ
deps = record {
  prisma = client;
  pixel_id = some "pixel";
  access_token = some "token";
  test_event_code = none;
  is_production = false;
  sha256 = λ s. 10 ∷ 255 ∷ [];
  to_lower = λ s. s;
  fetch = λ pixel token payload n. (some (200, some "ok"), suc n);
}

abbrev purchase : SendEvent
purchase = record {
  event_name = "Purchase";
  event_id = "purchase:7";
  user_data = record {
    email = some " reader@novelhub.test ";
    fbp = none;
    fbc = none;
    client_ip_address = none;
    client_user_agent = none;
  };
  custom_data = none;
  user_id = some 3;
  started = 5000;
  answered = 5100;
}

two_bytes : hex_of (10 ∷ 255 ∷ []) ≡ "0aff"
two_bytes = refl

one_request : (send_event deps purchase ([], 0)).1 ≡ 1
unfolding send_event send_configured
one_request = refl

send_event-again_example :
    send_event deps
      (record purchase { started = 9000; answered = 9100 })
      (send_event deps purchase ([], 0))
    ≡ send_event deps purchase ([], 0)
send_event-again_example =
    send_event-again deps client-IsDocumented purchase
      (record purchase { started = 9000; answered = 9100 }) refl [] 0
