-- ===== src/Facebook.antt =====
-- apps/api/src/modules/fb-capi/fb-capi.service.ts and packages/shared/src/consent.ts: the events
-- that are reported to Facebook. SHA-256, `toLowerCase`, `decodeURIComponent`, JSON and `fetch` are
-- arguments; `W` is the world that requests change. A row keeps the columns that the
-- service writes.
pub mod Again
mod Tests
use Prim.Native.String.{String, ◌++◌ as append}
use text.Mathlib.Text.{◌==◌ as str_eq}
use novelhub.Prelude.{
  ℕ, zero, suc, ◌/◌, ◌%◌, Bool, true, false, Option, none, some, List, [], ◌∷◌, not, ◌&&◌,
  if◌then◌else◌,
}
use novelhub.Prelude.Text.{trim, is_empty}
use novelhub.Action.{Ident, ok, err}
use novelhub.Prisma.{Prisma}
use novelhub.Chapters.{take_chars}
use novelhub.Payments.Stripe.{truthy_text}
use novelhub.Web.Json.{Json, object, boolean, get, JsonCodec}

pub record ConsentCategories : Type 0 where
  pub analytics : Bool
  pub marketing : Bool

abbrev pub default_consent : ConsentCategories
default_consent = record { analytics = false; marketing = false }

abbrev pub both_consents : Option Json → Option Json → Option ConsentCategories
both_consents (some (boolean a)) (some (boolean m)) = some (record { analytics = a; marketing = m })
both_consents _ _ = none

abbrev pub consent_of : Option Json → Option ConsentCategories
consent_of (some (object fields)) = both_consents (get "analytics" fields) (get "marketing" fields)
consent_of _ = none

-- `decodeURIComponent` throws where it is `none`.
module _ (codec : JsonCodec String) (decode : String → Option String) where
  abbrev pub parse_decoded : Option String → Option ConsentCategories
  parse_decoded none = none
  parse_decoded (some text) = consent_of (codec.parse text)

  unfoldable pub parse_consent : Option String → Option ConsentCategories
  parse_consent raw = elim (truthy_text raw) [
    | none ↦ none
    | some text ↦ parse_decoded (decode text)
  ]

  -- The value of the cookie `consent` of a request.
  unfoldable pub should_send_for_request : Option String → Bool
  should_send_for_request cookie = elim (parse_consent cookie) [
    | none ↦ false
    | some consent ↦ consent.marketing
  ]

pub record FbUserData : Type 0 where
  pub email : Option String
  pub fbp : Option String
  pub fbc : Option String
  pub client_ip_address : Option String
  pub client_user_agent : Option String

-- `string | string[]`
pub data HeaderValue : Type 0 where
  one_value : String → HeaderValue
  values : List String → HeaderValue

pub record FbRequest : Type 0 where
  pub fbp : Option String
  pub fbc : Option String
  pub ip : Option String
  pub user_agent : Option HeaderValue

abbrev pub user_agent_of : Option HeaderValue → Option String
user_agent_of none = none
user_agent_of (some (one_value v)) = some v
user_agent_of (some (values [])) = none
user_agent_of (some (values (v ∷ _))) = some v

unfoldable pub extract_fb_user_data : FbRequest → Option String → FbUserData
extract_fb_user_data req email = record {
  email = email;
  fbp = req.fbp;
  fbc = req.fbc;
  client_ip_address = req.ip;
  client_user_agent = user_agent_of req.user_agent;
}

-- `value` is in hundredths.
pub record FbCustomData : Type 0 where
  pub currency : Option String
  pub value : Option ℕ
  pub content_ids : Option (List String)
  pub content_type : Option String

pub record PayloadUser : Type 0 where
  pub em : List String
  pub fbp : Option String
  pub fbc : Option String
  pub client_ip_address : Option String
  pub client_user_agent : Option String

pub record FbEventPayload : Type 0 where
  pub event_name : String
  pub event_time : ℕ
  pub event_id : String
  pub user_data : PayloadUser
  pub custom_data : Option FbCustomData
  pub test_event_code : Option String

pub record FbEvent : Type 0 where
  pub event_name : String
  pub event_id : String
  pub user_id : Option Ident
  pub payload : FbEventPayload
  pub response_code : Option ℕ
  pub response_body : Option String
  pub sent_at : ℕ

-- `@unique`
abbrev pub event_clash : FbEvent → FbEvent → Bool
event_clash a b = str_eq a.event_id b.event_id

abbrev pub is_event : String → FbEvent → Bool
is_event event_id e = str_eq event_id e.event_id

pub record FbCapiServiceDeps (W : Type 0) : Type 1 where
  pub prisma : Prisma
  pub pixel_id : Option String
  pub access_token : Option String
  pub test_event_code : Option String
  pub is_production : Bool
  -- The bytes of the digest of a text.
  pub sha256 : String → List ℕ
  pub to_lower : String → String
  -- The pixel, the token and the payload of a request; `none` is that `fetch` throws, otherwise the
  -- status and, where it can be read, the text of the answer.
  pub fetch : String → String → FbEventPayload → W → Option (ℕ × Option String) × W

-- The arguments of `sendEvent`, with the times at which it starts and at which it stores the answer.
pub record SendEvent : Type 0 where
  pub event_name : String
  pub event_id : String
  pub user_data : FbUserData
  pub custom_data : Option FbCustomData
  pub user_id : Option Ident
  pub started : ℕ
  pub answered : ℕ

abbrev hex_digits : String
hex_digits = "0123456789abcdef"

abbrev digit : ℕ → String → String
digit n String.[] = String.[]
digit zero (String.◌∷◌ c s) = String.◌∷◌ c String.[]
digit (suc n) (String.◌∷◌ c s) = digit n s

-- `byte.toString(16).padStart(2, '0')` of each byte
abbrev pub hex_of : List ℕ → String
hex_of [] = ""
hex_of (byte ∷ bytes) =
    append (digit (byte / 16) hex_digits) (append (digit (byte % 16) hex_digits) (hex_of bytes))

abbrev pub response_code_of : Option (ℕ × Option String) → Option ℕ
response_code_of none = none
response_code_of (some (code, _)) = some code

-- `fullText.slice(0, 4096)`
abbrev pub response_body_of : Option (ℕ × Option String) → Option String
response_body_of none = none
response_body_of (some (_, none)) = none
response_body_of (some (_, some text)) = some (take_chars 4096 text)

abbrev pub set_answer : Option (ℕ × Option String) → ℕ → FbEvent → FbEvent
set_answer answer now e = record e {
  response_code = response_code_of answer;
  response_body = response_body_of answer;
  sent_at = now;
}

module _ {W : Type 0} (deps : FbCapiServiceDeps W) where
  abbrev pub sha256_hex : String → String
  sha256_hex input = hex_of (deps.sha256 input)

  abbrev pub hashed_email : Option String → List String
  hashed_email none = []
  hashed_email (some email) = sha256_hex (deps.to_lower (trim email)) ∷ []

  unfoldable pub build_payload : SendEvent → FbEventPayload
  build_payload event = record {
    event_name = event.event_name;
    event_time = event.started / 1000;
    event_id = event.event_id;
    user_data = record {
      em = hashed_email (truthy_text event.user_data.email);
      fbp = truthy_text event.user_data.fbp;
      fbc = truthy_text event.user_data.fbc;
      client_ip_address = truthy_text event.user_data.client_ip_address;
      client_user_agent = truthy_text event.user_data.client_user_agent;
    };
    custom_data = event.custom_data;
    test_event_code = if deps.is_production then none else truthy_text deps.test_event_code;
  }

  abbrev pub new_event : SendEvent → FbEvent
  new_event event = record {
    event_name = event.event_name;
    event_id = event.event_id;
    user_id = event.user_id;
    payload = build_payload event;
    response_code = none;
    response_body = none;
    sent_at = event.started;
  }

  -- An update that fails is only logged.
  unfoldable pub store_answer : SendEvent → Option (ℕ × Option String) → List FbEvent → List FbEvent
  store_answer event answer events =
      elim (deps.prisma.update event_clash (is_event event.event_id)
        (set_answer answer event.answered) events) [ err _ ↦ events | ok events' ↦ events' ]

  unfoldable pub send_configured : String → String → SendEvent → List FbEvent × W → List FbEvent × W
  send_configured pixel token event (events, w) =
      elim (deps.prisma.create event_clash (new_event event) events) [
        | none ↦ (events, w)
        | some events' ↦
            let (answer, w') = deps.fetch pixel token (build_payload event) w in
            (store_answer event answer events', w')
      ]

  unfoldable pub send_event : SendEvent → List FbEvent × W → List FbEvent × W
  send_event event s = elim (truthy_text deps.pixel_id) [
    | none ↦ s
    | some pixel ↦ elim (truthy_text deps.access_token) [
      | none ↦ s
      | some token ↦ send_configured pixel token event s
    ]
  ]
