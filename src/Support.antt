-- ===== src/Support.antt =====
-- apps/api/src/modules/support/support.service.ts: the contact form, with its limit of mails for an
-- address. The cache is an interface of the program, and so an argument, with the time of a call;
-- so are `toLowerCase` and the mail service, of which only matters whether a call throws.
pub mod Window
pub mod Limit
mod Tests
use Prim.Native.String.{String, ◌++◌ as append}
use Prim.Native.Char.{Char, code}
use novelhub.Prelude.{
  ℕ, ◌+◌, ◌*◌, Bool, true, false, Option, none, some, get_or, leb, ◌==◌, ◌||◌, if◌then◌else◌,
}
use novelhub.Prelude.Text.{trim}

pub record ContactDto : Type 0 where
  pub name : String
  pub email : String
  pub subject : String
  pub body : String

pub record SupportMail : Type 0 where
  pub from : String
  pub to : String
  pub reply_to : String
  pub subject : String
  pub text : String

-- `RESEND_API_KEY`, `SUPPORT_EMAIL` and `SUPPORT_FROM_EMAIL`, all set.
pub record SupportConfig : Type 0 where
  pub to : String
  pub from : String

abbrev pub support_per_email_limit : ℕ
support_per_email_limit = 3

abbrev pub support_per_email_window_seconds : ℕ
support_per_email_window_seconds = 24 * 60 * 60

abbrev pub is_line_end : Char → Bool
is_line_end c = code c == 13 || code c == 10

-- `value.replace(/[\r\n]+/g, ' ')`; the flag is whether a run of line ends goes on.
abbrev pub collapse_line_ends : Bool → String → String
collapse_line_ends inside String.[] = String.[]
collapse_line_ends inside (String.◌∷◌ c s) =
    let kept = String.◌∷◌ c (collapse_line_ends false s) in
    let rest = collapse_line_ends true s in
    if is_line_end c then (if inside then rest else append " " rest) else kept

abbrev pub strip_header_control_chars : String → String
strip_header_control_chars value = trim (collapse_line_ends false value)

pub mail_of : SupportConfig → ContactDto → SupportMail
mail_of config dto = record {
  from = config.from;
  to = config.to;
  reply_to = dto.email;
  subject = append "[NovelHub] " (strip_header_control_chars dto.subject);
  text = append "Name: " (
      append (strip_header_control_chars dto.name) (
        append "\nEmail: "
          (append (strip_header_control_chars dto.email) (append "\n\n" dto.body))));
}

-- What the service uses of the cache: `get` and `set` at a time in milliseconds, the life of an
-- item in seconds.
pub record CounterCache (S : Type 0) : Type 0 where
  pub get : String → ℕ → S → Option ℕ
  pub set : String → ℕ → ℕ → ℕ → S → S

pub data ContactResult : Type 0 where
  -- `{ delivered: true }`, with the mail that was sent
  delivered : SupportMail → ContactResult
  -- `{ delivered: false }`
  not_delivered : ContactResult
  -- status 429, and a call of the mail service that throws
  too_many_requests mail_failed : ContactResult

abbrev pub email_key : (String → String) → ContactDto → String
email_key to_lower_case dto = append "support:contact:" (to_lower_case (trim dto.email))

module _ {S : Type 0} (cache : CounterCache S) (to_lower_case : String → String)
    (config : Option SupportConfig) where
  unfoldable pub contact : Bool → ContactDto → ℕ → S → ContactResult × S
  contact sends dto now s = elim config [
    | none ↦ (not_delivered, s)
    | some config ↦
        let previous = get_or (cache.get (email_key to_lower_case dto) now s) 0 in
        if leb support_per_email_limit previous
        then (too_many_requests, s)
        else if sends
        then (
          delivered (mail_of config dto),
          cache.set (email_key to_lower_case dto) (previous + 1) support_per_email_window_seconds
              now s,
        )
        else (mail_failed, s)
  ]
