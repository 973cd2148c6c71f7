-- ===== src/Support/Tests.antt =====
-- Five mails for one address in an hour.
use Prim.Native.String.{String}
use text.Mathlib.Text.{◌==◌ as str_eq}
use text.Mathlib.TextPositions.{eq_refl}
use novelhub.Prelude.{
  ℕ, ◌+◌, ◌*◌, ◌≤◌, Option, none, some, List, [], ◌∷◌, ltb, if◌then◌else◌, ◌≡◌, refl, true, arith,
}
use novelhub.Support.{
  ContactDto, SupportConfig, CounterCache, contact, email_key, support_per_email_limit,
}
use novelhub.Support.Window.{IsCache, count_in_day}
use novelhub.Support.Limit.{Request, sent_after, contact-limit}

-- What each key holds at each time.
abbrev memory : CounterCache (String → ℕ → Option ℕ)
memory = record {
  get = λ key now s. s key now;
  set = λ key value seconds now s other later.
      if str_eq key other
      then (if ltb later (now + 1000 * seconds) then some value else none)
      else s other later;
}

memory-IsCache : IsCache memory
memory-IsCache = record {
  get-set = λ key value seconds now later s h. rw (eq_refl key);
  get-set_other = λ key other value seconds now later s h. rw h;
}

abbrev writer : ContactDto
writer = record {
  name = "Ann";
  email = "ann@example.com";
  subject = "Hello\r\nBcc: all";
  body = "Dear all";
}

abbrev request : ℕ → Request
request time = record { time = time; dto = writer; sends = true }

abbrev requests : List Request
requests = request 1 ∷ request 2 ∷ request 3 ∷ request 4 ∷ request 86400005 ∷ []

abbrev office : Option SupportConfig
office = some (record { to = "help@example.com"; from = "form@example.com" })

-- The fourth is refused, and the last is a day after the third.
sent :
    sent_after memory (λ s. s) office (email_key (λ s. s) writer) requests (λ key now. none) []
    ≡ 86400005 ∷ 3 ∷ 2 ∷ 1 ∷ []
unfolding sent_after contact
sent = refl

contact-limit_example :
    count_in_day 0
      (sent_after memory (λ s. s) office (email_key (λ s. s) writer) requests (λ key now. none) [])
    ≤ support_per_email_limit
contact-limit_example =
    contact-limit memory (λ s. s) office memory-IsCache (email_key (λ s. s) writer) requests 0
      (λ key now. none) (omega arith) (λ later h. refl) 0
