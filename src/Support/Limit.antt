-- ===== src/Support/Limit.antt =====
-- The limit of the contact form, over any day. The comment in support.service.ts speaks of 3
-- submissions for an address in 24 hours.
use Prim.Native.String.{String}
use text.Mathlib.Text.{◌==◌ as str_eq}
use text.Mathlib.TextEquality.{eq_iff}
use novelhub.Prelude.{
  ℕ, ◌≤◌, Bool, true, false, ◌&&◌, Option, none, List, [], ◌∷◌, leb, get_or, if◌then◌else◌, ◌≡◌,
  refl, inl, inr, Bool-cases, Option-cases,
}
use novelhub.Support.{
  ContactDto, SupportConfig, CounterCache, ContactResult, delivered, contact, email_key,
  support_per_email_limit,
}
use novelhub.Support.Window.{
  IsCache, IsCounted, never, later-IsCounted, IsCounted-count, set-IsCounted, set_other-IsCounted,
  count_in_day,
}

pub record Request : Type 0 where
  pub time : ℕ
  pub dto : ContactDto
  -- whether the mail service returns
  pub sends : Bool

abbrev pub is_delivered : ContactResult → Bool
is_delivered (delivered _) = true
is_delivered _ = false

-- The requests come one after the other, the first not before `now`.
abbrev pub AreOrdered : ℕ → List Request → Type 0
AreOrdered now [] = Unit
AreOrdered now (r ∷ requests) = (now ≤ r.time) × AreOrdered r.time requests

module _ {S : Type 0} (cache : CounterCache S) (to_lower_case : String → String)
    (config : Option SupportConfig) where
  -- The times at which mails for the address of `key` were sent, the last first.
  unfoldable pub sent_after : String → List Request → S → List ℕ → List ℕ
  sent_after key [] s sent = sent
  sent_after key (r ∷ requests) s sent =
      let (result, s') = contact cache to_lower_case config r.sends r.dto r.time s in
      sent_after key requests s' (
        if is_delivered result && str_eq (email_key to_lower_case r.dto) key
        then r.time ∷ sent
        else sent)

  step-IsCounted :
      (law : IsCache cache) (key : String) (r : Request) (s : S) (sent : List ℕ)
      → IsCounted cache key r.time s sent
      → IsCounted cache key r.time (contact cache to_lower_case config r.sends r.dto r.time s).1 (
          if is_delivered (contact cache to_lower_case config r.sends r.dto r.time s).0
            && str_eq (email_key to_lower_case r.dto) key
          then r.time ∷ sent
          else sent)
  unfolding contact
  step-IsCounted law key r s sent h =
      let key' = email_key to_lower_case r.dto in
      elim (Option-cases config) [
        | inl e ↦ rw (e, contact) h
        | inr (c, e) ↦
            elim (Bool-cases (leb support_per_email_limit (get_or (cache.get key' r.time s) 0))) [
              | inl over ↦ rw (e, contact, over) h
              | inr less ↦ elim (Bool-cases r.sends) [
                | inr lost ↦ rw (e, contact, less, lost) h
                | inl sends ↦
                    rw (e, contact, less, sends)
                      (elim (Bool-cases (str_eq key' key)) [
                        | inl same ↦ rw same (
                            let k : key' ≡ key = (eq_iff key' key).0 same in
                            rw k (set-IsCounted cache key law r.time s sent h (rw k at less)))
                        | inr other ↦
                            rw other
                              (set_other-IsCounted cache key law key' _ r.time s sent other h)
                      ])
              ]
            ]
      ]

  sent_after-count :
      (law : IsCache cache) (key : String) (requests : List Request) (now : ℕ) (s : S)
      (sent : List ℕ)
      → AreOrdered now requests
      → IsCounted cache key now s sent
      → (start : ℕ) → count_in_day start (sent_after key requests s sent) ≤ support_per_email_limit
  unfolding sent_after
  sent_after-count law key [] now s sent o h start = IsCounted-count cache key now s sent h start
  sent_after-count law key (r ∷ requests) now s sent o h start =
      sent_after-count law key requests r.time _ _ o.1
        (step-IsCounted law key r s sent (later-IsCounted cache key now r.time s sent o.0 h)) start

  -- Whatever requests come, one after the other, in any 24 hours at most 3 mails are sent for one
  -- address, provided that the cache keeps an item for the life that it was given and that the
  -- address has no counter at the start.
  pub contact-limit :
      (law : IsCache cache) (key : String) (requests : List Request) (now : ℕ) (s : S)
      → AreOrdered now requests
      → ((later : ℕ) → now ≤ later → cache.get key later s ≡ none)
      → (start : ℕ) → count_in_day start (sent_after key requests s []) ≤ support_per_email_limit
  contact-limit law key requests now s o fresh start =
      sent_after-count law key requests now s [] o (never refl fresh) start
