-- ===== src/Web/Messages.antt =====
-- apps/web/src/lib: novels-empty-reason.ts, payment-success.ts and more-like-this.ts, what the pages
-- show for an empty catalogue, after a payment and beside a book. The URL parser of the browser is
-- an argument.
use Prim.Native.String.{String}
use text.Mathlib.Text.{◌==◌ as str_eq}
use novelhub.Prelude.{
  ℕ, ◌-◌, Bool, true, false, not, Option, none, some, List, [], leb, ltb, length, take,
  if◌then◌else◌,
}
use novelhub.Prelude.Text.{is_empty}
use novelhub.Prisma.{matching}

pub data NovelsEmptyReason : Type 0 where
  unfiltered category_only status_only category_and_status : NovelsEmptyReason

pub record NovelsEmptyReasonEvent : Type 0 where
  pub reason : NovelsEmptyReason
  pub category : Bool
  pub status : Bool
  pub timestamp : ℕ

abbrev pub derive_novels_empty_reason : Bool → Bool → NovelsEmptyReason
derive_novels_empty_reason true true = category_and_status
derive_novels_empty_reason true false = category_only
derive_novels_empty_reason false true = status_only
derive_novels_empty_reason false false = unfiltered

abbrev pub build_novels_empty_reason_event : Bool → Bool → ℕ → NovelsEmptyReasonEvent
build_novels_empty_reason_event category status timestamp = record {
  reason = derive_novels_empty_reason category status;
  category = category;
  status = status;
  timestamp = timestamp;
}

abbrev payment_success_timeout_ms : ℕ
payment_success_timeout_ms = 60000

pub data PaymentSuccessState : Type 0 where
  missing_session confirming completed failed : PaymentSuccessState

-- `now - startedAt >= PAYMENT_SUCCESS_TIMEOUT_MS` of two times, the first not before the second.
abbrev waiting_state : ℕ → ℕ → PaymentSuccessState
waiting_state started_at now =
    if leb payment_success_timeout_ms (now - started_at) then failed else confirming

-- The status of the order, where it is known.
abbrev pub get_payment_success_state : Option String → ℕ → ℕ → PaymentSuccessState
get_payment_success_state none started_at now = waiting_state started_at now
get_payment_success_state (some status) started_at now =
    if str_eq status "completed"
    then completed
    else if str_eq status "failed"
    then failed
    else if str_eq status "refunded"
    then failed
    else waiting_state started_at now

-- `parse_origin value origin` is the origin of `new URL(value, origin)`; `none` is that it throws.
abbrev pub get_safe_payment_return_url :
    (String → String → Option String) → Option String → String → Option String
get_safe_payment_return_url parse_origin none origin = none
get_safe_payment_return_url parse_origin (some value) origin =
    if is_empty value then none else elim (parse_origin value origin) [
      | none ↦ none
      | some o ↦ if str_eq o origin then some value else none
    ]

abbrev more_like_this_display_limit : ℕ
more_like_this_display_limit = 4

abbrev more_like_this_min_candidates : ℕ
more_like_this_min_candidates = 3

-- `id` is the column of a book's summary.
abbrev pub select_more_like_this_books :
    {BookSummary : Type 0} → (BookSummary → String) → String → List BookSummary → List BookSummary
select_more_like_this_books id current_book_id candidates =
    let related = matching (λ book. not (str_eq (id book) current_book_id)) candidates in
    if ltb (length related) more_like_this_min_candidates
    then []
    else take more_like_this_display_limit related
