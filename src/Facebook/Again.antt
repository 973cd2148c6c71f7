-- ===== src/Facebook/Again.antt =====
-- An event is reported to Facebook once.
use Prim.Native.String.{String}
use text.Mathlib.TextPositions.{eq_refl}
use novelhub.Prelude.{
  ℕ, true, Option, none, some, List, [], ◌∷◌, ◌++◌, ◌≡◌, ◌∙◌, refl, sym, arith, inl, inr,
  Bool-cases, Option-cases, is_some,
}
use mathlib.Core.Path.{subst}
use novelhub.Prisma.{IsDocumented, first, insert_row, update_rows}
use novelhub.Payments.Stripe.{truthy_text}
use novelhub.Facebook.{
  FbEvent, FbCapiServiceDeps, SendEvent, event_clash, is_event, set_answer, new_event,
  build_payload, store_answer, send_configured, send_event,
}

-- A row of the event is there.
abbrev IsKnown : String → List FbEvent → Type 0
IsKnown event_id events = is_some (first (is_event event_id) events) ≡ true

answer-IsKnown :
    (event_id : String) (answer : Option (ℕ × Option String)) (now : ℕ) (events : List FbEvent)
    → IsKnown event_id events
    → IsKnown event_id (update_rows (is_event event_id) (set_answer answer now) events)
answer-IsKnown event_id answer now [] h = h
answer-IsKnown event_id answer now (e ∷ events) h = elim (Bool-cases (is_event event_id e)) [
  | inl y ↦ rw (y, y) refl
  | inr n ↦ let rest = answer-IsKnown event_id answer now events (rw n at h) in rw (n, n) rest
]

created-IsKnown : (e : FbEvent) (events : List FbEvent) → IsKnown e.event_id (events ++ e ∷ [])
created-IsKnown e [] = rw (eq_refl e.event_id) refl
created-IsKnown e (x ∷ events) = elim (Bool-cases (is_event e.event_id x)) [
  | inl y ↦ rw y refl
  | inr n ↦ rw n (created-IsKnown e events)
]

known-clashes :
    (e : FbEvent) (events : List FbEvent)
    → IsKnown e.event_id events
    → insert_row event_clash e events ≡ none
known-clashes e events h = elim (Option-cases (first (is_event e.event_id) events)) [
  | inl n ↦ absurd (ground (arith, n))
  | inr (r, y) ↦ ground (arith, y)
]

inserted-IsKnown :
    (e : FbEvent) (events rows : List FbEvent)
    → insert_row event_clash e events ≡ some rows
    → IsKnown e.event_id rows
inserted-IsKnown e events rows h = elim (Option-cases (first (is_event e.event_id) events)) [
  | inl n ↦ let known = created-IsKnown e events in ground (arith, n, known)
  | inr (r, y) ↦ absurd (ground (arith, y))
]

refused-IsKnown :
    (e : FbEvent) (events : List FbEvent)
    → insert_row event_clash e events ≡ none
    → IsKnown e.event_id events
refused-IsKnown e events h = elim (Option-cases (first (is_event e.event_id) events)) [
  | inl n ↦ absurd (ground (arith, n))
  | inr (r, y) ↦ rw y refl
]

module _ {W : Type 0} (deps : FbCapiServiceDeps W) (doc : IsDocumented deps.prisma) where
  known-stays :
      (event : SendEvent) (events : List FbEvent) (w : W)
      → IsKnown event.event_id events
      → send_event deps event (events, w) ≡ (events, w)
  unfolding send_event send_configured
  known-stays event events w h =
      let clash =
        doc.create_lem event_clash (new_event deps event) events
        ∙ known-clashes (new_event deps event) events h in
      elim (Option-cases (truthy_text deps.pixel_id)) [
        | inl n ↦ rw (send_event, n) refl
        | inr (pixel, y) ↦ elim (Option-cases (truthy_text deps.access_token)) [
          | inl n ↦ rw (send_event, y) (rw n refl)
          | inr (token, z) ↦ rw (send_event, y) (rw z (rw (send_configured, clash) refl))
        ]
      ]

  stored-IsKnown :
      (event : SendEvent) (answer : Option (ℕ × Option String)) (events : List FbEvent)
      → IsKnown event.event_id events
      → IsKnown event.event_id (store_answer deps event answer events)
  unfolding store_answer
  stored-IsKnown event answer events h =
      let rows = answer-IsKnown event.event_id answer event.answered events h in
      let stored =
        doc.update_lem event_clash (is_event event.event_id) (set_answer answer event.answered)
          events in
      rw (store_answer, stored) (ground (arith, rows, h))

  sent-IsKnown :
      (pixel token : String) (event : SendEvent) (events : List FbEvent) (w : W)
      → IsKnown event.event_id (send_configured deps pixel token event (events, w)).0
  unfolding send_configured
  sent-IsKnown pixel token event events w =
      let created = doc.create_lem event_clash (new_event deps event) events in
      elim (Option-cases (insert_row event_clash (new_event deps event) events)) [
        | inl n ↦
            rw (send_configured, created ∙ n) (refused-IsKnown (new_event deps event) events n)
        | inr (rows, y) ↦
            rw (send_configured, created ∙ y)
              (stored-IsKnown event (deps.fetch pixel token (build_payload deps event) w).0 rows
                (inserted-IsKnown (new_event deps event) events rows y))
      ]

  without_pixel :
      (event : SendEvent) (s : List FbEvent × W)
      → truthy_text deps.pixel_id ≡ none
      → send_event deps event s ≡ s
  unfolding send_event
  without_pixel event s n = rw (send_event, n) refl

  without_token :
      (event : SendEvent) (s : List FbEvent × W)
      → truthy_text deps.access_token ≡ none
      → send_event deps event s ≡ s
  unfolding send_event
  without_token event s n = elim (Option-cases (truthy_text deps.pixel_id)) [
    | inl m ↦ without_pixel event s m
    | inr (pixel, y) ↦ rw (send_event, y) (rw n refl)
  ]

  -- An event is reported once: a second call of `sendEvent` with the same event id, whatever else it
  -- carries and whatever became of the first, sends no request and changes no row.
  pub send_event-again :
      (event again : SendEvent)
      → again.event_id ≡ event.event_id
      → (events : List FbEvent) (w : W)
      → send_event deps again (send_event deps event (events, w))
        ≡ send_event deps event (events, w)
  unfolding send_event
  send_event-again event again same events w = elim (Option-cases (truthy_text deps.pixel_id)) [
    | inl n ↦ without_pixel again (send_event deps event (events, w)) n
    | inr (pixel, y) ↦ elim (Option-cases (truthy_text deps.access_token)) [
      | inl n ↦ without_token again (send_event deps event (events, w)) n
      | inr (token, z) ↦
          let sent = send_configured deps pixel token event (events, w) in
          let done : send_event deps event (events, w) ≡ sent = rw (send_event, y) (rw z refl) in
          rw done (
            known-stays again sent.0 sent.1 (
              subst (λ id. IsKnown id sent.0) (sym same) (sent-IsKnown pixel token event events w)))
    ]
  ]
