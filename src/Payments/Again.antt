-- ===== src/Payments/Again.antt =====
-- webhook.service.ts: deliveries of one Stripe event.
use Prim.Native.String.{String}
use novelhub.Prelude.{
  ℕ, Bool, true, none, List, [], ◌∷◌, ◌++◌, ◌≡◌, ◌≢◌, arith, All, ◌==◌, inl, inr, Option-cases,
}
use novelhub.Action.{Ident, ok, err, unique_violation}
use novelhub.Action.Runs.{try-ok, try-err}
use novelhub.Prisma.{Prisma, IsDocumented, Uuid, on_lists, uuid_of, transfer, first}
use novelhub.Schema.{WebhookEvent, webhook_event_clash, Db}
use novelhub.Ledger.Keeps.{Keeps, keeps_rules}
use novelhub.Payments.Events.{Event, PurchaseEvent, PurchaseEventPublisher}
use novelhub.Payments.Frame.{dispatch_gate}
use novelhub.Payments.Webhook.{received_twice, create_webhook_event, respond, receive}

abbrev pub is_event : Ident → WebhookEvent → Bool
is_event id e = e.stripe_event_id == id

-- The event has passed the gate.
abbrev pub IsReceived : Ident → List WebhookEvent → Type 0
IsReceived id events = first (is_event id) events ≢ none

module _ (e : WebhookEvent) where
  last-IsReceived : (events : List WebhookEvent) → IsReceived e.stripe_event_id (events ++ e ∷ [])
  last-IsReceived [] = ground arith
  last-IsReceived (d ∷ events) = ground (arith, last-IsReceived events)

  clash-IsReceived :
      (events : List WebhookEvent)
      → All (λ d. d.id ≢ e.id) events
      → first (webhook_event_clash e) events ≢ none
      → IsReceived e.stripe_event_id events
  clash-IsReceived [] f h = h
  clash-IsReceived (d ∷ events) f h = ground (arith, f.0, clash-IsReceived events f.1)

  received_clashes :
      (events : List WebhookEvent)
      → IsReceived e.stripe_event_id events
      → first (webhook_event_clash e) events ≢ none
  received_clashes [] h = h
  received_clashes (d ∷ events) h = ground (arith, received_clashes events)

module _ (uuid : Uuid) (event : Event) where
  abbrev row : Db → WebhookEvent
  row db = record {
    id = uuid WebhookEvent (λ e. e.id) db.webhook_events;
    stripe_event_id = event.id;
    event_type = event.type;
  }

  gate_open :
      (db : Db)
      → first (webhook_event_clash (row db)) db.webhook_events ≡ none
      → create_webhook_event (on_lists uuid) event db
        ≡ (ok tt, record db { webhook_events = db.webhook_events ++ row db ∷ [] })
  unfolding create_webhook_event
  gate_open db h = ground arith

  gate_shut :
      (db : Db)
      → first (webhook_event_clash (row db)) db.webhook_events ≢ none
      → create_webhook_event (on_lists uuid) event db ≡ (err unique_violation, db)
  unfolding create_webhook_event
  gate_shut db h = ground arith

  module _ (publisher : PurchaseEventPublisher) (to_lower_case : String → String) where
    dropped :
        (now : ℕ) (db : Db)
        → IsReceived event.id db.webhook_events
        → receive (on_lists uuid) publisher to_lower_case event now db
          ≡ (ok (record { type = event.type; duplicate = true }), db)
    unfolding receive
    dropped now db h =
        let shut = gate_shut db (received_clashes (row db) db.webhook_events h) in
        ground (arith, shut)

    module _
        (quiet : (p : PurchaseEvent)
          → Keeps (λ db. IsReceived event.id db.webhook_events) (publisher.publish p)) where
      respond-Keeps :
          (now : ℕ)
          → Keeps
              (λ db. IsReceived event.id db.webhook_events)
              (respond (on_lists uuid) publisher to_lower_case event now)
      unfolding respond
      respond-Keeps now =
          let handler =
            dispatch_gate (IsReceived event.id) uuid to_lower_case publisher quiet event.object
              now in
          search (keeps_rules, handler)

      passed :
          (now : ℕ) (db : Db)
          → All (λ e. e.id ≢ uuid WebhookEvent (λ e. e.id) db.webhook_events) db.webhook_events
          → IsReceived event.id
              (receive (on_lists uuid) publisher to_lower_case event now db).1.webhook_events
      unfolding receive
      passed now db fresh =
          elim (Option-cases (first (webhook_event_clash (row db)) db.webhook_events)) [
            | inl n ↦
                let open_gate =
                  try-ok (create_webhook_event (on_lists uuid) event)
                    (λ _. respond (on_lists uuid) publisher to_lower_case event now) db
                    (received_twice event) (gate_open db n) in
                rw open_gate ((respond-Keeps now).at _ (last-IsReceived (row db) db.webhook_events))
            | inr (d, n) ↦
                let clash : first (webhook_event_clash (row db)) db.webhook_events ≢ none =
                  λ m. cc in
                let shut_gate =
                  try-err (create_webhook_event (on_lists uuid) event)
                    (λ _. respond (on_lists uuid) publisher to_lower_case event now) db
                    (received_twice event) (gate_shut db clash) in
                rw shut_gate (clash-IsReceived (row db) db.webhook_events fresh clash)
          ]

-- A second delivery of a Stripe event, at any time, is answered as a duplicate and changes
-- nothing, whatever came of the first one: also where its handler threw. The publisher, which is
-- an interface here, is taken to leave the rows of the gate alone.
pub receive-again :
    (prisma : Prisma) (publisher : PurchaseEventPublisher) (to_lower_case : String → String)
    (event : Event) (now later : ℕ) (db : Db)
    → IsDocumented prisma
    → ((p : PurchaseEvent)
        → Keeps (λ db. IsReceived event.id db.webhook_events) (publisher.publish p))
    → receive prisma publisher to_lower_case event later
        (receive prisma publisher to_lower_case event now db).1
      ≡ (
        ok (record { type = event.type; duplicate = true }),
        (receive prisma publisher to_lower_case event now db).1,
      )
receive-again prisma publisher to_lower_case event now later db doc quiet =
    transfer
      (λ q.
        receive q publisher to_lower_case event later
          (receive q publisher to_lower_case event now db).1
        ≡ (
          ok (record { type = event.type; duplicate = true }),
          (receive q publisher to_lower_case event now db).1,
        ))
      prisma doc
      (dropped (uuid_of prisma) event publisher to_lower_case later _ (
        passed (uuid_of prisma) event publisher to_lower_case quiet now db
          (doc.uuid_is_new (λ e. e.id) db.webhook_events)))
