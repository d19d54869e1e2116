-- ===== src/Agent/Gate.antt =====
-- The gate in front of enforcement: a cached schedule is held back until the controller confirms it.
use timelord.Prelude.{
  ◌+◌, ◌-◌, ◌≤◌, ◌<◌, ◌≡◌, refl, ap, ◌∙◌, Bool, true, false, Option, none, some, List, String, leb,
  arith, Bool-cases, inl, inr,
}
use timelord.Prelude.Int.{ℤ}
use timelord.Prelude.Result.{Result, ok, err}
use timelord.Prelude.Text.{same_option, same_option_refl}
use timelord.Prelude.Time.{DateTime, Duration}
use timelord.Protocol.{AgentMessage, EventSubmissionResponse, HeartbeatResponse, RegisterResponse}
use timelord.Queue.{PendingDelivery, QueuedEvent}
use timelord.Schedule.{Schedule, same_schedule, enforcement_ready}
use timelord.Clock.{is_ready}
use timelord.Agent.{
  Agent, Instant, Report, mark_schedule_synced, enforcement_view, apply_schedule, request_flush,
  enqueue, note_connected, note_disconnected, schedule_sync_grace,
}
use timelord.Client.{ClientError}
use timelord.Agent.Networking.{
  Registration, Heartbeat, Writes, registered, not_registered, heartbeat, heartbeat_answered,
  schedule_poll, message_poll, finish_delivery,
}
use timelord.Agent.Enforcement.{Round, enforcement_round, wake, clock_sync}
use timelord.Agent.Sync.{
  Holds, disconnected-sync, delivery-sync, messages-sync, same_sync, round_on-Holds, wake-Holds,
  clock_sync-sync, Holds-trans,
}
use timelord.Schedule.Equality.{same_schedule_refl}

-- What happens to the agent while the controller confirms no schedule, in any order: failed calls,
-- messages, deliveries, reports of the recorder, measurements of the clock, rounds of enforcement.
-- The monotonic clock does not go back.
pub data Unconfirmed (a : Agent) : Agent → Type 0 where
  here : Unconfirmed a a
  reported :
      {b : Agent} (r : Report) (e : QueuedEvent) → Unconfirmed a b → Unconfirmed a (enqueue r e b)
  heartbeat_failed :
      {b : Agent} (r : Report) (reason : String)
      → Unconfirmed a b
      → Unconfirmed a (note_disconnected r reason b)
  registration_failed :
      {b : Agent} (x : Registration) (e : ClientError)
      → Unconfirmed a b
      → Unconfirmed a (not_registered x e b)
  schedule_poll_failed :
      {b : Agent} (e : ClientError) (fails : Bool)
      → Unconfirmed a b
      → Unconfirmed a (schedule_poll (err e) fails b)
  messages_polled :
      {b : Agent} (answer : Result ClientError (List AgentMessage)) (fails : Bool)
      (system : DateTime)
      → Unconfirmed a b
      → Unconfirmed a (message_poll answer fails system b)
  delivered :
      {b : Agent} (w : Writes) (r : Report) (url : String) (pending : List PendingDelivery)
      (answer : Result ClientError EventSubmissionResponse)
      → Unconfirmed a b
      → Unconfirmed a (finish_delivery w r url pending answer b)
  measured :
      {b : Agent} (m : Option ℤ) (at : Instant)
      → Unconfirmed a b
      → Unconfirmed a (clock_sync m at b).1
  woken :
      {b : Agent} (planned woke : DateTime) (at : Instant)
      → b.schedule_sync.since ≤ at
      → Unconfirmed a b
      → Unconfirmed a (wake planned woke at b)
  enforced :
      {b : Agent} (x : Round) (last : Option Instant)
      → b.schedule_sync.since ≤ x.resumed
      → Unconfirmed a b
      → Unconfirmed a (enforcement_round x last b).enforced.agent

Unconfirmed-Holds : {a b : Agent} → Unconfirmed a b → Holds a b
unfolding not_registered schedule_poll enforcement_round enqueue
Unconfirmed-Holds {a} here = same_sync a a refl
Unconfirmed-Holds {a} (reported {b} r e u) =
    Holds-trans a b (enqueue r e b) (Unconfirmed-Holds u) (same_sync b (enqueue r e b) refl)
Unconfirmed-Holds {a} (heartbeat_failed {b} r reason u) =
    Holds-trans a b (note_disconnected r reason b) (Unconfirmed-Holds u)
      (same_sync b (note_disconnected r reason b) (disconnected-sync r reason b))
Unconfirmed-Holds {a} (registration_failed {b} x e u) =
    Holds-trans a b (not_registered x e b) (Unconfirmed-Holds u)
      (same_sync b (not_registered x e b) refl)
Unconfirmed-Holds {a} (schedule_poll_failed {b} e fails u) = Unconfirmed-Holds u
Unconfirmed-Holds {a} (messages_polled {b} answer fails system u) =
    Holds-trans a b (message_poll answer fails system b) (Unconfirmed-Holds u)
      (same_sync b (message_poll answer fails system b) (messages-sync answer fails system b))
Unconfirmed-Holds {a} (delivered {b} w r url pending answer u) =
    Holds-trans a b (finish_delivery w r url pending answer b) (Unconfirmed-Holds u) (
      same_sync b (finish_delivery w r url pending answer b)
        (delivery-sync w r url pending answer b))
Unconfirmed-Holds {a} (measured {b} m at u) =
    Holds-trans a b (clock_sync m at b).1 (Unconfirmed-Holds u)
      (same_sync b (clock_sync m at b).1 (clock_sync-sync m at b))
Unconfirmed-Holds {a} (woken {b} planned woke at le u) =
    Holds-trans a b (wake planned woke at b) (Unconfirmed-Holds u) (wake-Holds planned woke at b le)
Unconfirmed-Holds {a} (enforced {b} x last le u) =
    Holds-trans a b (enforcement_round x last b).enforced.agent (Unconfirmed-Holds u)
      (round_on-Holds x last (enforcement_view x.at schedule_sync_grace b) b le)

-- Once the cached schedule is doubtful, nothing but the controller's confirmation gets it enforced
-- or announced before the grace period is over, whatever else happens meanwhile in whatever order,
-- as long as the monotonic clock does not go back.
pub held_until_confirmed :
    (a b : Agent) (at : Instant) (grace : Duration)
    → a.schedule_sync.confirmed ≡ false
    → Unconfirmed a b
    → b.schedule_sync.since ≤ at
    → at < a.schedule_sync.since + grace
    → enforcement_view at grace b ≡ (none, some (grace - (at - b.schedule_sync.since)))
unfolding enforcement_view enforcement_ready
held_until_confirmed a b at grace doubtful u passed early =
    let (opened, later) = Unconfirmed-Holds u in
    elim (Bool-cases b.schedule_sync.confirmed) [
      | inl confirmed ↦ absurd (ground (arith, opened confirmed, doubtful))
      | inr c ↦
          let young : leb grace (at - b.schedule_sync.since) ≡ false = ground arith in
          rw (c, young) refl
    ]

-- What a confirmation by the controller leaves.
module _ (a : Agent) where
  mark-confirmed : (mark_schedule_synced a).schedule_sync.confirmed ≡ true
  unfolding mark_schedule_synced
  mark-confirmed = ground arith

  mark-clock : (mark_schedule_synced a).clock ≡ a.clock
  unfolding mark_schedule_synced
  mark-clock = ground arith

  mark-schedule : (mark_schedule_synced a).schedule ≡ a.schedule
  unfolding mark_schedule_synced
  mark-schedule = ground arith

module _ (fails : Bool) (incoming : Option Schedule) (a : Agent) where
  apply-clock : (apply_schedule fails incoming a).clock ≡ a.clock
  unfolding apply_schedule
  apply-clock = ground arith

  apply-same : same_option same_schedule (apply_schedule fails incoming a).schedule incoming ≡ true
  unfolding apply_schedule
  apply-same = elim (Bool-cases (same_option same_schedule a.schedule incoming)) [
    | inl same ↦ rw same same
    | inr new ↦ rw new (same_option_refl same_schedule same_schedule_refl incoming)
  ]

open_view :
    (at : Instant) (grace : Duration) (a : Agent)
    → a.schedule_sync.confirmed ≡ true
    → is_ready a.clock ≡ true
    → enforcement_view at grace a ≡ (a.schedule, none)
unfolding enforcement_view enforcement_ready
open_view at grace a c r = rw (c, r) refl

-- The agent enforces what the controller sent, at once.
abbrev pub Enforces : Instant → Duration → Option Schedule → Agent → Type 0
Enforces at grace incoming a =
    (enforcement_view at grace a ≡ (a.schedule, none))
    × (same_option same_schedule a.schedule incoming ≡ true)

confirm :
    (at : Instant) (grace : Duration) (fails : Bool) (incoming : Option Schedule) (a : Agent)
    → is_ready a.clock ≡ true
    → Enforces at grace incoming (mark_schedule_synced (apply_schedule fails incoming a))
confirm at grace fails incoming a ready =
    let b = apply_schedule fails incoming a in
    (
      open_view at grace (mark_schedule_synced b) (mark-confirmed b)
          (ap is_ready (mark-clock b ∙ apply-clock fails incoming a) ∙ ready),
      ap (λ s. same_option same_schedule s incoming) (mark-schedule b)
          ∙ apply-same fails incoming a,
    )

connected-clock : (r : Report) (url : String) (a : Agent) → (note_connected r url a).clock ≡ a.clock
unfolding note_connected enqueue request_flush
connected-clock r url a = ground arith

-- With the clock measured, or NTP switched off, every successful answer that carries the schedule has
-- it enforced at once, whatever the gate was: a registration, a heartbeat and a poll alike.
pub confirmed_at_once :
    (a : Agent) (x : Registration) (h : Heartbeat) (fails : Bool) (r : RegisterResponse)
    (b : HeartbeatResponse) (polled : Option Schedule) (at : Instant) (grace : Duration)
    → is_ready a.clock ≡ true
    → Enforces at grace r.schedule (registered x r a)
      × Enforces at grace b.schedule (heartbeat (record h { answer = ok b }) a)
      × Enforces at grace polled (schedule_poll (ok polled) fails a)
unfolding registered heartbeat heartbeat_answered schedule_poll enqueue request_flush
    mark_schedule_synced apply_schedule enforcement_view
confirmed_at_once a x h fails r b polled at grace ready = (
  confirm at grace x.save_fails r.schedule _ ready,
  confirm at grace h.save_fails b.schedule (note_connected h.connection h.url a)
      (ap is_ready (connected-clock h.connection h.url a) ∙ ready),
  confirm at grace fails polled a ready,
)
