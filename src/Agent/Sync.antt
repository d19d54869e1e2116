-- ===== src/Agent/Sync.antt =====
-- What each operation of agent/src/agent.rs does to `schedule_sync`.
use timelord.Prelude.{
  ◌-◌, ◌≤◌, ◌≡◌, refl, sym, ap, ◌∙◌, Bool, true, Option, none, some, List, String, ltb, arith,
  Bool-cases, inl, inr,
}
use timelord.Prelude.Int.{ℤ}
use timelord.Prelude.Result.{Result, ok, err}
use timelord.Prelude.Time.{DateTime, Duration}
use timelord.Protocol.{AgentMessage, EventSubmissionResponse}
use timelord.Queue.{PendingDelivery, QueuedEvent}
use timelord.Schedule.{PowerAction, OffWindow, Schedule, sleep, shutdown, active_window}
use timelord.Agent.{
  Agent, Instant, Report, invalidate_schedule_sync, apply_messages, request_flush, enqueue,
  note_connected, note_disconnected, now,
}
use timelord.Client.{ClientError, to_string}
use timelord.Agent.Networking.{Writes, message_poll, finish_delivery}
use timelord.Agent.Enforcement.{
  Round, Enforced, act, round_on, is_cooling_down, enforce, held_wait, sleep_detect_slack,
  request_action, report_outcome, invalidate_after_sleep, wake, clock_sync, Attempt, Outcome, done,
  failed, panicked,
}

-- What an operation does to the gate: nothing, or close it again at a later time.
abbrev pub Holds : Agent → Agent → Type 0
Holds a b =
    (b.schedule_sync.confirmed ≡ true → a.schedule_sync.confirmed ≡ true)
    × (a.schedule_sync.since ≤ b.schedule_sync.since)

pub enqueue-sync :
    (r : Report) (e : QueuedEvent) (a : Agent) → (enqueue r e a).schedule_sync ≡ a.schedule_sync
unfolding enqueue
enqueue-sync r e a = refl

pub connected-sync :
    (r : Report) (url : String) (a : Agent)
    → (note_connected r url a).schedule_sync ≡ a.schedule_sync
unfolding note_connected enqueue request_flush
connected-sync r url a = ground arith

pub disconnected-sync :
    (r : Report) (reason : String) (a : Agent)
    → (note_disconnected r reason a).schedule_sync ≡ a.schedule_sync
unfolding note_disconnected enqueue
disconnected-sync r reason a = ground arith

pub delivery-sync :
    (w : Writes) (r : Report) (url : String) (pending : List PendingDelivery)
    (answer : Result ClientError EventSubmissionResponse) (a : Agent)
    → (finish_delivery w r url pending answer a).schedule_sync ≡ a.schedule_sync
unfolding finish_delivery
delivery-sync w r url pending (ok response) a = connected-sync r url a
delivery-sync w r url pending (err e) a = disconnected-sync r (to_string e) a

pub messages-sync :
    (answer : Result ClientError (List AgentMessage)) (fails : Bool) (system : DateTime) (a : Agent)
    → (message_poll answer fails system a).schedule_sync ≡ a.schedule_sync
unfolding message_poll apply_messages
messages-sync (ok incoming) fails system a = refl
messages-sync (err e) fails system a = refl

outcome-sync :
    (x : Attempt) (action : PowerAction) (o : Outcome) (a : Agent)
    → (report_outcome x action o a).schedule_sync ≡ a.schedule_sync
unfolding report_outcome enqueue
outcome-sync x action done a = refl
outcome-sync x action (failed reason) a = refl
outcome-sync x action panicked a = refl

enforce-sync :
    (x : Attempt) (action : PowerAction) (last : Option Instant) (a : Agent)
    → (enforce x action last a).agent.schedule_sync ≡ a.schedule_sync
unfolding enforce request_action request_flush enqueue
enforce-sync x sleep last a = outcome-sync x sleep x.outcome (enqueue x.requested _ a)
enforce-sync x shutdown last a = elim (Bool-cases (is_cooling_down x.at last)) [
  | inl cool ↦ rw cool refl
  | inr ask ↦ rw ask (outcome-sync x shutdown x.outcome (enqueue x.requested _ a))
]

pub same_sync : (a b : Agent) → b.schedule_sync ≡ a.schedule_sync → Holds a b
same_sync a b e = (λ c. sym (ap (λ s. s.confirmed) e) ∙ c, omega (arith, ap (λ s. s.since) e))

invalidate-Holds :
    (at : Instant) (a : Agent)
    → a.schedule_sync.since ≤ at
    → Holds a (invalidate_schedule_sync at a)
unfolding invalidate_schedule_sync
invalidate-Holds at a h = (λ c. absurd (ground (arith, c)), h)

after_sleep-Holds :
    (action : PowerAction) (resumed : Instant) (e : Enforced) (a : Agent)
    → e.agent.schedule_sync ≡ a.schedule_sync
    → a.schedule_sync.since ≤ resumed
    → Holds a (invalidate_after_sleep action resumed e).agent
unfolding invalidate_after_sleep invalidate_schedule_sync
after_sleep-Holds sleep resumed e a h le = (λ c. absurd (ground (arith, c)), le)
after_sleep-Holds shutdown resumed e a h le = same_sync a e.agent h

act-Holds :
    (x : Round) (last : Option Instant) (s : Schedule) (wait : Duration) (w : Option OffWindow)
    (a : Agent)
    → a.schedule_sync.since ≤ x.resumed
    → Holds a (act x last s wait w a).enforced.agent
unfolding act
act-Holds x last s wait (some w) a h =
    after_sleep-Holds s.action x.resumed (enforce x.attempt s.action last a) a
      (enforce-sync x.attempt s.action last a) h
act-Holds x last s wait none a h = same_sync a a refl

pub round_on-Holds :
    (x : Round) (last : Option Instant) (view : Option Schedule × Option Duration) (a : Agent)
    → a.schedule_sync.since ≤ x.resumed
    → Holds a (round_on x last view a).enforced.agent
unfolding round_on
round_on-Holds x last (none, held_for) a h = same_sync a a refl
round_on-Holds x last (some s, held_for) a h =
    act-Holds x last s (held_wait held_for) (active_window s (now x.system a)) a h

pub Holds-trans : (a b c : Agent) → Holds a b → Holds b c → Holds a c
Holds-trans a b c h k = (λ e. h.0 (k.0 e), omega (arith, h.1, k.1))

pub wake-Holds :
    (planned woke : DateTime) (at : Instant) (a : Agent)
    → a.schedule_sync.since ≤ at
    → Holds a (wake planned woke at a)
unfolding wake
wake-Holds planned woke at a h = elim (Bool-cases (ltb sleep_detect_slack (woke - planned))) [
  | inl late ↦ rw late (invalidate-Holds at a h)
  | inr intime ↦ rw intime (same_sync a a refl)
]

pub clock_sync-sync :
    (m : Option ℤ) (at : Instant) (a : Agent)
    → (clock_sync m at a).1.schedule_sync ≡ a.schedule_sync
unfolding clock_sync
clock_sync-sync none at a = refl
clock_sync-sync (some o) at a = refl
