-- ===== src/Agent/Due.antt =====
-- agent/src/agent.rs: which action a round of the enforcement loop asks the platform for.
use timelord.Prelude.{
  ◌+◌, ◌-◌, ◌≡◌, refl, ap, ◌∙◌, false, true, Option, none, some, arith, Bool, not, ◌&&◌, ◌||◌, any,
  leb, ltb, if◌then◌else◌, Bool-cases, inl, inr, is_some, find-any,
}
use timelord.Prelude.Time.{DateTime, Duration}
use timelord.Schedule.{
  PowerAction, sleep, shutdown, OffWindow, Schedule, active_window, enforcement_ready, is_within,
}
use timelord.Clock.{is_ready}
use timelord.Agent.{Agent, Instant, schedule_sync_grace, now, enforcement_view}
use timelord.Agent.Enforcement.{
  Attempt, Round, enforce, is_cooling_down, act, round_on, enforcement_round, held_wait,
  shutdown_cooldown,
}
use timelord.Agent.Waiting.{after_sleep-asked}

-- Whether a schedule may be enforced: the clock is usable and a controller has confirmed the schedule,
-- or the grace since the start or the last sleep is over.
abbrev pub may_enforce : Instant → Agent → Bool
may_enforce at a =
    (a.schedule_sync.confirmed && (not a.clock.enabled || a.clock.synced))
    || leb (a.schedule_sync.since + schedule_sync_grace) at

abbrev pub is_off : DateTime → Schedule → Bool
is_off t s = any (λ w. leb w.off_at t && ltb t w.on_at) s.windows

-- Whether a shutdown was already asked for, with the cooldown from then on not yet over.
abbrev pub is_repeated : PowerAction → Instant → Option Instant → Bool
is_repeated sleep at last = false
is_repeated shutdown at none = false
is_repeated shutdown at (some t) = ltb at (t + shutdown_cooldown)

-- What a round is to ask of the platform for a schedule, if there is one; `allowed` is whether the
-- schedule may be enforced.
abbrev pub due_of : Round → Option Instant → Agent → Bool → Option Schedule → Option PowerAction
due_of x last a allowed none = none
due_of x last a allowed (some s) =
    if allowed && is_off (now x.system a) s && not (is_repeated s.action x.attempt.at last)
    then some s.action
    else none

abbrev pub due_action : Round → Option Instant → Agent → Option PowerAction
due_action x last a = due_of x last a (may_enforce x.at a) a.schedule

cooling_until :
    (at : Instant) (last : Option Instant) → is_cooling_down at last ≡ is_repeated shutdown at last
unfolding is_cooling_down
cooling_until at none = refl
cooling_until at (some t) = ground arith

enforce-exact :
    (x : Attempt) (p : PowerAction) (last : Option Instant) (a : Agent)
    → (enforce x p last a).asked ≡ (if not (is_repeated p x.at last) then some p else none)
unfolding enforce
enforce-exact x sleep last a = refl
enforce-exact x shutdown last a =
    rw (cooling_until x.at last) (elim (Bool-cases (is_repeated shutdown x.at last)) [
      | inl cool ↦ rw cool refl
      | inr ask ↦ rw ask refl
    ])

module _ (x : Round) (last : Option Instant) (a : Agent) where
  act-exact :
      (s : Schedule) (wait : Duration) (m : Option OffWindow)
      → (act x last s wait m a).enforced.asked ≡ (
          if is_some m && not (is_repeated s.action x.attempt.at last) then some s.action else none)
  unfolding act
  act-exact s wait none = refl
  act-exact s wait (some w) =
      after_sleep-asked s.action x.resumed (enforce x.attempt s.action last a)
      ∙ enforce-exact x.attempt s.action last a

  active-is_off :
      (s : Schedule) → is_some (active_window s (now x.system a)) ≡ is_off (now x.system a) s
  unfolding active_window
  active-is_off s = find-any (is_within (now x.system a)) s.windows

  round_on-exact :
      (b : Bool) (m : Option Schedule) (d : Duration)
      → (round_on x last (if b then (m, none) else (none, some d)) a).enforced.asked
        ≡ due_of x last a b m
  unfolding round_on
  round_on-exact true none d = refl
  round_on-exact false none d = refl
  round_on-exact true (some s) d =
      act-exact s (held_wait none) (active_window s (now x.system a)) ∙ rw (active-is_off s) refl
  round_on-exact false (some s) d = refl

may_enforce-exact :
    (x : Round) (a : Agent)
    → enforcement_ready
        (a.schedule_sync.confirmed && is_ready a.clock)
        (x.at - a.schedule_sync.since)
        schedule_sync_grace
      ≡ may_enforce x.at a
unfolding enforcement_ready is_ready
may_enforce-exact x a = ground arith

-- A round asks the platform for the schedule's action exactly if the schedule may be enforced, since a
-- controller has confirmed it with the clock usable or since the grace is over, the corrected time is
-- in one of its windows, and, if the action is a shutdown, none was asked for within the cooldown; else
-- it asks for nothing.
pub asked_exactly :
    (x : Round) (last : Option Instant) (a : Agent)
    → (enforcement_round x last a).enforced.asked ≡ due_action x last a
unfolding enforcement_round enforcement_view
asked_exactly x last a =
    round_on-exact x last a
      (enforcement_ready (a.schedule_sync.confirmed && is_ready a.clock)
        (x.at - a.schedule_sync.since) schedule_sync_grace)
      a.schedule (schedule_sync_grace - (x.at - a.schedule_sync.since))
    ∙ ap (λ b. due_of x last a b a.schedule) (may_enforce-exact x a)
