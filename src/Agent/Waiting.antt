-- ===== src/Agent/Waiting.antt =====
-- What a round of the enforcement loop does, and what it may sleep through.
use mathlib.Core.Path.{subst}
use timelord.Prelude.{◌+◌, ◌≤◌, ◌<◌, ◌≡◌, refl, sym, ap, ◌∙◌, Option, none, some, arith}
use timelord.Prelude.Time.{DateTime, Duration}
use timelord.Schedule.{
  PowerAction, sleep, shutdown, OffWindow, Schedule, active_window, next_off_at,
}
use timelord.Schedule.Windows.{quiet_until_next, IsBefore}
use timelord.Agent.{Agent, Instant, schedule_sync_grace, now, enforcement_view}
use timelord.Agent.Enforcement.{
  Attempt, Round, Enforced, enforce, invalidate_after_sleep, act, round_on, enforcement_round,
  held_wait, next_wait, enforcement_max_wait,
}

-- The schedule that a round enforces, with its window around the corrected time.
abbrev pub IsInWindow : Round → Agent → PowerAction → Type 0
IsInWindow x a p =
    (s : Schedule) × (w : OffWindow) × ((enforcement_view x.at schedule_sync_grace a).0 ≡ some s)
    × (active_window s (now x.system a) ≡ some w)
    × (p ≡ s.action)

pub after_sleep-asked :
    (p : PowerAction) (at : Instant) (e : Enforced)
    → (invalidate_after_sleep p at e).asked ≡ e.asked
unfolding invalidate_after_sleep
after_sleep-asked sleep at e = refl
after_sleep-asked shutdown at e = refl

enforce-asked :
    (x : Attempt) (p q : PowerAction) (last : Option Instant) (a : Agent)
    → (enforce x p last a).asked ≡ some q
    → q ≡ p
unfolding enforce
enforce-asked x sleep q last a h = ground (arith, h)
enforce-asked x shutdown q last a h = ground (arith, h)

act-asks :
    (x : Round) (last : Option Instant) (s : Schedule) (wait : Duration) (m : Option OffWindow)
    (a : Agent) (p : PowerAction)
    → active_window s (now x.system a) ≡ m
    → (act x last s wait m a).enforced.asked ≡ some p
    → (w : OffWindow) × (active_window s (now x.system a) ≡ some w) × (p ≡ s.action)
unfolding act
act-asks x last s wait none a p e h = absurd (ground (arith, h))
act-asks x last s wait (some w) a p e h = (
  w,
  e,
  enforce-asked x.attempt s.action p last a
      (sym (after_sleep-asked s.action x.resumed (enforce x.attempt s.action last a)) ∙ h),
)

round_on-asks :
    (x : Round) (last : Option Instant) (view : Option Schedule × Option Duration) (a : Agent)
    (p : PowerAction)
    → enforcement_view x.at schedule_sync_grace a ≡ view
    → (round_on x last view a).enforced.asked ≡ some p
    → IsInWindow x a p
unfolding round_on
round_on-asks x last (none, held) a p e h = absurd (ground (arith, h))
round_on-asks x last (some s, held) a p e h =
    let (w, inside, same) =
      act-asks x last s (held_wait held) (active_window s (now x.system a)) a p refl h in
    (s, w, ap (λ v. v.0) e, inside, same)

-- A round asks the platform for an action only inside a window of a schedule that may be enforced,
-- and only for the action of that schedule.
pub asks-IsInWindow :
    (x : Round) (last : Option Instant) (a : Agent) (p : PowerAction)
    → (enforcement_round x last a).enforced.asked ≡ some p
    → IsInWindow x a p
unfolding enforcement_round
asks-IsInWindow x last a p h =
    round_on-asks x last (enforcement_view x.at schedule_sync_grace a) a p refl h

IsBefore-next_wait :
    (m : Option DateTime) (t u : DateTime) (wait : Duration)
    → t ≤ u
    → u < t + next_wait m t wait
    → IsBefore u m
unfolding next_wait
IsBefore-next_wait none t u wait le h = tt
IsBefore-next_wait (some n) t u wait le h = omega arith

next_wait-le : (m : Option DateTime) (t : DateTime) (wait : Duration) → next_wait m t wait ≤ wait
unfolding next_wait
next_wait-le none t wait = omega arith
next_wait-le (some n) t wait = omega arith

wait_exact :
    (x : Round) (last : Option Instant) (a : Agent) (s : Schedule)
    → enforcement_view x.at schedule_sync_grace a ≡ (some s, none)
    → active_window s (now x.system a) ≡ none
    → (enforcement_round x last a).wait
      ≡ next_wait (next_off_at s (now x.system a)) (now x.system a) enforcement_max_wait
unfolding enforcement_round round_on act held_wait
wait_exact x last a s view quiet = rw (view, quiet) refl

-- Outside the windows of the schedule that it enforces, a round waits at most a minute, and no window
-- is active at any time before that wait ends.
pub wait_misses_nothing :
    (x : Round) (last : Option Instant) (a : Agent) (s : Schedule) (u : DateTime)
    → enforcement_view x.at schedule_sync_grace a ≡ (some s, none)
    → active_window s (now x.system a) ≡ none
    → now x.system a ≤ u
    → u < now x.system a + (enforcement_round x last a).wait
    → (active_window s u ≡ none) × ((enforcement_round x last a).wait ≤ enforcement_max_wait)
wait_misses_nothing x last a s u view quiet le h =
    let t = now x.system a in
    let e = wait_exact x last a s view quiet in
    (
      quiet_until_next s t u quiet le (
          IsBefore-next_wait (next_off_at s t) t u enforcement_max_wait le
            (subst (λ d. u < t + d) e h)),
      subst (λ d. d ≤ enforcement_max_wait) (sym e)
          (next_wait-le (next_off_at s t) t enforcement_max_wait),
    )
