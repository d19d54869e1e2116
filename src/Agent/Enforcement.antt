-- ===== src/Agent/Enforcement.antt =====
-- agent/src/agent.rs: `enforcement_loop`, `enforce`, and the measurements of `clock_sync_loop`.
use timelord.Prelude.{
  ◌+◌, ◌-◌, Bool, true, false, Option, none, some, String, min, ltb, if◌then◌else◌,
}
use timelord.Prelude.Int.{ℤ}
use timelord.Prelude.Time.{DateTime, Duration, from_secs}
use timelord.Events.{power_action_requested, power_action_completed, power_action_failed}
use timelord.Schedule.{
  PowerAction, sleep, shutdown, OffWindow, Schedule, event_name, active_window, next_off_at,
}
use timelord.Clock.{set_offset_ms, is_ready}
use timelord.Agent.{
  Agent, Instant, Report, schedule_sync_grace, now, invalidate_schedule_sync, enforcement_view,
  request_flush, enqueue,
}

abbrev pub sleep_detect_slack : Duration
sleep_detect_slack = from_secs 30

abbrev pub enforcement_max_wait : Duration
enforcement_max_wait = from_secs 60

abbrev pub shutdown_cooldown : Duration
shutdown_cooldown = from_secs 300

abbrev pub clock_resync_interval : Duration
clock_resync_interval = from_secs 900

abbrev pub clock_retry_interval : Duration
clock_retry_interval = from_secs 30

abbrev pub clock_retry_interval_known : Duration
clock_retry_interval_known = from_secs 300

-- How the platform's suspend or shutdown came out.
pub data Outcome : Type 0 where
  done panicked : Outcome
  failed : String → Outcome

-- What one call of `enforce` needs from outside. `at` is the clock as `elapsed` reads it, and
-- `noted_after` how much later the time of a shutdown request is read.
pub record Attempt : Type 0 where
  pub at : Instant
  pub noted_after : Duration
  pub requested : Report
  pub outcome : Outcome
  pub reported : Report

unfoldable pub report_outcome : Attempt → PowerAction → Outcome → Agent → Agent
report_outcome x action done a =
    enqueue x.reported (power_action_completed x.reported.stamp (event_name action)) a
report_outcome x action (failed reason) a =
    enqueue x.reported (power_action_failed x.reported.stamp (event_name action) reason) a
report_outcome x action panicked a = a

unfoldable pub request_action : Attempt → PowerAction → Agent → Agent
request_action x action a = report_outcome x action x.outcome (
    enqueue x.requested
      (power_action_requested x.requested.stamp (event_name action) "schedule off window") a)

unfoldable pub is_cooling_down : Instant → Option Instant → Bool
is_cooling_down at none = false
is_cooling_down at (some t) = ltb (at - t) shutdown_cooldown

-- What `enforce` leaves: the action that it asked the platform for, if it did, the time of the last
-- shutdown request, and the agent.
pub record Enforced : Type 0 where
  pub asked : Option PowerAction
  pub last_shutdown_request : Option Instant
  pub agent : Agent

unfoldable pub enforce : Attempt → PowerAction → Option Instant → Agent → Enforced
enforce x sleep last a = record {
  asked = some sleep;
  last_shutdown_request = last;
  agent = request_action x sleep a;
}
enforce x shutdown last a =
    if is_cooling_down x.at last
    then record { asked = none; last_shutdown_request = last; agent = a }
    else record {
      asked = some shutdown;
      last_shutdown_request = some (x.at + x.noted_after);
      agent = request_flush (request_action x shutdown a);
    }

-- One round of `enforcement_loop` up to its wait. `resumed` is the monotonic time after a suspend.
pub record Round : Type 0 where
  pub system : DateTime
  pub at : Instant
  pub attempt : Attempt
  pub resumed : Instant

pub record Outlook : Type 0 where
  pub enforced : Enforced
  pub wait : Duration

abbrev pub idle_round : Option Instant → Agent → Enforced
idle_round last a = record { asked = none; last_shutdown_request = last; agent = a }

unfoldable pub invalidate_after_sleep : PowerAction → Instant → Enforced → Enforced
invalidate_after_sleep sleep resumed e = record e {
  agent = invalidate_schedule_sync resumed e.agent;
}
invalidate_after_sleep shutdown resumed e = e

-- The wait while a schedule is held back.
unfoldable pub held_wait : Option Duration → Duration
held_wait none = enforcement_max_wait
held_wait (some hold) = min enforcement_max_wait hold

unfoldable pub next_wait : Option DateTime → DateTime → Duration → Duration
next_wait none now wait = wait
next_wait (some t) now wait = min wait (t - now)

-- Inside a window the action is taken; outside of one, the wait ends when the next starts.
unfoldable pub act :
    Round → Option Instant → Schedule → Duration → Option OffWindow → Agent → Outlook
act x last s wait (some w) a = record {
  enforced = invalidate_after_sleep s.action x.resumed (enforce x.attempt s.action last a);
  wait = wait;
}
act x last s wait none a = record {
  enforced = idle_round last a;
  wait = next_wait (next_off_at s (now x.system a)) (now x.system a) wait;
}

unfoldable pub round_on :
    Round → Option Instant → Option Schedule × Option Duration → Agent → Outlook
round_on x last (none, held_for) a = record {
  enforced = idle_round last a;
  wait = held_wait held_for;
}
round_on x last (some s, held_for) a =
    act x last s (held_wait held_for) (active_window s (now x.system a)) a

unfoldable pub enforcement_round : Round → Option Instant → Agent → Outlook
enforcement_round x last a = round_on x last (enforcement_view x.at schedule_sync_grace a) a

-- After the wait: `woke` and `planned_wake` are readings of the system clock.
unfoldable pub wake : DateTime → DateTime → Instant → Agent → Agent
wake planned_wake woke at a =
    if ltb sleep_detect_slack (woke - planned_wake) then invalidate_schedule_sync at a else a

-- A measurement of `clock_sync_loop`, with the time of the next one.
unfoldable pub clock_sync : Option ℤ → Instant → Agent → Instant × Agent
clock_sync (some offset) at a = (
  at + clock_resync_interval,
  record a { clock = set_offset_ms offset a.clock; schedule_changed = true },
)
clock_sync none at a = (
  at + (if is_ready a.clock then clock_retry_interval_known else clock_retry_interval),
  record a { schedule_changed = true },
)
