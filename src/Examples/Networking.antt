-- ===== src/Examples/Networking.antt =====
-- The theorems on the networking side, applied.
use timelord.Prelude.{ℕ, ◌-◌, ◌*◌, ◌≤◌, ◌≡◌, refl, true, false, none, some, List, [], ◌∷◌, arith}
use timelord.Prelude.FilterMap.{filter_map}
use timelord.Prelude.Int.{pos}
use timelord.Prelude.Result.{ok, err}
use timelord.Prelude.Time.{DateTime, second}
use timelord.Protocol.{RegisterResponse, HeartbeatResponse, EventResult, EventResultStatus}
use timelord.Queue.{PendingDelivery}
use timelord.Schedule.{sleep, active_window, next_off_at, enforcement_ready}
use timelord.Clock
use timelord.Agent.{Agent, schedule_sync_grace, enforcement_view, now, note_disconnected}
use timelord.Client.{request_error}
use timelord.Agent.Networking.{
  Registration, Heartbeat, Writes, registered, heartbeat, schedule_poll, settle,
}
use timelord.Agent.Enforcement.{
  Attempt, Round, round_on, act, enforce, invalidate_after_sleep, next_wait, held_wait,
  enforcement_round, enforcement_max_wait, done,
}
use timelord.Agent.Gate.{Unconfirmed, held_until_confirmed, Enforces, confirmed_at_once}
use timelord.Agent.Delivery.{fate, settle_rows}
use timelord.Agent.Due.{due_action, asked_exactly}
use timelord.Agent.Waiting.{IsInWindow, asks-IsInWindow, wait_misses_nothing}
use timelord.Agent.Cooldown.{asked_at, IsSpaced, requests-IsSpaced}
use timelord.Agent.Connection.{answered, failed, note_each, edges, edges_reported}
use timelord.Config.{written}
use timelord.Discovery.{DiscoveredController, Search, resolve_controller_url}
use timelord.Discovery.Rounds.{IsFirstFound, resolve-IsFirstFound}
use timelord.Examples.{started_agent, a_report, two_rows, event_numbered, evening}

-- The same agent after the controller has confirmed the schedule.
abbrev confirmed_agent : Agent
confirmed_agent = record started_agent { schedule_sync = record { confirmed = true; since = 0 } }

held_until_confirmed_example :
    enforcement_view
      (30 * second)
      schedule_sync_grace
      (note_disconnected a_report "timeout" started_agent)
    ≡ (
      none,
      some (
          schedule_sync_grace
          - (30 * second
              - (note_disconnected a_report "timeout" started_agent).schedule_sync.since)),
    )
unfolding note_disconnected
held_until_confirmed_example =
    held_until_confirmed started_agent (note_disconnected a_report "timeout" started_agent)
      (30 * second) schedule_sync_grace refl
      (Unconfirmed.heartbeat_failed a_report "timeout" Unconfirmed.here) (omega arith) (omega arith)

abbrev a_registration : Registration
a_registration = record {
  answer = err (request_error "refused");
  report = a_report;
  save_fails = false;
}

abbrev a_heartbeat : Heartbeat
a_heartbeat = record {
  answer = err (request_error "refused");
  url = "http://controller";
  connection = a_report;
  save_fails = false;
  sent = a_report;
  registrations = [];
}

abbrev a_registration_response : RegisterResponse
a_registration_response = record {
  device_id = 1;
  controller_id = 2;
  registered_at = 3;
  heartbeat_interval_seconds = 60;
  accepted = true;
  schedule = some evening;
}

abbrev a_heartbeat_response : HeartbeatResponse
a_heartbeat_response = record {
  accepted = true;
  server_time = 3;
  heartbeat_interval_seconds = 60;
  schedule = none;
}

confirmed_at_once_example :
    Enforces 5 schedule_sync_grace
      (some evening)
      (registered a_registration a_registration_response started_agent)
    × Enforces 5 schedule_sync_grace none
        (heartbeat (record a_heartbeat { answer = ok a_heartbeat_response }) started_agent)
    × Enforces 5 schedule_sync_grace none (schedule_poll (ok none) false started_agent)
unfolding Clock.is_ready
confirmed_at_once_example =
    confirmed_at_once started_agent a_registration a_heartbeat false a_registration_response
      a_heartbeat_response none 5 schedule_sync_grace refl

abbrev first_delivery : PendingDelivery
first_delivery = record { row_id = 1; event = event_numbered 1; attempt_count = 0 }

abbrev second_delivery : PendingDelivery
second_delivery = record { row_id = 2; event = event_numbered 2; attempt_count = 47 }

abbrev working : Writes
working = record { fails = λ id. false; now = λ id. 70 }

abbrev results : List EventResult
results =
    record { event_id = 1; status = EventResultStatus.accepted; reason = none }
    ∷ record { event_id = 2; status = EventResultStatus.rejected; reason = some "too old" }
    ∷ []

settle_rows_example :
    (settle working (first_delivery ∷ second_delivery ∷ []) results two_rows).rows
    ≡ filter_map (fate working (first_delivery ∷ second_delivery ∷ []) results) two_rows.rows
settle_rows_example =
    settle_rows working (first_delivery ∷ second_delivery ∷ []) results two_rows
      ((λ e. absurd (ground (arith, e)), tt), (tt, tt))

abbrev attempt_at : ℕ → Attempt
attempt_at t = record {
  at = t;
  noted_after = 1;
  requested = a_report;
  outcome = done;
  reported = a_report;
}

abbrev round_at : DateTime → Round
round_at t = record { system = t; at = 9; attempt = attempt_at 9; resumed = 10 }

asks-IsInWindow_example : IsInWindow (round_at (4000 * second)) confirmed_agent sleep
unfolding enforcement_round round_on enforcement_view enforcement_ready active_window act enforce
    invalidate_after_sleep now Clock.now Clock.is_ready
asks-IsInWindow_example = asks-IsInWindow (round_at (4000 * second)) none confirmed_agent sleep refl

asked_exactly_example :
    (enforcement_round (round_at (4000 * second)) none confirmed_agent).enforced.asked
    ≡ due_action (round_at (4000 * second)) none confirmed_agent
asked_exactly_example = asked_exactly (round_at (4000 * second)) none confirmed_agent

wait_misses_nothing_example :
    (active_window evening (3030 * second) ≡ none)
    × ((enforcement_round (round_at (3000 * second)) none confirmed_agent).wait
        ≤ enforcement_max_wait)
unfolding enforcement_round round_on enforcement_view enforcement_ready active_window act next_wait
    held_wait next_off_at now Clock.now Clock.is_ready
wait_misses_nothing_example =
    wait_misses_nothing (round_at (3000 * second)) none confirmed_agent evening (3030 * second) refl
      refl (omega arith) (omega arith)

requests-IsSpaced_example :
    IsSpaced none
      (asked_at ((attempt_at 5, started_agent) ∷ (attempt_at 6, started_agent) ∷ []) none)
requests-IsSpaced_example =
    requests-IsSpaced ((attempt_at 5, started_agent) ∷ (attempt_at 6, started_agent) ∷ []) none

edges_reported_example :
    (note_each
      (answered a_report "http://controller" ∷ failed a_report "timeout" ∷ [])
      started_agent).queue
    ≡ edges false (answered a_report "http://controller" ∷ failed a_report "timeout" ∷ []) two_rows
edges_reported_example =
    edges_reported (answered a_report "http://controller" ∷ failed a_report "timeout" ∷ [])
      started_agent

abbrev candidate : ℕ → ℕ → DiscoveredController
candidate id delay = record {
  controller_id = id;
  controller_name = "home";
  controller_url = "http://controller";
  priority = pos 5;
  response_time = delay;
}

abbrev two_rounds : List Search
two_rounds =
    record { found = err "no route"; start = a_report; outcome = a_report; write = written }
    ∷ record {
      found = ok (candidate 2 30 ∷ candidate 1 20 ∷ []);
      start = a_report;
      outcome = a_report;
      write = written;
    }
    ∷ []

resolve-IsFirstFound_example :
    IsFirstFound two_rounds
      (resolve_controller_url true (some "http://old") two_rounds started_agent).0
    × IsFirstFound two_rounds (resolve_controller_url false none two_rounds started_agent).0
resolve-IsFirstFound_example = resolve-IsFirstFound (some "http://old") two_rounds started_agent
