-- ===== src/Examples/Living.antt =====
-- The theorems on the platform's notifications, the clock loop and the agent's life, applied.
use timelord.Prelude.{ℕ, ◌≡◌, ◌↔◌, refl, true, false, none, some, List, [], ◌∷◌, ◌++◌, arith}
use timelord.Prelude.Result.{ok}
use timelord.Config.{AgentConfig, resolve, default_file, from_process_env, no_overrides}
use timelord.Tracker.{SessionId, is_active, is_logged_on, new, apply, recompute, observe}
use timelord.Tracker.Presence.{presence_after, asleep_after}
use timelord.Prelude.Map.{lookup, insert}
use timelord.Recorder.{UsageRecorder, from_store, handle_at, is_repeated_logon, persist, report}
use timelord.Recorder.Consistent.{IsConsistent}
use timelord.Recorder.Reporting.{types_in}
use timelord.Store.{start_session}
use timelord.Events.{system_shutdown}
use timelord.Platform.{
  Handling, SessionEntry, Delivered, session_change, session_logon, session_lock, power_broadcast,
  apm_suspend, wts_active, wndproc, pump, seed_session, seed_active_sessions, is_present,
}
use timelord.Platform.Pump.{heard, pump-InUse}
use timelord.Platform.Seeding.{unknown_lock_in_use}
use timelord.Lifecycle.{Process, Step, notified, woken, Ending, perform, perform_each, stop}
use timelord.Lifecycle.CleanLife.{life_ends_clean}
use timelord.Lifecycle.Reports.{stop_types, stop_reports}
use timelord.Examples.{fresh_recorder, inputs_from, stamp_numbered, started_agent, a_report}

abbrev handling_at : ℕ → ℕ → Handling
handling_at id at = record { inputs = inputs_from id; now = at }

-- A session with a user, whose lock state Windows does not know.
abbrev found_session : SessionEntry
found_session = record {
  state = wts_active;
  session = 1;
  username = some "ann";
  locked = none;
  logon = handling_at 7 10;
  lock = handling_at 8 10;
}

abbrev logged_on : Delivered
logged_on = record {
  message = session_change session_logon 1;
  username = some "ann";
  handling = handling_at 7 10;
}

abbrev locked_later : Delivered
locked_later = record {
  message = session_change session_lock 1;
  username = some "ann";
  handling = handling_at 8 20;
}

abbrev falls_asleep : Delivered
falls_asleep = record {
  message = power_broadcast apm_suspend;
  username = none;
  handling = handling_at 9 30;
}

pump-InUse_example :
    (is_active
        (pump
          (locked_later ∷ falls_asleep ∷ [])
          (seed_active_sessions (found_session ∷ []) fresh_recorder)).tracker
      ≡ true)
    ↔ ((asleep_after (heard (found_session ∷ []) (locked_later ∷ falls_asleep ∷ [])) false ≡ false)
        × ((id : SessionId) × (presence_after id
                (heard (found_session ∷ []) (locked_later ∷ falls_asleep ∷ []))
                none
              ≡ some true)))
unfolding new
pump-InUse_example =
    pump-InUse (found_session ∷ []) (locked_later ∷ falls_asleep ∷ []) fresh_recorder refl

unknown_lock_in_use_example : is_active (seed_session found_session fresh_recorder).tracker ≡ true
unfolding is_present is_logged_on lookup
unknown_lock_in_use_example =
    unknown_lock_in_use found_session "ann" fresh_recorder refl refl refl refl refl

abbrev a_config : AgentConfig
a_config =
    resolve (λ s. none) default_file
      (from_process_env (record {
        timelord_controller_url = none;
        timelord_device_id = none;
        timelord_device_name = none;
        timelord_discovery_enabled = none;
      }))
      no_overrides "den" 3

abbrev started_process : Process
started_process = record { config = a_config; agent = started_agent; recorder = fresh_recorder }

abbrev a_life : List Step
a_life = notified logged_on ∷ woken 40 41 41 ∷ notified locked_later ∷ []

abbrev shut_down : Ending
shut_down = record {
  shutdown_requested = true;
  store_fault = none;
  now = 50;
  version = "1.0";
  shutdown_report = record a_report { stamp = stamp_numbered 60 };
  stopping_report = record a_report { stamp = stamp_numbered 61 };
}

life_ends_clean_example :
    (next : UsageRecorder) × (from_store none
        (stop shut_down (perform_each a_life started_process)).recorder.store
      ≡ ok next)
    × (next.tracker ≡ new)
    × IsConsistent next
unfolding perform wndproc handle_at is_repeated_logon lookup persist apply recompute observe insert
    start_session report
life_ends_clean_example =
    life_ends_clean a_life shut_down started_process refl
      (
        record { no_fault = refl; fresh = refl },
        (tt, (record { no_fault = refl; fresh = refl }, tt)),
      )
      refl

stop_reports_example :
    (types_in (stop shut_down started_process).agent.queue
      ≡ types_in started_process.agent.queue ++ stop_types true)
    × ((stop shut_down started_process).agent.shutdown ≡ true)
unfolding system_shutdown
stop_reports_example =
    stop_reports shut_down started_process ((refl, refl, omega arith), (refl, refl, omega arith))
