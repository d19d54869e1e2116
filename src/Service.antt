-- ===== src/Service.antt =====
-- agent/src/service_win.rs and agent/src/platform/windows.rs: the service's control handler with the
-- flags that it shares with the message pump, and the states that the service reports. Installing
-- and removing the service are calls of Windows and are left out.
pub mod Stopping
use timelord.Prelude.{
  Bool, true, false, ◌&&◌, Option, none, some, List, [], ◌∷◌, String, if◌then◌else◌,
}
use timelord.Prelude.Result.{Result, ok, err}

pub data ServiceControl : Type 0 where
  stop shutdown interrogate other : ServiceControl

pub data HandlerResult : Type 0 where
  no_error not_implemented : HandlerResult

-- PUMP_THREAD_ID is set, SHUTDOWN_REQUESTED, and WM_QUIT was posted to the pump's thread.
pub record Flags : Type 0 where
  pub pump_started : Bool
  pub shutdown_requested : Bool
  pub quit_posted : Bool

unfoldable pub init : Flags
init = record { pump_started = false; shutdown_requested = false; quit_posted = false }

unfoldable pub mark_shutdown_requested : Flags → Flags
mark_shutdown_requested f = record f { shutdown_requested = true }

-- `posts` is whether PostThreadMessageW succeeds, whose result is not looked at.
unfoldable pub request_stop : Bool → Flags → Flags
request_stop posts f = if f.pump_started && posts then record f { quit_posted = true } else f

unfoldable pub event_handler : ServiceControl → Bool → Flags → HandlerResult × Flags
unfolding mark_shutdown_requested request_stop
event_handler shutdown posts f =
    (HandlerResult.no_error, request_stop posts (mark_shutdown_requested f))
event_handler stop posts f = (HandlerResult.no_error, request_stop posts f)
event_handler interrogate posts f = (HandlerResult.no_error, f)
event_handler other posts f = (HandlerResult.not_implemented, f)

-- `run` of the platform starts by storing its thread's id.
unfoldable pub start_pump : Flags → Flags
start_pump f = record f { pump_started = true }

pub data ServiceState : Type 0 where
  start_pending running stopped : ServiceState

-- How registering the handler and the three reports end.
pub record Reporting : Type 0 where
  pub registered : Option String
  pub start_pending_error : Option String
  pub running_error : Option String
  pub stopped_error : Option String

-- The end: `result` is what `run_blocking` gave.
unfoldable pub report_stopped :
    Option String → Result String (Unit {0}) → Result String (Unit {0}) × List ServiceState
report_stopped (some reason) result = (err reason, [])
report_stopped none result = (result, stopped ∷ [])

unfoldable pub report_running :
    Reporting → Result String (Unit {0}) → Result String (Unit {0}) × List ServiceState
unfolding report_stopped
report_running x result = elim x.running_error [
  | some reason ↦ (err reason, [])
  | none ↦ let (ended, states) = report_stopped x.stopped_error result in (ended, running ∷ states)
]

-- The result, and the states that the service manager learns of.
unfoldable pub run_service :
    Reporting → Result String (Unit {0}) → Result String (Unit {0}) × List ServiceState
unfolding report_running
run_service x result = elim x.registered [
  | some reason ↦ (err reason, [])
  | none ↦ elim x.start_pending_error [
    | some reason ↦ (err reason, [])
    | none ↦ let (ended, states) = report_running x result in (ended, start_pending ∷ states)
  ]
]
