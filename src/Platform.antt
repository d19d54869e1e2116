-- ===== src/Platform.antt =====
-- agent/src/platform/windows.rs and dev.rs: how the notifications of the system reach the recorder.
-- The messages that Windows posts, and what its queries answer, are arguments; the constants of the
-- windows crate are constructors.
pub mod Pump
pub mod Seeding
use timelord.Prelude.{
  ℕ, Bool, true, false, ◌||◌, Option, none, some, List, [], ◌∷◌, ◌++◌, String, unwrap_or,
  if◌then◌else◌,
}
use timelord.Prelude.Result.{Result, ok, err}
use timelord.Prelude.Text.{same_text}
use timelord.Prelude.Time.{DateTime}
use timelord.Store.{StoreError}
use timelord.Tracker.{SessionEvent, SessionId, is_active}
use timelord.Recorder.{UsageRecorder, Inputs, handle_at, shutdown}

-- The reasons of WM_WTSSESSION_CHANGE.
pub data WtsReason : Type 0 where
  session_logon session_logoff session_lock session_unlock : WtsReason
  console_connect console_disconnect remote_connect remote_disconnect : WtsReason
  other_reason : ℕ → WtsReason

-- The events of WM_POWERBROADCAST.
pub data PowerBroadcast : Type 0 where
  apm_suspend apm_resume_automatic apm_resume_suspend : PowerBroadcast
  other_power : ℕ → PowerBroadcast

pub data WindowMessage : Type 0 where
  session_change : WtsReason → SessionId → WindowMessage
  power_broadcast : PowerBroadcast → WindowMessage
  destroy : WindowMessage
  other_message : ℕ → WindowMessage

unfoldable pub wts_reason_to_event : WtsReason → SessionId → Option SessionEvent
wts_reason_to_event session_logon id = some (SessionEvent.logon id)
wts_reason_to_event session_logoff id = some (SessionEvent.logoff id)
wts_reason_to_event session_lock id = some (SessionEvent.lock id)
wts_reason_to_event session_unlock id = some (SessionEvent.unlock id)
wts_reason_to_event console_connect id = some (SessionEvent.console_connect id)
wts_reason_to_event console_disconnect id = some (SessionEvent.console_disconnect id)
wts_reason_to_event remote_connect id = some (SessionEvent.remote_connect id)
wts_reason_to_event remote_disconnect id = some (SessionEvent.remote_disconnect id)
wts_reason_to_event (other_reason code) id = none

unfoldable pub power_event : PowerBroadcast → Option SessionEvent
power_event apm_suspend = some SessionEvent.suspend
power_event apm_resume_automatic = some SessionEvent.resume
power_event apm_resume_suspend = some SessionEvent.resume
power_event (other_power code) = none

-- What one call of `handle` needs: the fresh ids and failures, and the reading of the clock.
pub record Handling : Type 0 where
  pub inputs : Inputs
  pub now : DateTime

-- A failure to persist is logged.
unfoldable pub dispatch : Handling → SessionEvent → Option String → UsageRecorder → UsageRecorder
dispatch x event username r = (handle_at x.inputs event username x.now r).1

-- `username` is what `session_username` answers for the session of the message.
pub record Delivered : Type 0 where
  pub message : WindowMessage
  pub username : Option String
  pub handling : Handling

-- The event of a message, with the username that is resolved for it.
unfoldable pub event_of : WindowMessage → Option String → Option (SessionEvent × Option String)
unfolding wts_reason_to_event power_event
event_of (session_change reason id) username = elim (wts_reason_to_event reason id) [
  | none ↦ none
  | some event ↦ some (event, username)
]
event_of (power_broadcast p) username = elim (power_event p) [
  | none ↦ none
  | some event ↦ some (event, none)
]
event_of destroy username = none
event_of (other_message code) username = none

unfoldable pub dispatch_if :
    Handling → Option (SessionEvent × Option String) → UsageRecorder → UsageRecorder
unfolding dispatch
dispatch_if x none r = r
dispatch_if x (some (event, username)) r = dispatch x event username r

unfoldable pub wndproc : Delivered → UsageRecorder → UsageRecorder
unfolding event_of dispatch_if
wndproc d r = dispatch_if d.handling (event_of d.message d.username) r

-- The messages up to WM_QUIT.
unfoldable pub pump : List Delivered → UsageRecorder → UsageRecorder
pump [] r = r
pump (d ∷ messages) r = pump messages (wndproc d r)

pub data WtsState : Type 0 where
  wts_active wts_connected : WtsState
  wts_other : ℕ → WtsState

unfoldable pub is_present : WtsState → Bool
is_present wts_active = true
is_present wts_connected = true
is_present (wts_other code) = false

-- An entry of WTSEnumerateSessions, with the answers of `session_username` and `session_locked`.
pub record SessionEntry : Type 0 where
  pub state : WtsState
  pub session : SessionId
  pub username : Option String
  pub locked : Option Bool
  pub logon : Handling
  pub lock : Handling

unfoldable pub seed_lock : SessionEntry → Option Bool → UsageRecorder → UsageRecorder
unfolding dispatch
seed_lock e (some true) r = dispatch e.lock (SessionEvent.lock e.session) none r
seed_lock e (some false) r = r
seed_lock e none r = r

unfoldable pub seed_named : SessionEntry → Option String → UsageRecorder → UsageRecorder
unfolding dispatch seed_lock
seed_named e none r = r
seed_named e (some username) r =
    seed_lock e e.locked (dispatch e.logon (SessionEvent.logon e.session) (some username) r)

unfoldable pub seed_session : SessionEntry → UsageRecorder → UsageRecorder
unfolding is_present seed_named
seed_session e r = if is_present e.state then seed_named e e.username r else r

unfoldable pub seed_active_sessions : List SessionEntry → UsageRecorder → UsageRecorder
seed_active_sessions [] r = r
seed_active_sessions (e ∷ entries) r = seed_active_sessions entries (seed_session e r)

-- `run` once its window and registrations are there. The last handling is that of `shutdown`, whose
-- failure is logged.
unfoldable pub run_windows :
    List SessionEntry → List Delivered → Option ℕ → DateTime → UsageRecorder → UsageRecorder
unfolding seed_active_sessions pump
run_windows entries messages fault now r =
    (shutdown fault now (pump messages (seed_active_sessions entries r))).1

-- The commands of the development backend, from the words of a line.
pub data Command : Type 0 where
  nothing quit : Command
  event : SessionEvent → Option String → Command

abbrev dev_session : SessionId
dev_session = 1

abbrev first_word : List String → Option String
first_word [] = none
first_word (w ∷ words) = some w

unfoldable pub parse_words : String → List String → Command
parse_words w rest =
    let is = λ (t : String). same_text w t in
    if is "quit" || is "exit"
    then quit
    else if is "logon"
    then event (SessionEvent.logon dev_session) (some (unwrap_or (first_word rest) "dev-user"))
    else if is "logoff"
    then event (SessionEvent.logoff dev_session) none
    else if is "lock"
    then event (SessionEvent.lock dev_session) none
    else if is "unlock"
    then event (SessionEvent.unlock dev_session) none
    else if is "console-connect"
    then event (SessionEvent.console_connect dev_session) none
    else if is "console-disconnect"
    then event (SessionEvent.console_disconnect dev_session) none
    else if is "remote-connect"
    then event (SessionEvent.remote_connect dev_session) none
    else if is "remote-disconnect"
    then event (SessionEvent.remote_disconnect dev_session) none
    else if is "suspend"
    then event SessionEvent.suspend none
    else if is "resume"
    then event SessionEvent.resume none
    else nothing

unfoldable pub parse_command : List String → Command
unfolding parse_words
parse_command [] = nothing
parse_command (w ∷ words) = parse_words w words

-- The loop over the lines: the first error of the recorder ends it.
unfoldable pub run_lines :
    List (List String × Handling) → UsageRecorder → Result StoreError (Unit {0}) × UsageRecorder
unfolding parse_command
run_lines [] r = (ok tt, r)
run_lines ((words, x) ∷ lines) r =
    let go_on = run_lines lines r in
    elim (parse_command words) [
      | nothing ↦ go_on
      | quit ↦ (ok tt, r)
      | event e username ↦
          let handled = handle_at x.inputs e username x.now r in
          let rest = run_lines lines handled.1 in
          elim handled.0 [ ok _ ↦ rest | err failure ↦ (err failure, handled.1) ]
    ]

unfoldable pub run_dev :
    List (List String × Handling)
    → Option ℕ
    → DateTime
    → UsageRecorder
    → Result StoreError (Unit {0}) × UsageRecorder
unfolding run_lines
run_dev lines fault now r =
    let handled = run_lines lines r in
    elim handled.0 [ ok _ ↦ shutdown fault now handled.1 | err failure ↦ handled ]
