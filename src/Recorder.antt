-- ===== src/Recorder.antt =====
-- agent/src/lib.rs: `UsageRecorder`, which drives the tracker, writes its sessions to the store and
-- mirrors every notification into the event queue. What the call does not decide itself comes in
-- with `Inputs`: fresh ids, readings of the clock, failures of SQLite, and the entry that iterating
-- a `HashMap` meets first.
pub mod Consistent
pub mod Recovery
pub mod Failures
pub mod Reporting
pub mod Stop
use timelord.Prelude.{
  ℕ, Bool, true, false, ◌&&◌, Option, none, some, List, [], ◌∷◌, ◌++◌, String, is_some,
  if◌then◌else◌,
}
use timelord.Prelude.Map.{lookup, insert, remove}
use timelord.Prelude.Result.{Result, ok, err}
use timelord.Prelude.Time.{DateTime, Uuid}
use timelord.Events.{Stamp, from_session_event, activity_event}
use timelord.Queue.{EventQueue, EnqueueFault, try_enqueue}
use timelord.Store
use timelord.Store.{
  Store, StoreError, start_session, end_session, insert_closed_session, find_dangling_session,
}
use timelord.Tracker
use timelord.Tracker.{
  SessionEvent, SessionId, EndReason, UsageSessionRecord, Transition, no_change, started, ended,
  UsageTracker, session_id, is_logged_on, is_active, resume_open_session, apply, close,
}

pub record SessionSnapshot : Type 0 where
  pub username : Option String
  pub state : String

unfoldable pub default_snapshot : SessionSnapshot
default_snapshot = record { username = none; state = "NO_SESSION" }

-- The queue and the snapshot, which the source shares with the networking side, are part of the
-- state here.
pub record UsageRecorder : Type 0 where
  pub tracker : UsageTracker
  pub store : Store
  pub open_session_id : Option Uuid
  pub event_queue : Option EventQueue
  pub session_usernames : List (SessionId × String)
  pub snapshot : SessionSnapshot

pub record Inputs : Type 0 where
  pub store_fault : Option ℕ
  pub session_uuid : Uuid
  pub event_stamp : Stamp
  pub event_fault : EnqueueFault
  pub activity_stamp : Stamp
  pub activity_fault : EnqueueFault
  pub first_value : List (SessionId × String) → Option String

abbrev starting : UsageTracker → Option Uuid → Store → UsageRecorder
starting t id s = record {
  tracker = t;
  store = s;
  open_session_id = id;
  event_queue = none;
  session_usernames = [];
  snapshot = default_snapshot;
}

unfoldable pub from_store : Option ℕ → Store → Result StoreError UsageRecorder
unfolding find_dangling_session default_snapshot
from_store fault s = elim (find_dangling_session fault s) [
  | err e ↦ err e
  | ok none ↦ ok (starting Tracker.new none s)
  | ok (some (id, started_at)) ↦ ok (starting (resume_open_session started_at) (some id) s)
]

unfoldable pub with_event_queue : EventQueue → UsageRecorder → UsageRecorder
with_event_queue q r = record r { event_queue = some q }

-- The guard of `handle_at`: a logon of a session that the tracker knows.
unfoldable pub is_repeated_logon : UsageTracker → SessionEvent → Bool
unfolding is_logged_on
is_repeated_logon t (SessionEvent.logon id) = is_logged_on t id
is_repeated_logon t _ = false

-- Caches the username, when both the session and the name are known.
unfoldable pub remember :
    Option SessionId → Option String → List (SessionId × String) → List (SessionId × String)
remember (some id) (some name) names = insert id name names
remember _ _ names = names

unfoldable pub username_of : Option SessionId → List (SessionId × String) → Option String
username_of none names = none
username_of (some id) names = lookup id names

-- A failed `start_session` leaves no open id, and its error is returned.
keep_id :
    Result StoreError Uuid × Store → UsageRecorder → Result StoreError (Unit {0}) × UsageRecorder
keep_id (ok id, s) r = (ok tt, record r { store = s; open_session_id = some id })
keep_id (err e, s) r = (err e, record r { store = s })

discard_id :
    Result StoreError Uuid × Store → UsageRecorder → Result StoreError (Unit {0}) × UsageRecorder
discard_id (ok id, s) r = (ok tt, record r { store = s })
discard_id (err e, s) r = (err e, record r { store = s })

-- `open_session_id.take()`, then the update, or the insertion if there was no id.
end_open :
    Inputs
    → Option Uuid
    → UsageSessionRecord
    → UsageRecorder
    → Result StoreError (Unit {0}) × UsageRecorder
unfolding discard_id
end_open i (some id) record_ended r =
    let (res, s) = end_session i.store_fault id record_ended.end record_ended.end_reason r.store in
    (res, record r { store = s; open_session_id = none })
end_open i none record_ended r =
    discard_id (insert_closed_session i.store_fault i.session_uuid record_ended r.store) r

-- The `match &transition` that writes to the store.
unfoldable pub persist :
    Inputs → Transition → UsageRecorder → Result StoreError (Unit {0}) × UsageRecorder
unfolding keep_id end_open
persist i (started start) r = keep_id (start_session i.store_fault i.session_uuid start r.store) r
persist i (ended record_ended) r = end_open i r.open_session_id record_ended r
persist i no_change r = (ok tt, r)

unfoldable pub forget : SessionEvent → List (SessionId × String) → List (SessionId × String)
forget (SessionEvent.logoff id) names = remove id names
forget _ names = names

-- The state that the snapshot shows when no usage session is open.
unfoldable pub idle_state : SessionEvent → String
idle_state SessionEvent.suspend = "SUSPENDED"
idle_state (SessionEvent.logoff id) = "NO_SESSION"
idle_state (SessionEvent.lock id) = "LOCKED"
idle_state (SessionEvent.console_disconnect id) = "DISCONNECTED"
idle_state (SessionEvent.remote_disconnect id) = "DISCONNECTED"
idle_state _ = "NO_SESSION"

unfoldable pub refresh_snapshot : Inputs → SessionEvent → UsageRecorder → UsageRecorder
unfolding idle_state is_active
refresh_snapshot i event r =
    let username = i.first_value r.session_usernames in
    record r {
      snapshot = record {
        username = username;
        state =
            if is_active r.tracker && is_some username
            then "ACTIVE"
            else if is_active r.tracker
            then "LOCKED"
            else idle_state event;
      };
    }

-- A logoff ends a session with no further INACTIVE event.
unfoldable pub activity_transition : Transition → SessionEvent → Option Bool
activity_transition (started s) event = some true
activity_transition (ended r) (SessionEvent.logoff id) = none
activity_transition (ended r) _ = some false
activity_transition no_change event = none

-- Failures to enqueue are logged and otherwise ignored.
unfoldable pub mirror :
    Inputs → SessionEvent → Option String → Transition → DateTime → EventQueue → EventQueue
mirror i event username tr now q =
    let queued = from_session_event i.event_stamp event username in
    let q' = (try_enqueue i.event_fault queued now q).1 in
    elim (activity_transition tr event) [
      | none ↦ q'
      | some active ↦
          (try_enqueue i.activity_fault (activity_event i.activity_stamp active now username) now
            q').1
    ]

-- What follows the `match &transition`.
unfoldable pub report :
    Inputs → SessionEvent → Option String → Transition → DateTime → UsageRecorder → UsageRecorder
unfolding forget refresh_snapshot mirror
report i event username tr now r =
    let r' =
      refresh_snapshot i event
        (record r { session_usernames = forget event r.session_usernames }) in
    elim r'.event_queue [
      | none ↦ r'
      | some q ↦ record r' { event_queue = some (mirror i event username tr now q) }
    ]

report_if_ok :
    Inputs
    → SessionEvent
    → Option String
    → Transition
    → DateTime
    → Result StoreError (Unit {0}) × UsageRecorder
    → Result StoreError (Unit {0}) × UsageRecorder
report_if_ok i event username tr now (err e, r) = (err e, r)
report_if_ok i event username tr now (ok u, r) = (ok tt, report i event username tr now r)

-- The recorder when the event has been applied, before anything is written.
unfoldable pub observed : SessionEvent → Option String → DateTime → UsageRecorder → UsageRecorder
observed event username now r = record r {
  tracker = (apply r.tracker event now).0;
  session_usernames = remember (session_id event) username r.session_usernames;
}

unfoldable pub handle_at :
    Inputs
    → SessionEvent
    → Option String
    → DateTime
    → UsageRecorder
    → Result StoreError (Unit {0}) × UsageRecorder
unfolding report_if_ok observed
handle_at i event username now r =
    if is_repeated_logon r.tracker event
    then (ok tt, r)
    else let r' = observed event username now r in
      let transition = (apply r.tracker event now).1 in
      let event_username = username_of (session_id event) r'.session_usernames in
      report_if_ok i event event_username transition now (persist i transition r')

close_row :
    Option ℕ
    → Option UsageSessionRecord
    → Option Uuid
    → UsageRecorder
    → Result StoreError (Unit {0}) × UsageRecorder
close_row fault (some record_closed) (some id) r =
    let (res, s) = end_session fault id record_closed.end record_closed.end_reason r.store in
    (res, record r { store = s })
close_row fault _ _ r = (ok tt, r)

-- `tracker.close(…)` and `open_session_id.take()` both happen before the match on the two.
unfoldable pub shutdown :
    Option ℕ → DateTime → UsageRecorder → Result StoreError (Unit {0}) × UsageRecorder
unfolding close_row close
shutdown fault now r =
    let closed = close r.tracker now EndReason.agent_shutdown in
    close_row fault closed.1 r.open_session_id
      (record r { tracker = closed.0; open_session_id = none })
