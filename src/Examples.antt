-- ===== src/Examples.antt =====
-- Concrete data for the examples that the theorems are applied to.
mod Sessions
mod Queueing
mod Networking
mod Notices
mod Configuring
mod Notifying
mod Living
mod Commanding
use timelord.Prelude.{ℕ, ◌*◌, false, Option, none, some, List, [], ◌∷◌, String}
use timelord.Prelude.Time.{DateTime, Uuid, second}
use timelord.Protocol
use timelord.Protocol.{EventSeverity, EventSource, EventType}
use timelord.Queue.{QueuedEvent, EventQueue, Row, no_fault}
use timelord.Events.{Stamp}
use timelord.Store.{Store}
use timelord.Tracker
use timelord.Tracker.{SessionEvent, SessionId, UsageTracker}
use timelord.Recorder.{UsageRecorder, Inputs}
use timelord.Prelude.File.{CacheFile, missing, holding}
use timelord.Prelude.Int.{pos}
use timelord.Config.{ConfigFile}
use timelord.Agent.{Agent, Report}
use timelord.Schedule
use timelord.Schedule.{OffWindow, Schedule, sleep}

abbrev pub fresh_tracker : UsageTracker
fresh_tracker = record { sessions = []; suspended = false; open_since = none }

-- A logon, a lock, and a logoff of session 1.
abbrev pub day : List (SessionEvent × DateTime)
day =
    (SessionEvent.logon 1, 10)
    ∷ (SessionEvent.lock 1, 20)
    ∷ (SessionEvent.unlock 1, 30)
    ∷ (SessionEvent.logoff 1, 40)
    ∷ []

abbrev pub event_numbered : Uuid → QueuedEvent
event_numbered id = record {
  event_id = id;
  event_type = EventType.heartbeat_sent;
  occurred_at = 5;
  severity = EventSeverity.info;
  source = EventSource.agent;
  session_id = none;
  username = none;
  payload = [];
}

abbrev pub row_numbered : ℕ → ℕ → DateTime → Row
row_numbered id attempts created = record {
  id = id;
  event = event_numbered (id);
  attempt_count = attempts;
  next_attempt_at = created;
  created_at = created;
}

-- Two rows, the second of them the older one.
abbrev pub two_rows : EventQueue
two_rows = record { rows = row_numbered 1 0 9 ∷ row_numbered 2 47 8 ∷ []; next_id = 3 }

abbrev pub stamp_numbered : Uuid → Stamp
stamp_numbered id = record { event_id = id; now = 100 }

abbrev pub first_name : List (SessionId × String) → Option String
first_name [] = none
first_name ((id, name) ∷ names) = some name

-- Inputs that let everything succeed, with ids from `n` on.
abbrev pub inputs_from : ℕ → Inputs
inputs_from n = record {
  store_fault = none;
  session_uuid = n;
  event_stamp = stamp_numbered 101;
  event_fault = no_fault;
  activity_stamp = stamp_numbered 102;
  activity_fault = no_fault;
  first_value = first_name;
}

abbrev pub fresh_recorder : UsageRecorder
fresh_recorder = record {
  tracker = fresh_tracker;
  store = record { rows = [] };
  open_session_id = none;
  event_queue = some two_rows;
  session_usernames = [];
  snapshot = record { username = none; state = "NO_SESSION" };
}

-- An hour off, from one hour on, and then from three hours on.
abbrev pub evening : Schedule
evening = record {
  revision = "r1";
  action = sleep;
  timezone = "Europe/London";
  windows =
      record { off_at = 3600 * second; on_at = 7200 * second }
      ∷ record { off_at = 10800 * second; on_at = 14400 * second }
      ∷ [];
}

-- A recorder that a restart left with the session that opened at 5.
abbrev pub resumed_recorder : UsageRecorder
resumed_recorder = record {
  tracker = record { sessions = []; suspended = false; open_since = some 5 };
  store = record {
    rows = record { id = 3; start_utc = 5; end_utc = none; end_reason = none } ∷ [];
  };
  open_session_id = some 3;
  event_queue = some two_rows;
  session_usernames = [];
  snapshot = record { username = none; state = "ACTIVE" };
}

-- An agent that has just started with the evening's schedule in its cache.
abbrev pub started_agent : Agent
started_agent = record {
  agent_toml = ConfigFile.missing;
  queue = two_rows;
  connected = false;
  shutdown = false;
  flush_notify = false;
  schedule = some evening;
  schedule_file = holding evening;
  schedule_changed = false;
  messages = record { last_seq = pos 0; messages = [] };
  messages_file = missing;
  schedule_sync = record { confirmed = false; since = 0 };
  clock = record { enabled = false; offset_ms = pos 0; synced = false };
  clock_resync = false;
}

abbrev pub a_report : Report
a_report = record { stamp = stamp_numbered 50; now = 100; fault = no_fault }
