-- ===== src/Tracker.antt =====
-- agent/src/tracker.rs: the usage-session state machine. A method that takes `&mut self` returns
-- the new tracker.
pub mod Activity
pub mod Timeline
pub mod Presence
use timelord.Prelude.{
  ℕ, Bool, true, false, not, ◌&&◌, Option, none, some, List, [], ◌∷◌, ◌++◌, any, is_some, unwrap_or,
}
use timelord.Prelude.Map.{lookup, insert, remove, contains_key}
use timelord.Prelude.Time.{DateTime}

abbrev pub SessionId : Type 0
SessionId = ℕ

pub data SessionEvent : Type 0 where
  logon logoff lock unlock console_connect console_disconnect : SessionId → SessionEvent
  remote_connect remote_disconnect : SessionId → SessionEvent
  suspend resume : SessionEvent

pub data EndReason : Type 0 where
  lock logoff suspend console_disconnect remote_disconnect agent_restart agent_shutdown : EndReason

pub record UsageSessionRecord : Type 0 where
  pub start : DateTime
  pub end : DateTime
  pub end_reason : EndReason

pub data Transition : Type 0 where
  no_change : Transition
  started : DateTime → Transition
  ended : UsageSessionRecord → Transition

unfoldable pub is_ended : Transition → Bool
is_ended (ended r) = true
is_ended _ = false

unfoldable pub session_id : SessionEvent → Option SessionId
session_id (SessionEvent.logon id) = some id
session_id (SessionEvent.logoff id) = some id
session_id (SessionEvent.lock id) = some id
session_id (SessionEvent.unlock id) = some id
session_id (SessionEvent.console_connect id) = some id
session_id (SessionEvent.console_disconnect id) = some id
session_id (SessionEvent.remote_connect id) = some id
session_id (SessionEvent.remote_disconnect id) = some id
session_id SessionEvent.suspend = none
session_id SessionEvent.resume = none

pub record SessionPresence : Type 0 where
  pub visible : Bool

pub record UsageTracker : Type 0 where
  pub sessions : List (SessionId × SessionPresence)
  pub suspended : Bool
  pub open_since : Option DateTime

unfoldable pub new : UsageTracker
new = record { sessions = []; suspended = false; open_since = none }

unfoldable pub resume_open_session : DateTime → UsageTracker
resume_open_session started_at = record {
  sessions = [];
  suspended = false;
  open_since = some started_at;
}

unfoldable pub is_active : UsageTracker → Bool
is_active t = is_some t.open_since

unfoldable pub is_logged_on : UsageTracker → SessionId → Bool
is_logged_on t id = contains_key id t.sessions

-- `entry(id).and_modify(|p| p.visible = visible).or_insert(SessionPresence { visible })`: a
-- presence has no other field, so both ways leave the same entry.
unfoldable pub set_visible : SessionId → Bool → UsageTracker → UsageTracker
set_visible id visible t = record t {
  sessions = insert id (record { visible = visible }) t.sessions;
}

unfoldable pub any_visible : UsageTracker → Bool
any_visible t = not t.suspended && any (λ p. p.1.visible) t.sessions

-- The `match` of `recompute`, on the open session and on whether the device should be active.
recompute_match :
    Option DateTime → Bool → UsageTracker → DateTime → Option EndReason → UsageTracker × Transition
recompute_match none true t at reason = (record t { open_since = some at }, started at)
recompute_match (some start) false t at reason = (
  record t { open_since = none },
  ended (record { start = start; end = at; end_reason = unwrap_or reason EndReason.logoff }),
)
recompute_match _ _ t at reason = (t, no_change)

unfoldable pub recompute : UsageTracker → DateTime → Option EndReason → UsageTracker × Transition
unfolding recompute_match any_visible
recompute t at reason = recompute_match t.open_since (any_visible t) t at reason

-- The change that an event makes to the sessions and to the suspend state, before `recompute`.
unfoldable pub observe : SessionEvent → UsageTracker → UsageTracker
unfolding set_visible
observe (SessionEvent.logon id) t = record t {
  sessions = insert id (record { visible = true }) t.sessions;
}
observe (SessionEvent.unlock id) t = record t {
  sessions = insert id (record { visible = true }) t.sessions;
}
observe (SessionEvent.console_connect id) t = record t {
  sessions = insert id (record { visible = true }) t.sessions;
}
observe (SessionEvent.remote_connect id) t = record t {
  sessions = insert id (record { visible = true }) t.sessions;
}
observe (SessionEvent.lock id) t = set_visible id false t
observe (SessionEvent.console_disconnect id) t = set_visible id false t
observe (SessionEvent.remote_disconnect id) t = set_visible id false t
observe (SessionEvent.logoff id) t = record t { sessions = remove id t.sessions }
observe SessionEvent.suspend t = record t { suspended = true }
observe SessionEvent.resume t = record t { suspended = false }

-- The reason that `apply` hands to `recompute`.
unfoldable pub reason_if_closing : SessionEvent → Option EndReason
reason_if_closing (SessionEvent.lock id) = some EndReason.lock
reason_if_closing (SessionEvent.console_disconnect id) = some EndReason.console_disconnect
reason_if_closing (SessionEvent.remote_disconnect id) = some EndReason.remote_disconnect
reason_if_closing (SessionEvent.logoff id) = some EndReason.logoff
reason_if_closing SessionEvent.suspend = some EndReason.suspend
reason_if_closing _ = none

unfoldable pub apply : UsageTracker → SessionEvent → DateTime → UsageTracker × Transition
apply t event at = recompute (observe event t) at (reason_if_closing event)

unfoldable pub close :
    UsageTracker → DateTime → EndReason → UsageTracker × Option UsageSessionRecord
close t at reason = (
  record t { open_since = none },
  elim t.open_since [
    | none ↦ none
    | some start ↦ some (record { start = start; end = at; end_reason = reason })
  ],
)
