-- ===== src/Events.antt =====
-- agent/src/events.rs: the events that the agent reports. `Uuid::new_v4()` and `Utc::now()` are
-- the arguments in a `Stamp`.
use timelord.Prelude.{Bool, Option, none, some, List, [], ◌∷◌, String, if◌then◌else◌}
use timelord.Prelude.Time.{DateTime, Uuid}
use timelord.Protocol.{EventType, EventSeverity, EventSource, Value}
use timelord.Queue.{QueuedEvent}
use timelord.Tracker.{SessionEvent, SessionId}

pub record Stamp : Type 0 where
  pub event_id : Uuid
  pub now : DateTime

unfoldable pub new_event : Stamp → EventType → EventSeverity → List (String × Value) → QueuedEvent
new_event s event_type severity payload = record {
  event_id = s.event_id;
  event_type = event_type;
  occurred_at = s.now;
  severity = severity;
  source = EventSource.agent;
  session_id = none;
  username = none;
  payload = payload;
}

unfoldable pub new_session_event :
    Stamp → EventType → EventSeverity → Option String → List (String × Value) → QueuedEvent
unfolding new_event
new_session_event s event_type severity username payload =
    record (new_event s event_type severity payload) { username = username }

unfoldable pub event_type_of : SessionEvent → EventType
event_type_of (SessionEvent.logon id) = EventType.user_logon
event_type_of (SessionEvent.logoff id) = EventType.user_logoff
event_type_of (SessionEvent.lock id) = EventType.user_lock
event_type_of (SessionEvent.unlock id) = EventType.user_unlock
event_type_of (SessionEvent.console_connect id) = EventType.session_connected
event_type_of (SessionEvent.console_disconnect id) = EventType.session_disconnected
event_type_of (SessionEvent.remote_connect id) = EventType.session_connected
event_type_of (SessionEvent.remote_disconnect id) = EventType.session_disconnected
event_type_of SessionEvent.suspend = EventType.system_suspend
event_type_of SessionEvent.resume = EventType.system_resume

-- The second half of the `match`: the session that the event names, if it names one.
unfoldable pub windows_session_id : SessionEvent → Option SessionId
windows_session_id (SessionEvent.logon id) = some id
windows_session_id (SessionEvent.logoff id) = some id
windows_session_id (SessionEvent.lock id) = some id
windows_session_id (SessionEvent.unlock id) = some id
windows_session_id (SessionEvent.console_connect id) = some id
windows_session_id (SessionEvent.console_disconnect id) = some id
windows_session_id (SessionEvent.remote_connect id) = some id
windows_session_id (SessionEvent.remote_disconnect id) = some id
windows_session_id SessionEvent.suspend = none
windows_session_id SessionEvent.resume = none

session_data : Option SessionId → List (String × Value)
session_data none = []
session_data (some id) = ("windowsSessionId", Value.number id) ∷ []

unfoldable pub from_session_event : Stamp → SessionEvent → Option String → QueuedEvent
unfolding new_session_event event_type_of windows_session_id session_data
from_session_event s event username =
    new_session_event s (event_type_of event) EventSeverity.info username
      (session_data (windows_session_id event))

unfoldable pub activity_event : Stamp → Bool → DateTime → Option String → QueuedEvent
unfolding new_session_event
activity_event s active occurred_at username =
    record (new_session_event s (if active then EventType.active else EventType.inactive)
      EventSeverity.info username []) { occurred_at = occurred_at }

abbrev plain : Stamp → EventType → EventSeverity → QueuedEvent
plain s event_type severity = new_event s event_type severity []

abbrev with_text : Stamp → EventType → EventSeverity → String → String → QueuedEvent
with_text s event_type severity key value =
    new_event s event_type severity ((key, Value.text value) ∷ [])

unfoldable pub agent_started : Stamp → String → String → QueuedEvent
unfolding new_event
agent_started s agent_version start_reason =
    new_event s EventType.agent_started EventSeverity.info
      (("agentVersion", Value.text agent_version) ∷ ("startReason", Value.text start_reason) ∷ [])

unfoldable pub system_boot : Stamp → QueuedEvent
unfolding new_event
system_boot s = plain s EventType.system_boot EventSeverity.info

unfoldable pub agent_stopping : Stamp → String → QueuedEvent
unfolding new_event
agent_stopping s agent_version =
    with_text s EventType.agent_stopping EventSeverity.info "agentVersion" agent_version

unfoldable pub system_shutdown : Stamp → QueuedEvent
unfolding new_event
system_shutdown s = plain s EventType.system_shutdown EventSeverity.info

unfoldable pub agent_error : Stamp → String → QueuedEvent
unfolding new_event
agent_error s message = with_text s EventType.agent_error EventSeverity.error "message" message

unfoldable pub controller_discovery_started : Stamp → QueuedEvent
unfolding new_event
controller_discovery_started s = plain s EventType.controller_discovery_started EventSeverity.info

unfoldable pub controller_discovered : Stamp → Uuid → String → String → QueuedEvent
unfolding new_event
controller_discovered s controller_id controller_name controller_url =
    new_event s EventType.controller_discovered EventSeverity.info (
      ("controllerId", Value.uuid controller_id)
      ∷ ("controllerName", Value.text controller_name)
      ∷ ("controllerUrl", Value.text controller_url)
      ∷ [])

unfoldable pub controller_discovery_failed : Stamp → String → QueuedEvent
unfolding new_event
controller_discovery_failed s reason =
    with_text s EventType.controller_discovery_failed EventSeverity.warning "reason" reason

unfoldable pub controller_connected : Stamp → String → QueuedEvent
unfolding new_event
controller_connected s controller_url =
    with_text s EventType.controller_connected EventSeverity.info "controllerUrl" controller_url

unfoldable pub controller_disconnected : Stamp → String → QueuedEvent
unfolding new_event
controller_disconnected s reason =
    with_text s EventType.controller_disconnected EventSeverity.warning "reason" reason

unfoldable pub registration_succeeded : Stamp → Uuid → QueuedEvent
unfolding new_event
registration_succeeded s device_id =
    new_event s EventType.registration_succeeded EventSeverity.info
      (("deviceId", Value.uuid device_id) ∷ [])

unfoldable pub registration_failed : Stamp → String → QueuedEvent
unfolding new_event
registration_failed s reason =
    with_text s EventType.registration_failed EventSeverity.error "reason" reason

unfoldable pub heartbeat_sent : Stamp → QueuedEvent
unfolding new_event
heartbeat_sent s = plain s EventType.heartbeat_sent EventSeverity.info

unfoldable pub power_action_requested : Stamp → String → String → QueuedEvent
unfolding new_event
power_action_requested s action reason =
    new_event s EventType.power_action_requested EventSeverity.warning
      (("action", Value.text action) ∷ ("reason", Value.text reason) ∷ [])

unfoldable pub power_action_completed : Stamp → String → QueuedEvent
unfolding new_event
power_action_completed s action =
    with_text s EventType.power_action_completed EventSeverity.info "action" action

unfoldable pub power_action_failed : Stamp → String → String → QueuedEvent
unfolding new_event
power_action_failed s action reason =
    new_event s EventType.power_action_failed EventSeverity.error
      (("action", Value.text action) ∷ ("reason", Value.text reason) ∷ [])
