-- ===== src/Protocol.antt =====
-- agent/src/protocol.rs: the wire types of the controller's HTTP API.
use timelord.Prelude.{ℕ, Bool, Option, List, String}
use timelord.Prelude.Int.{ℤ}
use timelord.Prelude.Time.{DateTime, Uuid}
use timelord.Schedule.{Schedule}

pub data EventType : Type 0 where
  agent_started agent_stopping agent_error : EventType
  controller_discovery_started controller_discovered controller_discovery_failed : EventType
  controller_connected controller_disconnected : EventType
  registration_succeeded registration_failed heartbeat_sent : EventType
  user_logon user_logoff user_lock user_unlock active inactive : EventType
  session_connected session_disconnected : EventType
  system_boot system_shutdown system_suspend system_resume : EventType
  system_time_changed time_zone_changed idle_started idle_ended : EventType
  supervisory_warning policy_violation : EventType
  power_action_requested power_action_completed power_action_failed : EventType

pub data EventSeverity : Type 0 where
  info warning error critical : EventSeverity

pub data EventSource : Type 0 where
  agent controller : EventSource

-- The JSON values that the agent puts into an event: `json!` of a number, a text or a `Uuid`.
pub data Value : Type 0 where
  number : ℕ → Value
  text : String → Value
  uuid : Uuid → Value

pub record NetworkInterfaceInfo : Type 0 where
  pub name : String
  pub mac_address : Option String
  pub addresses : List String

pub record RegisterRequest : Type 0 where
  pub device_id : Uuid
  pub device_name : String
  pub hostname : String
  pub agent_version : String
  pub operating_system : String
  pub operating_system_version : String
  pub architecture : String
  pub local_ip_addresses : List String
  pub network_interfaces : List NetworkInterfaceInfo

pub record RegisterResponse : Type 0 where
  pub device_id : Uuid
  pub controller_id : Uuid
  pub registered_at : DateTime
  pub heartbeat_interval_seconds : ℕ
  pub accepted : Bool
  pub schedule : Option Schedule

pub record HeartbeatRequest : Type 0 where
  pub event_id : Uuid
  pub occurred_at : DateTime
  pub agent_version : String
  pub uptime_seconds : ℕ
  pub service_state : String
  pub current_user : Option String
  pub session_state : String
  pub idle_seconds : Option ℕ
  pub controller_url : Option String

pub record HeartbeatResponse : Type 0 where
  pub accepted : Bool
  pub server_time : DateTime
  pub heartbeat_interval_seconds : ℕ
  pub schedule : Option Schedule

pub record AgentMessage : Type 0 where
  pub seq : ℤ
  pub id : Uuid
  pub title : Option String
  pub body : String
  pub created_at : DateTime
  pub expires_at : DateTime

pub record EventItem : Type 0 where
  pub event_id : Uuid
  pub event_type : EventType
  pub occurred_at : DateTime
  pub severity : EventSeverity
  pub source : EventSource
  pub session_id : Option Uuid
  pub username : Option String
  pub payload : List (String × Value)

pub record EventSubmissionRequest : Type 0 where
  pub events : List EventItem

pub data EventResultStatus : Type 0 where
  accepted duplicate rejected : EventResultStatus

pub record EventResult : Type 0 where
  pub event_id : Uuid
  pub status : EventResultStatus
  pub reason : Option String

pub record EventSubmissionResponse : Type 0 where
  pub accepted : ℕ
  pub duplicates : ℕ
  pub rejected : ℕ
  pub results : List EventResult
