-- ===== src/Agent/Loops.antt =====
-- agent/src/agent.rs: one turn of each networking loop, with the request that it sends. The client
-- with the id that the device is registered under is shared by the loops.
use timelord.Prelude.{
  ℕ, ◌+◌, ◌*◌, ◌/◌, ◌^◌, Bool, true, false, not, ◌&&◌, Option, none, some, List, [], ◌∷◌, String,
  map, keep, ◌==◌, unwrap_or, if◌then◌else◌,
}
use timelord.Prelude.Result.{Result, ok, err}
use timelord.Prelude.Show.{concat}
use timelord.Prelude.Time.{DateTime, Uuid}
use timelord.Protocol.{
  AgentMessage, EventSubmissionResponse, HeartbeatRequest, HeartbeatResponse, NetworkInterfaceInfo,
  RegisterRequest,
}
use timelord.Schedule.{Schedule}
use timelord.Recorder.{SessionSnapshot}
use timelord.Config.{AgentConfig}
use timelord.Client
use timelord.Client.{ClientError, ControllerClient, HttpRequest, HttpResponse, is_device_not_found}
use timelord.Agent.{Agent, Report, messages_cursor}
use timelord.Agent.Networking.{
  Heartbeat, Writes, Registration, register, heartbeat_answered, schedule_poll, message_poll,
  deliver_due_batch,
}

-- `Arc<Mutex<(ControllerClient, Uuid)>>`.
pub record Connection : Type 0 where
  pub client : ControllerClient
  pub device_id : Uuid

-- An address: for IPv4 its 32 bits, for IPv6 the first of its segments decides.
pub data IpAddr : Type 0 where
  v4 v6 : ℕ → IpAddr

-- The first 16 bits of the IPv4 address are 169.254; the first ten of the IPv6 address are fe80.
unfoldable pub is_link_local : IpAddr → Bool
is_link_local (v4 bits) = bits / 2 ^ 16 == 169 * 256 + 254
is_link_local (v6 segment) = segment / 2 ^ 6 == 0xfe80 / 2 ^ 6

-- An entry of the list of the system's addresses, with its print.
pub record LocalAddress : Type 0 where
  pub name : String
  pub ip : IpAddr
  pub is_loopback : Bool
  pub printed : String

unfoldable pub local_ip_addresses : Option (List LocalAddress) → List String
unfolding is_link_local
local_ip_addresses none = []
local_ip_addresses (some interfaces) =
    map (λ a. concat (a.name ∷ ": " ∷ a.printed ∷ []))
      (keep (λ a. not a.is_loopback && not (is_link_local a.ip)) interfaces)

-- What the agent learns of its machine: `interfaces` is what `network_interfaces` lists.
pub record Machine : Type 0 where
  pub agent_version : String
  pub operating_system : String
  pub operating_system_version : String
  pub architecture : String
  pub addresses : Option (List LocalAddress)
  pub interfaces : List NetworkInterfaceInfo

unfoldable pub register_request : Machine → AgentConfig → RegisterRequest
unfolding local_ip_addresses
register_request x config = record {
  device_id = config.device_id;
  device_name = config.device_name;
  hostname = config.device_name;
  agent_version = x.agent_version;
  operating_system = x.operating_system;
  operating_system_version = x.operating_system_version;
  architecture = x.architecture;
  local_ip_addresses = local_ip_addresses x.addresses;
  network_interfaces = x.interfaces;
}

unfoldable pub heartbeat_request :
    Uuid → DateTime → String → SessionSnapshot → String → HeartbeatRequest
heartbeat_request event_id now agent_version snapshot url = record {
  event_id = event_id;
  occurred_at = now;
  agent_version = agent_version;
  uptime_seconds = 0;
  service_state = "RUNNING";
  current_user = snapshot.username;
  session_state = snapshot.state;
  idle_seconds = none;
  controller_url = some url;
}

-- The id of a new registration, if the answer asks for one.
unfoldable pub new_device_id :
    List Registration → Result ClientError HeartbeatResponse → Agent → Option Uuid
new_device_id registrations (ok response) a = none
new_device_id registrations (err e) a =
    if is_device_not_found e then (register registrations a).0 else none

-- A turn of `heartbeat_loop`. `x` has what the reaction needs besides the answer and the URL.
unfoldable pub heartbeat_turn :
    (Uuid → String)
    → (HttpRequest → Result String (HttpResponse HeartbeatResponse))
    → Uuid
    → DateTime
    → String
    → SessionSnapshot
    → Heartbeat
    → Connection
    → Agent
    → Connection × Agent
unfolding heartbeat_request new_device_id
heartbeat_turn print send event_id now agent_version snapshot x c a =
    let url = c.client.base_url in
    let answer =
      Client.heartbeat print send c.device_id
        (heartbeat_request event_id now agent_version snapshot url) c.client in
    (
      record c { device_id = unwrap_or (new_device_id x.registrations answer a) c.device_id },
      heartbeat_answered (record x { answer = answer; url = url }) answer a,
    )

abbrev revision_of : Option Schedule → Option String
revision_of none = none
revision_of (some s) = some s.revision

unfoldable pub schedule_revision : Agent → Option String
schedule_revision a = revision_of a.schedule

abbrev pub schedule_poll_wait : ℕ
schedule_poll_wait = 30

-- Turns of `schedule_poll_loop` and `message_poll_loop`. Their own client has the same URL.
unfoldable pub schedule_poll_turn :
    (Uuid → String)
    → (HttpRequest → Result String (HttpResponse Schedule))
    → Bool
    → Connection
    → Agent
    → Agent
unfolding schedule_revision
schedule_poll_turn print send save_fails c a =
    schedule_poll
      (Client.poll_schedule print send c.device_id (schedule_revision a) schedule_poll_wait
        (Client.new c.client.base_url))
      save_fails a

unfoldable pub message_poll_turn :
    (Uuid → String)
    → (HttpRequest → Result String (HttpResponse (List AgentMessage)))
    → Bool
    → DateTime
    → Connection
    → Agent
    → Agent
message_poll_turn print send save_fails system c a =
    message_poll
      (Client.poll_messages print send c.device_id (messages_cursor a) schedule_poll_wait
        (Client.new c.client.base_url))
      save_fails system a

-- What ends the wait of `delivery_loop`.
pub data Wake : Type 0 where
  ticked flushed shut_down : Wake

-- What a delivery needs: the time, whether the query fails, the writes and the report.
pub record Delivery : Type 0 where
  pub now : DateTime
  pub read_fails : Bool
  pub writes : Writes
  pub report : Report

unfoldable pub deliver :
    (Uuid → String)
    → (HttpRequest → Result String (HttpResponse EventSubmissionResponse))
    → Delivery
    → Connection
    → Agent
    → Agent
deliver print send d c a =
    deliver_due_batch d.now d.read_fails d.writes d.report c.client.base_url
      (λ request. Client.submit_events print send c.device_id request c.client) a

-- `notified()` takes the permit.
unfoldable pub take_flush : Wake → Agent → Agent
take_flush flushed a = record a { flush_notify = false }
take_flush ticked a = a
take_flush shut_down a = a

abbrev pub is_shut_down : Wake → Bool
is_shut_down shut_down = true
is_shut_down ticked = false
is_shut_down flushed = false

-- A turn of `delivery_loop`, and whether it is the last.
unfoldable pub delivery_turn :
    (Uuid → String)
    → (HttpRequest → Result String (HttpResponse EventSubmissionResponse))
    → Wake
    → Delivery
    → Connection
    → Agent
    → Bool × Agent
unfolding deliver take_flush
delivery_turn print send wake d c a =
    (is_shut_down wake, deliver print send d c (take_flush wake a))
