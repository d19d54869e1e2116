-- ===== src/Discovery.antt =====
-- agent/src/discovery.rs: which replies count, and which controller is taken; and
-- `resolve_controller_url` of agent/src/agent.rs. The sockets and the text form of the messages are
-- left out: a reply is the message that its bytes parse to, if any. Discovery/Sweep is the sweep over
-- the local subnets.
pub mod Best
pub mod Rounds
pub mod Kept
pub mod Sweep
pub mod Swept
use Prim.Native.String.{find}
use timelord.Prelude.{
  ℕ, Bool, true, false, not, ◌&&◌, ◌||◌, Option, none, some, List, [], ◌∷◌, ◌++◌, String, ltb, ◌==◌,
  if◌then◌else◌,
}
use timelord.Prelude.Int.{ℤ, ltb_ℤ, leb_ℤ}
use timelord.Prelude.Result.{Result, ok, err}
use timelord.Prelude.Text.{same_text}
use timelord.Prelude.Time.{Duration, Uuid}
use timelord.Events.{
  controller_discovery_started, controller_discovered, controller_discovery_failed,
}
use timelord.Config.{Write, persist_controller_url}
use timelord.Agent.{Agent, Report, enqueue}

abbrev pub protocol_name : String
protocol_name = "timelord-discovery"

abbrev pub protocol_version : ℕ
protocol_version = 1

abbrev pub type_controller_available : String
type_controller_available = "CONTROLLER_AVAILABLE"

pub record ControllerAvailableMessage : Type 0 where
  pub protocol : String
  pub protocol_version : ℕ
  pub message_type : String
  pub request_id : Uuid
  pub controller_id : Uuid
  pub controller_name : String
  pub controller_url : String
  pub priority : ℤ

pub record DiscoveredController : Type 0 where
  pub controller_id : Uuid
  pub controller_name : String
  pub controller_url : String
  pub priority : ℤ
  pub response_time : Duration

-- The prefix stands at the first byte.
abbrev pub starts_with : String → String → Bool
starts_with text prefix = find text prefix == 0

-- The checks of `validate_response`, in their order; all of them must pass.
unfoldable pub is_valid : ControllerAvailableMessage → Uuid → Bool
is_valid m expected_request_id =
    same_text m.protocol protocol_name
    && (m.protocol_version == protocol_version)
    && same_text m.message_type type_controller_available
    && (m.request_id == expected_request_id)
    && (starts_with m.controller_url "http://" || starts_with m.controller_url "https://")

unfoldable pub validate_response :
    Option ControllerAvailableMessage → Uuid → Duration → Option DiscoveredController
unfolding is_valid
validate_response none expected_request_id response_time = none
validate_response (some m) expected_request_id response_time =
    if is_valid m expected_request_id
    then some (record {
      controller_id = m.controller_id;
      controller_name = m.controller_name;
      controller_url = m.controller_url;
      priority = m.priority;
      response_time = response_time;
    })
    else none

-- The comparison of `select_best`: a higher priority, then a faster response, then a smaller id. The
-- text of an id has a fixed width, so that it compares as the number does.
unfoldable pub is_better : DiscoveredController → DiscoveredController → Bool
is_better a b =
    ltb_ℤ b.priority a.priority
    || (leb_ℤ b.priority a.priority
        && (ltb a.response_time b.response_time
            || ((a.response_time == b.response_time) && ltb a.controller_id b.controller_id)))

-- `min_by` keeps the first of equal candidates.
unfoldable pub best_of : DiscoveredController → List DiscoveredController → DiscoveredController
best_of best [] = best
best_of best (c ∷ candidates) = best_of (if is_better c best then c else best) candidates

unfoldable pub select_best : List DiscoveredController → Option DiscoveredController
unfolding best_of
select_best [] = none
select_best (c ∷ candidates) = some (best_of c candidates)

-- One round of the loop of `resolve_controller_url`: what `discover` came back with, what the
-- two reports need, and how the write of the URL ends.
pub record Search : Type 0 where
  pub found : Result String (List DiscoveredController)
  pub start : Report
  pub outcome : Report
  pub write : Write

unfoldable pub discovery_failed : Search → String → Agent → Agent
discovery_failed x reason a =
    enqueue x.outcome (controller_discovery_failed x.outcome.stamp reason) a

-- A failure to write the URL is only logged.
unfoldable pub keep_url : Write → String → Agent → Agent
keep_url w url a = record a { agent_toml = (persist_controller_url w url a.agent_toml).1 }

-- A round with the best candidate, if there is one: the URL that it ends the loop with.
unfoldable pub settle_search : Search → Option DiscoveredController → Agent → Option String × Agent
settle_search x none a = (none, discovery_failed x "no controller responded" a)
settle_search x (some best) a = (
  some best.controller_url,
  keep_url x.write best.controller_url (
      enqueue x.outcome
        (controller_discovered x.outcome.stamp best.controller_id best.controller_name
          best.controller_url)
        a),
)

unfoldable pub search_once :
    Search → Result String (List DiscoveredController) → Agent → Option String × Agent
search_once x (ok found) a = settle_search x (select_best found) a
search_once x (err reason) a = (none, discovery_failed x reason a)

unfoldable pub search_each : List Search → Agent → Option String × Agent
search_each [] a = (none, a)
search_each (x ∷ searches) a =
    let (url, a') =
      search_once x x.found (enqueue x.start (controller_discovery_started x.start.stamp) a) in
    let again = search_each searches a' in elim url [ none ↦ again | some u ↦ (some u, a') ]

-- Along the rounds that it takes: none while all of them have failed.
unfoldable pub resolve_controller_url :
    Bool → Option String → List Search → Agent → Option String × Agent
unfolding search_each
resolve_controller_url true configured searches a = search_each searches a
resolve_controller_url false none searches a = search_each searches a
resolve_controller_url false (some url) searches a = (some url, a)
