-- ===== src/Config/Sources.antt =====
-- agent/src/config.rs: the shapes of `agent.toml`, of the environment and of the command line, and how
-- each value is read.
use timelord.Prelude.{
  ℕ, Bool, true, false, ◌||◌, Option, none, some, List, map, String, ◌==◌, if◌then◌else◌,
}
use timelord.Prelude.Text.{same_list}
use timelord.Prelude.Time.{Duration, Uuid}
use timelord.Prelude.Trim.{codes, is_empty, trim, to_ascii_lowercase}

abbrev pub default_heartbeat_interval_seconds : ℕ
default_heartbeat_interval_seconds = 30

abbrev pub default_event_retry_interval_seconds : ℕ
default_event_retry_interval_seconds = 10

abbrev pub default_discovery_port : ℕ
default_discovery_port = 45821

abbrev pub default_discovery_timeout_seconds : ℕ
default_discovery_timeout_seconds = 5

pub record TimeSection : Type 0 where
  pub ntp_enabled : Option Bool
  pub ntp_servers : Option (List String)

pub record AgentSection : Type 0 where
  pub device_id : String
  pub device_name : String
  pub heartbeat_interval_seconds : Option ℕ
  pub event_retry_interval_seconds : Option ℕ

pub record ControllerSection : Type 0 where
  pub url : String
  pub discovery_enabled : Option Bool
  pub discovery_port : Option ℕ
  pub discovery_timeout_seconds : Option ℕ

pub record AgentFileConfig : Type 0 where
  pub agent : AgentSection
  pub controller : ControllerSection
  pub time : TimeSection

-- `AgentFileConfig::default`.
abbrev pub default_file : AgentFileConfig
default_file = record {
  agent = record {
    device_id = "";
    device_name = "";
    heartbeat_interval_seconds = none;
    event_retry_interval_seconds = none;
  };
  controller = record {
    url = "";
    discovery_enabled = none;
    discovery_port = none;
    discovery_timeout_seconds = none;
  };
  time = record { ntp_enabled = none; ntp_servers = none };
}

pub record EnvOverrides : Type 0 where
  pub controller_url : Option String
  pub device_id : Option String
  pub device_name : Option String
  pub discovery_enabled : Option Bool

pub record CliOverrides : Type 0 where
  pub controller_url : Option String
  pub device_id : Option String
  pub device_name : Option String
  pub discovery_enabled : Option Bool

-- `CliOverrides::default`.
abbrev pub no_overrides : CliOverrides
no_overrides = record {
  controller_url = none;
  device_id = none;
  device_name = none;
  discovery_enabled = none;
}

pub record AgentConfig : Type 0 where
  pub device_id : Uuid
  pub device_id_generated : Bool
  pub device_name : String
  pub heartbeat_interval : Duration
  pub event_retry_interval : Duration
  pub controller_url : Option String
  pub discovery_enabled : Bool
  pub discovery_port : ℕ
  pub discovery_timeout : Duration
  pub ntp_enabled : Bool
  pub ntp_servers : List String

abbrev pub filter_blank : Bool → String → Option String
filter_blank true s = none
filter_blank false s = some s

unfoldable pub non_empty : Option String → Option String
non_empty none = none
non_empty (some s) = filter_blank (is_empty (trim s)) s

unfoldable pub parse_bool : String → Option Bool
parse_bool value =
    let s = map to_ascii_lowercase (codes (trim value)) in
    let is = λ (t : String). same_list (λ a b. a == b) s (codes t) in
    if is "1" || is "true" || is "yes" || is "on"
    then some true
    else if is "0" || is "false" || is "no" || is "off"
    then some false
    else none

-- The process's variables, each as `std::env::var(..).ok()` gives it.
pub record ProcessEnv : Type 0 where
  pub timelord_controller_url : Option String
  pub timelord_device_id : Option String
  pub timelord_device_name : Option String
  pub timelord_discovery_enabled : Option String

unfoldable pub from_process_env : ProcessEnv → EnvOverrides
unfolding non_empty parse_bool
from_process_env v = record {
  controller_url = non_empty v.timelord_controller_url;
  device_id = non_empty v.timelord_device_id;
  device_name = non_empty v.timelord_device_name;
  discovery_enabled = elim v.timelord_discovery_enabled [ none ↦ none | some s ↦ parse_bool s ];
}
