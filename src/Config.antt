-- ===== src/Config.antt =====
-- agent/src/config.rs: `agent.toml`, the environment and the command line, and how they are resolved.
-- The parsing and printing of UUIDs is the uuid crate's: `Uuid::parse_str(..).ok()` and `to_string`
-- are arguments. A file is the contents that it parses to.
pub mod Identity
pub mod Servers
mod Sources
unfoldable pub use Sources.*
use timelord.Prelude.{
  Bool, true, false, not, Option, none, some, List, [], ◌∷◌, map, String, keep, unwrap_or, or_else,
}
use timelord.Prelude.Result.{Result, ok, err}
use timelord.Prelude.Time.{Uuid, from_secs}
use timelord.Prelude.Trim.{is_empty, trim}
use timelord.Clock.{default_ntp_servers}

-- `Uuid::parse_str` on the first id that is set; a fresh one where there is none or it does not parse.
unfoldable pub choose_id : (String → Option Uuid) → Option String → Uuid → Uuid × Bool
choose_id parse_str none fresh = (fresh, true)
choose_id parse_str (some s) fresh = elim (parse_str s) [
  | none ↦ (fresh, true)
  | some id ↦ (id, false)
]

abbrev pub unless_none_left : List String → List String
unless_none_left [] = default_ntp_servers
unless_none_left (s ∷ servers) = s ∷ servers

unfoldable pub usable_servers : Option (List String) → List String
usable_servers none = default_ntp_servers
usable_servers (some servers) = unless_none_left (keep (λ s. not (is_empty s)) (map trim servers))

-- `hostname` is the result of `default_hostname`, and `fresh` that of `Uuid::new_v4`.
unfoldable pub resolve :
    (String → Option Uuid)
    → AgentFileConfig
    → EnvOverrides
    → CliOverrides
    → String
    → Uuid
    → AgentConfig
unfolding choose_id usable_servers non_empty
resolve parse_str file env cli hostname fresh =
    let (id, generated) =
      choose_id parse_str
        (or_else cli.device_id (or_else env.device_id (non_empty (some file.agent.device_id))))
        fresh in
    record {
      device_id = id;
      device_id_generated = generated;
      device_name =
          unwrap_or
            (or_else cli.device_name
              (or_else env.device_name (non_empty (some file.agent.device_name))))
            hostname;
      heartbeat_interval =
          from_secs
            (unwrap_or file.agent.heartbeat_interval_seconds default_heartbeat_interval_seconds);
      event_retry_interval =
          from_secs (
            unwrap_or file.agent.event_retry_interval_seconds default_event_retry_interval_seconds);
      controller_url =
          or_else cli.controller_url
            (or_else env.controller_url (non_empty (some file.controller.url)));
      discovery_enabled =
          unwrap_or
            (or_else cli.discovery_enabled
              (or_else env.discovery_enabled file.controller.discovery_enabled))
            true;
      discovery_port = unwrap_or file.controller.discovery_port default_discovery_port;
      discovery_timeout =
          from_secs
            (unwrap_or file.controller.discovery_timeout_seconds default_discovery_timeout_seconds);
      ntp_enabled = unwrap_or file.time.ntp_enabled true;
      ntp_servers = usable_servers file.time.ntp_servers;
    }

-- `agent.toml`: there is none, or reading or parsing it fails, or it parses to a value.
pub data ConfigFile : Type 0 where
  missing : ConfigFile
  unreadable : String → ConfigFile
  holding : AgentFileConfig → ConfigFile

unfoldable pub load_file : ConfigFile → Result String AgentFileConfig
load_file missing = ok default_file
load_file (unreadable reason) = err reason
load_file (holding c) = ok c

-- The file is written in place: a write that fails may leave anything behind.
pub data Write : Type 0 where
  written : Write
  failed : String → ConfigFile → Write

unfoldable pub save_file :
    Write → AgentFileConfig → ConfigFile → Result String (Unit {0}) × ConfigFile
save_file written config file = (ok tt, holding config)
save_file (failed reason left) config file = (err reason, left)

unfoldable pub persist_device_id :
    (Uuid → String) → Write → Uuid → ConfigFile → Result String (Unit {0}) × ConfigFile
unfolding load_file save_file
persist_device_id to_string w id file = elim (load_file file) [
  | err reason ↦ (err reason, file)
  | ok c ↦ save_file w (record c { agent = record c.agent { device_id = to_string id } }) file
]

unfoldable pub persist_controller_url :
    Write → String → ConfigFile → Result String (Unit {0}) × ConfigFile
unfolding load_file save_file
persist_controller_url w url file = elim (load_file file) [
  | err reason ↦ (err reason, file)
  | ok c ↦ save_file w (record c { controller = record c.controller { url = url } }) file
]

-- What one call of `load` reads besides the file: the environment, `hostname::get()` as a text, a
-- fresh id, and how a write ends.
pub record Loading : Type 0 where
  pub env : ProcessEnv
  pub hostname : Option String
  pub fresh : Uuid
  pub write : Write

unfoldable pub keep_generated :
    (Uuid → String)
    → Write
    → AgentConfig
    → Bool
    → ConfigFile
    → Result String AgentConfig × ConfigFile
unfolding persist_device_id
keep_generated to_string w resolved false file = (ok resolved, file)
keep_generated to_string w resolved true file =
    let (result, file') = persist_device_id to_string w resolved.device_id file in
    elim result [ err reason ↦ (err reason, file') | ok _ ↦ (ok resolved, file') ]

unfoldable pub load :
    (String → Option Uuid)
    → (Uuid → String)
    → Loading
    → CliOverrides
    → ConfigFile
    → Result String AgentConfig × ConfigFile
unfolding load_file resolve from_process_env keep_generated
load parse_str to_string x cli file = elim (load_file file) [
  | err reason ↦ (err reason, file)
  | ok c ↦
      let resolved =
        resolve parse_str c (from_process_env x.env) cli (unwrap_or x.hostname "unknown-host")
          x.fresh in
      keep_generated to_string x.write resolved resolved.device_id_generated file
]
