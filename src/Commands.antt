-- ===== src/Commands.antt =====
-- agent/src/main.rs: the command line. What the commands print is left out but for the choice that
-- `discover` announces. The network's answers and the constants of the build are arguments.
pub mod Testing
pub mod TestEvent
pub mod Forced
use timelord.Prelude.{Bool, true, false, Option, none, some, List, [], ◌∷◌, String, if◌then◌else◌}
use timelord.Prelude.Result.{Result, ok, err}
use timelord.Prelude.Time.{DateTime, Uuid}
use timelord.Protocol.{
  EventSubmissionRequest, EventSubmissionResponse, EventResult, EventResultStatus, RegisterRequest,
  RegisterResponse,
}
use timelord.Queue.{
  EventQueue, EnqueueFault, QueuedEvent, no_fault, insert_fails, trim_fails, to_event_item,
  try_enqueue, mark_delivered_by_event_id,
}
use timelord.Events.{Stamp, agent_started}
use timelord.Config.{
  AgentConfig, CliOverrides, ConfigFile, Loading, Write, load, no_overrides, persist_controller_url,
}
use timelord.Client
use timelord.Client.{ClientError, ControllerClient}
use timelord.Discovery.{DiscoveredController, select_best}

pub record RunArgs : Type 0 where
  pub controller_url : Option String
  pub device_id : Option String
  pub device_name : Option String
  pub no_discovery : Bool

unfoldable pub to_cli_overrides : RunArgs → CliOverrides
to_cli_overrides a = record {
  controller_url = a.controller_url;
  device_id = a.device_id;
  device_name = a.device_name;
  discovery_enabled = if a.no_discovery then some false else none;
}

pub data Command : Type 0 where
  run : RunArgs → Command
  service install uninstall status : Command
  discover_args : Bool → Command
  test_event_args : Command

-- What `main` hands over to.
pub data Task : Type 0 where
  run_agent : CliOverrides → Task
  run_service install_service uninstall_service print_status : Task
  run_discover : Bool → Task
  run_test_event : Task

-- `windows` is `cfg!(windows)`.
unfoldable pub main : Bool → Option Command → Task
unfolding to_cli_overrides
main windows (some (run args)) = run_agent (to_cli_overrides args)
main windows (some service) = run_service
main true none = run_service
main false none = run_agent no_overrides
main windows (some install) = install_service
main windows (some uninstall) = uninstall_service
main windows (some status) = print_status
main windows (some (discover_args force)) = run_discover force
main windows (some test_event_args) = run_test_event

unfoldable pub settle_discover :
    Write
    → Bool
    → Option DiscoveredController
    → ConfigFile
    → Result String (Option DiscoveredController) × ConfigFile
settle_discover w force none file = (ok none, file)
settle_discover w false (some best) file = (ok (some best), file)
settle_discover w true (some best) file =
    let (kept, file') = persist_controller_url w best.controller_url file in
    elim kept [ err reason ↦ (err reason, file') | ok _ ↦ (ok (some best), file') ]

-- An empty list has no best one.
unfoldable pub choose_found :
    Write
    → Bool
    → Result String (List DiscoveredController)
    → ConfigFile
    → Result String (Option DiscoveredController) × ConfigFile
unfolding settle_discover
choose_found w force (err reason) file = (err reason, file)
choose_found w force (ok found) file = settle_discover w force (select_best found) file

-- `discover` once the configuration is loaded: `find` is `discovery::discover` with its settings.
unfoldable pub discover_with :
    (AgentConfig → Result String (List DiscoveredController))
    → Write
    → Bool
    → Result String AgentConfig × ConfigFile
    → Result String (Option DiscoveredController) × ConfigFile
unfolding choose_found
discover_with find w force (err reason, file) = (err reason, file)
discover_with find w force (ok config, file) = choose_found w force (find config) file

unfoldable pub discover :
    (String → Option Uuid)
    → (Uuid → String)
    → Loading
    → (AgentConfig → Result String (List DiscoveredController))
    → Write
    → Bool
    → ConfigFile
    → Result String (Option DiscoveredController) × ConfigFile
unfolding discover_with
discover parse_str print x find w force file =
    discover_with find w force (load parse_str print x no_overrides file)
