-- ===== src/Examples/Commanding.antt =====
-- The theorems on the commands, the client and the service, applied.
use timelord.Prelude.{
  ◌≡◌, refl, ◌||◌, true, false, Option, none, some, List, [], ◌∷◌, ◌++◌, String, any, arith,
}
use timelord.Prelude.Result.{Result, ok, err}
use timelord.Prelude.Time.{Uuid}
use timelord.Prelude.Trim.{trim}
use timelord.Protocol.{EventSubmissionResponse, EventResultStatus}
use timelord.Schedule.{Schedule}
use timelord.Queue.{
  no_fault, try_enqueue, mark_delivered_by_event_id, enqueue, enforce_max_size_with_cap, insert_row,
}
use timelord.Events.{agent_started}
use timelord.Config.{
  AgentConfig, AgentFileConfig, Loading, holding, written, load, resolve, default_file,
  from_process_env, no_overrides,
}
use timelord.Client.{ControllerClient, HttpRequest, HttpResponse, poll_schedule, submit_events}
use timelord.Agent.Loops.{Connection, Delivery, shut_down, delivery_turn}
use timelord.Agent.LastDelivery.{nothing_left}
use timelord.Agent.{Agent, mark_schedule_synced, apply_schedule}
use timelord.Agent.Networking.{schedule_poll}
use timelord.Agent.Polling.{forgotten_only_by_204}
use timelord.Commands.Testing.{TestRun, test_event}
use timelord.Commands.TestEvent.{TakenBy, lost_only_if_taken}
use timelord.Service.{init, stop, shutdown, interrogate}
use timelord.Service.Stopping.{
  Happening, controlled, pump_starts, happen_each, gets_through, is_shutdown, stopped_exactly,
}
use timelord.Examples.Queueing.{two_rows-IsWellFormed}
use timelord.Examples.{a_report, started_agent, evening, two_rows, stamp_numbered}

abbrev parse_one : String → Option Uuid
parse_one s = some 3

abbrev print_one : Uuid → String
print_one id = "x"

abbrev configured : AgentFileConfig
configured = record default_file {
  agent = record default_file.agent { device_id = "x" };
  controller = record default_file.controller { url = "http://home" };
}

abbrev a_loading : Loading
a_loading = record {
  env = record {
    timelord_controller_url = none;
    timelord_device_id = none;
    timelord_device_name = none;
    timelord_discovery_enabled = none;
  };
  hostname = none;
  fresh = 9;
  write = written;
}

abbrev taken_answer : EventSubmissionResponse
taken_answer = record {
  accepted = 1;
  duplicates = 0;
  rejected = 0;
  results = record { event_id = 70; status = EventResultStatus.accepted; reason = none } ∷ [];
}

abbrev a_test : TestRun
a_test = record {
  build = record { agent_version = "1.0"; operating_system = "windows"; architecture = "x86_64" };
  open_error = none;
  stamp = stamp_numbered 70;
  now = 100;
  fault = no_fault;
  queue_error = "";
  register = λ request c. ok (record {
    device_id = 3;
    controller_id = 1;
    registered_at = 100;
    heartbeat_interval_seconds = 60;
    accepted = true;
    schedule = none;
  });
  submit_events = λ device_id request c. ok taken_answer;
  remove_error = none;
}

abbrev its_config : AgentConfig
its_config =
    resolve parse_one configured (from_process_env a_loading.env) no_overrides "unknown-host" 9

lost_only_if_taken_example : (c : ControllerClient) × TakenBy a_test c
unfolding load resolve trim test_event try_enqueue mark_delivered_by_event_id enqueue
    enforce_max_size_with_cap insert_row agent_started
lost_only_if_taken_example =
    lost_only_if_taken parse_one print_one a_loading a_test two_rows (holding configured)
      (holding configured) its_config refl refl refl refl (omega arith) refl

-- A controller that has no schedule for the device.
abbrev no_schedule : HttpRequest → Result String (HttpResponse Schedule)
no_schedule request = ok (record { status = 204; text = some ""; json = err "empty" })

forgotten_only_by_204_example :
    (q : HttpRequest) × (r : HttpResponse Schedule) × (no_schedule q ≡ ok r) × (r.status ≡ 204)
unfolding poll_schedule schedule_poll mark_schedule_synced apply_schedule
forgotten_only_by_204_example =
    forgotten_only_by_204 false evening started_agent refl print_one no_schedule 3 (some "r1") 30
      (record { base_url = "http://home" }) refl

-- A stop while the service starts; later a stop that Windows refuses, and a shutdown of the system.
abbrev early : List Happening
early = controlled stop true ∷ []

abbrev later : List Happening
later = controlled stop false ∷ controlled interrogate true ∷ controlled shutdown true ∷ []

stopped_exactly_example :
    ((happen_each (early ++ pump_starts ∷ later) init).quit_posted ≡ any gets_through later)
    × ((happen_each (early ++ pump_starts ∷ later) init).shutdown_requested
        ≡ any is_shutdown early || any is_shutdown later)
stopped_exactly_example = stopped_exactly early later (refl, tt)

-- A delivery of two rows that the controller accepts.
abbrev both_taken : EventSubmissionResponse
both_taken = record {
  accepted = 1;
  duplicates = 1;
  rejected = 0;
  results =
      record { event_id = 1; status = EventResultStatus.accepted; reason = none }
      ∷ record { event_id = 2; status = EventResultStatus.duplicate; reason = none }
      ∷ [];
}

abbrev accepting : HttpRequest → Result String (HttpResponse EventSubmissionResponse)
accepting request = ok (record { status = 200; text = none; json = ok both_taken })

abbrev a_delivery : Delivery
a_delivery = record {
  now = 100;
  read_fails = false;
  writes = record { fails = λ id. false; now = λ id. 101 };
  report = a_report;
}

abbrev a_connection : Connection
a_connection = record { client = record { base_url = "http://home" }; device_id = 3 }

abbrev connected_agent : Agent
connected_agent = record started_agent { connected = true }

nothing_left_example :
    (delivery_turn print_one accepting shut_down a_delivery a_connection
      connected_agent).1.queue.rows
    ≡ []
unfolding submit_events
nothing_left_example =
    nothing_left print_one accepting shut_down a_delivery a_connection connected_agent both_taken
      refl refl (λ id. refl) two_rows-IsWellFormed (omega arith, (omega arith, tt)) (omega arith)
      refl ((λ e. cc), ((λ e. cc), tt)) (omega arith)
