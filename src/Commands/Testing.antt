-- ===== src/Commands/Testing.antt =====
-- agent/src/main.rs: `test-event`, which queues an event and tries to deliver it at once.
use timelord.Prelude.{Option, none, some, List, [], ◌∷◌, String}
use timelord.Prelude.Result.{Result, ok, err}
use timelord.Prelude.Time.{DateTime, Uuid}
use timelord.Protocol.{
  EventSubmissionRequest, EventSubmissionResponse, EventResult, EventResultStatus, RegisterRequest,
  RegisterResponse,
}
use timelord.Queue.{
  EventQueue, EnqueueFault, QueuedEvent, to_event_item, try_enqueue, mark_delivered_by_event_id,
}
use timelord.Events.{Stamp, agent_started}
use timelord.Config.{AgentConfig, ConfigFile, Loading, load, no_overrides}
use timelord.Client
use timelord.Client.{ClientError, ControllerClient}

-- The constants of the build: AGENT_VERSION, OS and ARCH.
pub record Build : Type 0 where
  pub agent_version : String
  pub operating_system : String
  pub architecture : String

unfoldable pub build_register_request : Build → AgentConfig → RegisterRequest
build_register_request b config = record {
  device_id = config.device_id;
  device_name = config.device_name;
  hostname = config.device_name;
  agent_version = b.agent_version;
  operating_system = b.operating_system;
  operating_system_version = "";
  architecture = b.architecture;
  local_ip_addresses = [];
  network_interfaces = [];
}

-- What `test_event` meets: how opening the queue, the insertion (with the text of its error) and the
-- removal end, and the controller's answers.
pub record TestRun : Type 0 where
  pub build : Build
  pub open_error : Option String
  pub stamp : Stamp
  pub now : DateTime
  pub fault : EnqueueFault
  pub queue_error : String
  pub register : RegisterRequest → ControllerClient → Result ClientError RegisterResponse
  pub submit_events :
      Uuid → EventSubmissionRequest → ControllerClient → Result ClientError EventSubmissionResponse
  pub remove_error : Option String

unfoldable pub test_event_of : TestRun → QueuedEvent
test_event_of x = agent_started x.stamp x.build.agent_version "CLI_TEST_EVENT"

unfoldable pub remove_delivered :
    TestRun → EventResultStatus → EventQueue → Result String (Unit {0}) × EventQueue
remove_delivered x EventResultStatus.rejected q = (ok tt, q)
remove_delivered x _ q = elim x.remove_error [
  | some reason ↦ (err reason, q)
  | none ↦ (ok tt, mark_delivered_by_event_id (test_event_of x).event_id q)
]

unfoldable pub settle_results :
    TestRun → List EventResult → EventQueue → Result String (Unit {0}) × EventQueue
unfolding remove_delivered
settle_results x [] q = (ok tt, q)
settle_results x (r ∷ results) q = remove_delivered x r.status q

abbrev pub test_submission : TestRun → EventSubmissionRequest
test_submission x = record { events = to_event_item (test_event_of x) ∷ [] }

unfoldable pub on_submitted :
    TestRun
    → Result ClientError EventSubmissionResponse
    → EventQueue
    → Result String (Unit {0}) × EventQueue
unfolding settle_results
on_submitted x (err e) q = (ok tt, q)
on_submitted x (ok response) q = settle_results x response.results q

unfoldable pub on_registered :
    TestRun
    → ControllerClient
    → Result ClientError RegisterResponse
    → EventQueue
    → Result String (Unit {0}) × EventQueue
unfolding on_submitted
on_registered x client (err e) q = (ok tt, q)
on_registered x client (ok response) q =
    on_submitted x (x.submit_events response.device_id (test_submission x) client) q

unfoldable pub deliver_test :
    TestRun → AgentConfig → Option String → EventQueue → Result String (Unit {0}) × EventQueue
unfolding on_registered build_register_request
deliver_test x config none q = (ok tt, q)
deliver_test x config (some url) q =
    let client = Client.new url in
    on_registered x client (x.register (build_register_request x.build config) client) q

unfoldable pub queue_test :
    TestRun → AgentConfig → EventQueue → Result String (Unit {0}) × EventQueue
unfolding deliver_test test_event_of
queue_test x config q =
    let (queued, q') = try_enqueue x.fault (test_event_of x) x.now q in
    elim queued [
      | err _ ↦ (err x.queue_error, q')
      | ok _ ↦ deliver_test x config config.controller_url q'
    ]

-- `test_event` once the configuration is loaded.
unfoldable pub test_event_with :
    TestRun
    → EventQueue
    → Result String AgentConfig × ConfigFile
    → Result String (Unit {0}) × EventQueue × ConfigFile
unfolding queue_test
test_event_with t q (err reason, file) = (err reason, q, file)
test_event_with t q (ok config, file) = elim t.open_error [
  | some reason ↦ (err reason, q, file)
  | none ↦ let (ended, q') = queue_test t config q in (ended, q', file)
]

unfoldable pub test_event :
    (String → Option Uuid)
    → (Uuid → String)
    → Loading
    → TestRun
    → EventQueue
    → ConfigFile
    → Result String (Unit {0}) × EventQueue × ConfigFile
unfolding test_event_with
test_event parse_str print x t q file =
    test_event_with t q (load parse_str print x no_overrides file)
