-- ===== src/Lifecycle.antt =====
-- agent/src/agent.rs: `run_blocking`, the agent's life from its start to its stop. The recorder on the
-- platform's thread and the networking tasks take turns: one step is one call of either.
pub mod Reports
pub mod CleanLife
use timelord.Prelude.{
  ℕ, Bool, true, false, Option, none, some, List, [], ◌∷◌, String, unwrap_or, if◌then◌else◌,
}
use timelord.Prelude.File.{CacheFile}
use timelord.Prelude.Int.{ℤ}
use timelord.Prelude.Result.{Result, ok, err}
use timelord.Prelude.Time.{DateTime, Uuid}
use timelord.Protocol.{AgentMessage, EventSubmissionResponse}
use timelord.Queue.{EventQueue, PendingDelivery}
use timelord.Events.{agent_started, agent_stopping, system_boot, system_shutdown}
use timelord.Schedule.{Schedule}
use timelord.Messages.{MessageStore}
use timelord.Store.{Store, StoreError}
use timelord.Recorder.{UsageRecorder, from_store, shutdown}
use timelord.Config.{AgentConfig, CliOverrides, ConfigFile, Loading, load}
use timelord.Platform.{Delivered, SessionEntry, wndproc, seed_active_sessions}
use timelord.Agent
use timelord.Agent.{Agent, Instant, Report, enqueue, begin_shutdown}
use timelord.Client.{ClientError}
use timelord.Agent.Networking.{
  Heartbeat, Registration, Writes, heartbeat, schedule_poll, message_poll, register,
  finish_delivery,
}
use timelord.Discovery.{Search, resolve_controller_url}
use timelord.Agent.Enforcement.{Round, enforcement_round, wake, clock_sync}

-- The queue of the agent is also the recorder's: the agent's field has it, and the recorder gets it
-- for each of its calls.
pub record Process : Type 0 where
  pub config : AgentConfig
  pub agent : Agent
  pub recorder : UsageRecorder

unfoldable pub on_recorder : (UsageRecorder → UsageRecorder) → Process → Process
on_recorder call p =
    let r = call (record p.recorder { event_queue = some p.agent.queue }) in
    record p {
      agent = record p.agent { queue = unwrap_or r.event_queue p.agent.queue };
      recorder = r;
    }

unfoldable pub on_agent : (Agent → Agent) → Process → Process
on_agent call p = record p { agent = call p.agent }

-- What can fail before anything runs.
pub data StartError : Type 0 where
  config_failed : String → StartError
  queue_failed : String → StartError
  store_failed : StoreError → StartError

-- What the start finds: the configuration's sources, what opening the two databases gives, the caches,
-- and what the two reports need.
pub record Opening : Type 0 where
  pub loading : Loading
  pub queue : Result String EventQueue
  pub store : Result StoreError Store
  pub query_fault : Option ℕ
  pub schedule_file : CacheFile Schedule
  pub messages_file : CacheFile MessageStore
  pub started : Instant
  pub version : String
  pub start_report : Report
  pub boot_report : Report

unfoldable pub begin : Opening → AgentConfig → ConfigFile → EventQueue → UsageRecorder → Process
begin x config file queue recorder =
    let created =
      Agent.new config.ntp_enabled file queue x.schedule_file x.messages_file x.started in
    record {
      config = config;
      agent =
          enqueue x.boot_report (system_boot x.boot_report.stamp) (
            enqueue x.start_report (agent_started x.start_report.stamp x.version "STARTUP")
              created);
      recorder = recorder;
    }

unfoldable pub open_recorder : Opening → Result StoreError UsageRecorder
open_recorder x = elim x.store [ err e ↦ err e | ok s ↦ from_store x.query_fault s ]

unfoldable pub open_all : Opening → AgentConfig → ConfigFile → Result StartError Process
unfolding begin open_recorder
open_all x config file = elim x.queue [
  | err reason ↦ err (queue_failed reason)
  | ok queue ↦ elim (open_recorder x) [
    | err e ↦ err (store_failed e)
    | ok recorder ↦ ok (begin x config file queue recorder)
  ]
]

unfoldable pub start_up :
    (String → Option Uuid)
    → (Uuid → String)
    → Opening
    → CliOverrides
    → ConfigFile
    → Result StartError Process × ConfigFile
unfolding open_all
start_up parse_str to_string x cli file =
    let (loaded, file') = load parse_str to_string x.loading cli file in
    elim loaded [
      | err reason ↦ (err (config_failed reason), file')
      | ok config ↦ (open_all x config file', file')
    ]

-- A step: a message of Windows, or one turn of a networking task with the answer that it got.
pub data Step : Type 0 where
  notified : Delivered → Step
  resolved : List Search → Step
  registered : List Registration → Step
  heartbeat_sent : Heartbeat → Step
  schedule_polled : Result ClientError (Option Schedule) → Bool → Step
  messages_polled : Result ClientError (List AgentMessage) → Bool → DateTime → Step
  delivered :
      Writes
      → Report
      → String
      → List PendingDelivery
      → Result ClientError EventSubmissionResponse
      → Step
  enforced : Round → Option Instant → Step
  woken : DateTime → DateTime → Instant → Step
  measured : Option ℤ → Instant → Step

unfoldable pub perform : Step → Process → Process
unfolding on_recorder on_agent
perform (notified d) p = on_recorder (wndproc d) p
perform (resolved searches) p =
    on_agent (λ a. (resolve_controller_url false p.config.controller_url searches a).1) p
perform (registered xs) p = on_agent (λ a. (register xs a).1) p
perform (heartbeat_sent x) p = on_agent (heartbeat x) p
perform (schedule_polled answer fails) p = on_agent (schedule_poll answer fails) p
perform (messages_polled answer fails system) p = on_agent (message_poll answer fails system) p
perform (delivered w r url pending answer) p = on_agent (finish_delivery w r url pending answer) p
perform (enforced x last) p = on_agent (λ a. (enforcement_round x last a).enforced.agent) p
perform (woken planned woke at) p = on_agent (wake planned woke at) p
perform (measured m at) p = on_agent (λ a. (clock_sync m at a).1) p

unfoldable pub perform_each : List Step → Process → Process
perform_each [] p = p
perform_each (s ∷ steps) p = perform_each steps (perform s p)

-- What the stop needs: whether the service manager asked for a shutdown of the system, the failure of
-- the last statement on the store, and what the reports need.
pub record Ending : Type 0 where
  pub shutdown_requested : Bool
  pub store_fault : Option ℕ
  pub now : DateTime
  pub version : String
  pub shutdown_report : Report
  pub stopping_report : Report

unfoldable pub report_shutdown : Ending → Agent → Agent
report_shutdown x a =
    if x.shutdown_requested
    then enqueue x.shutdown_report (system_shutdown x.shutdown_report.stamp) a
    else a

unfoldable pub stop : Ending → Process → Process
unfolding on_recorder on_agent report_shutdown
stop x p =
    on_agent
      (λ a. begin_shutdown (
        enqueue x.stopping_report (agent_stopping x.stopping_report.stamp x.version)
          (report_shutdown x a)))
      (on_recorder (λ r. (shutdown x.store_fault x.now r).1) p)

-- A whole life: the sessions that are there at the start, the steps, the stop, and the steps that
-- the networking tasks still take before the process ends.
unfoldable pub live : List SessionEntry → List Step → Ending → List Step → Process → Process
unfolding on_recorder perform_each stop
live entries steps x last_steps p =
    perform_each last_steps
      (stop x (perform_each steps (on_recorder (seed_active_sessions entries) p)))

unfoldable pub run_blocking :
    (String → Option Uuid)
    → (Uuid → String)
    → Opening
    → CliOverrides
    → List SessionEntry
    → List Step
    → Ending
    → List Step
    → ConfigFile
    → Result StartError Process × ConfigFile
unfolding start_up live
run_blocking parse_str to_string x cli entries steps ending last_steps file =
    let (started, file') = start_up parse_str to_string x cli file in
    elim started [
      | err e ↦ (err e, file')
      | ok p ↦ let p' = live entries steps ending last_steps p in (ok p', p'.agent.agent_toml)
    ]
