-- ===== src/Lib.antt =====
-- A verification library of the Timelord agent: the Rust crates `agent`, `ipc` and `notifier`.
--
-- The agent runs on a child's Windows device. Session notifications (logon, lock, suspend, ...) go to
-- the usage recorder, which turns them into usage sessions, writes those to a SQLite store and mirrors
-- every notification into a durable event queue. The networking side registers with a controller,
-- sends heartbeats, delivers the queue in batches, and polls for a schedule of off windows and for an
-- administrator's messages. The enforcement loop suspends or shuts down the device inside an off
-- window. A notifier process in the user's session polls the agent over a local pipe and warns of what
-- is coming.
--
-- Which file models what, with paths from the repository's root:
--   Tracker    agent/src/tracker.rs: `UsageTracker` and `apply`, field by field. Tracker/Activity has
--              single events, Tracker/Timeline and Tracker/Presence whole runs.
--   Store      agent/src/store.rs: the table `usage_session` as the list of its rows.
--   Recorder   agent/src/lib.rs: `UsageRecorder::handle_at`, `from_store` and `shutdown`.
--              Recorder/Consistent, Recorder/Recovery, Recorder/Failures, Recorder/Reporting and
--              Recorder/Stop have its agreement with the store, the restart, a failing store, the
--              mirrored events and the shutdown.
--   Platform   agent/src/platform: the window's messages, the sessions found at the start, and the
--              development backend's commands, as calls of the recorder. Platform/Pump and
--              Platform/Seeding have what the tracker learns of them.
--   Queue      agent/src/queue.rs: the table `event_queue` and every statement on it. Queue/Identity
--              has its invariant, Queue/Capacity the cap, Queue/Batch the batches, Queue/Backoff the
--              retries.
--   Events     agent/src/events.rs, and Protocol agent/src/protocol.rs: events and wire types.
--   Schedule   agent/src/schedule.rs: the windows, the gate's test and the cache.
--   Messages   agent/src/messages.rs: the messages with the cursor. Messages/Receiving has what the
--              loop of `apply` adds, Messages/Apply the guarantees of `apply`.
--   Ipc        ipc/src/lib.rs, and Pipe agent/src/notify_pipe.rs: the answers to the notifier.
--   Clock      agent/src/clock.rs: the clock corrected by NTP. Clock/Ntp has its timestamps and
--              offsets, Clock/Answer and Clock/Measured a request's way to a server and back,
--              Clock/Median the choice among servers.
--   Config     agent/src/config.rs: the sources of the configuration, `resolve`, `load`, and the two
--              writes of agent.toml; Config/Sources has their shapes. Config/Identity and Config/Servers have its guarantees.
--   Agent      agent/src/agent.rs: `Agent` and its methods. Agent/Networking has the reactions of the
--              loops to the controller's answers, Agent/Enforcement the rounds of
--              `enforcement_loop`, Agent/ClockLoop those of `clock_sync_loop`, Agent/Loops the turns of
--              the other loops with their requests. The other children have what they guarantee:
--              Agent/Due which action a round asks for, Agent/Waiting how long it may wait.
--   Discovery  agent/src/discovery.rs, and `resolve_controller_url` of agent/src/agent.rs.
--              Discovery/Sweep has the targets and the loop of `discover`; Discovery/Rounds,
--              Discovery/Kept and Discovery/Swept have the choice, the kept URL and the targets.
--   Client     agent/src/controller_client.rs: the requests, and what is made of the answers.
--   Commands   agent/src/main.rs: the choice of a command, `discover`, and in Commands/Testing
--              `test-event`. Commands/TestEvent and Commands/Forced have what they guarantee.
--   Service    agent/src/service_win.rs: the control handler with the flags of
--              agent/src/platform/windows.rs, and the states that the service reports. Whether
--              PostThreadMessageW succeeds is an argument. Service/Stopping has which stops get through.
--   Lifecycle  agent/src/agent.rs: `run_blocking`, which the parts above meet in.
--   Engine     notifier/src/engine.rs: `Engine::update` and `MessageTracker`.
--   Notifier   notifier/src/main.rs and notifier/src/state.rs: the loop and the file of shown ids.
--              Notifier/Wording is notifier/src/text.rs, Notifier/Markup the XML of
--              notifier/src/ui.rs, Notifier/LogFile notifier/src/logfile.rs. Notifier/Markup/Xml is what
--              XML 1.0 makes of such a document, with Notifier/Markup/Escaped and Reading.
--   Prelude    lists, maps, sets, sorting, integers and time that the others share.
--   Examples   concrete runs that the theorems are applied to.
--
-- How the code is modelled. A method that changes its object is a function from the state to the
-- state; a mutex is the field that it guards, so that one call is one step. `deliver_due_batch` is in
-- two halves, since the queue is free between them. What a call does not decide itself is an argument:
-- readings of the clocks, fresh ids, failures of SQLite, the answers of HTTP, the platform's
-- outcome, and the entry that iterating a hash map meets first. SQL statements are functions on the
-- list of rows. Instants and durations are natural numbers of nanoseconds and UUIDs natural numbers;
-- milliseconds of the NTP arithmetic and cursors are integers. Overflow of the 64-bit counters is out
-- of the model; the 32-bit seconds of NTP are not. Every loop runs over a list of what it is given, so
-- no fuel is used but for the decimal print of a number, which has one more than the number:
-- `register` runs along the answers that it gets, `update` along the actions. agent.toml and the
-- caches are the contents that they parse to. Parsing and printing a UUID are parameters: a theorem
-- that needs it assumes that a printed id parses back. The queue that the recorder shares with the
-- agent is a field of the agent, which Lifecycle lends to the recorder for each of its calls; there,
-- every turn of a thread or a task is a step, in any order.
--
-- Not modelled: reqwest, the sockets and the calls of Windows, with the installation of the service
-- (I/O; their results are arguments), the text form of JSON and TOML, what the commands print, and
-- the controller in Java.
pub mod Prelude
pub mod Tracker
pub mod Schedule
pub mod Protocol
pub mod Queue
pub mod Events
pub mod Store
pub mod Recorder
pub mod Platform
pub mod Ipc
pub mod Engine
pub mod Notifier
pub mod Messages
pub mod Pipe
pub mod Clock
pub mod Config
pub mod Client
pub mod Agent
pub mod Discovery
pub mod Lifecycle
pub mod Commands
pub mod Service
pub mod Examples
