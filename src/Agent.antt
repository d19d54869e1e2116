-- ===== src/Agent.antt =====
-- agent/src/agent.rs: the networking side's state, and the methods of `Agent`. A mutex is the field
-- it guards. A `Notify` is its permit: `notify_one` stores one, and a loop that waits takes it.
-- Readings of the clocks, fresh ids, failures and the answers of the controller are arguments.
pub mod Networking
pub mod Enforcement
pub mod Sync
pub mod Gate
pub mod Delivery
pub mod Connection
pub mod Cooldown
pub mod Waiting
pub mod Due
pub mod ClockLoop
pub mod Polling
pub mod Loops
pub mod LastDelivery
use timelord.Prelude.{
  ℕ, ◌-◌, Bool, true, false, not, ◌&&◌, ◌||◌, Option, none, some, List, String, if◌then◌else◌,
}
use timelord.Prelude.Int.{ℤ}
use timelord.Prelude.File.{CacheFile}
use timelord.Prelude.Text.{same_option}
use timelord.Prelude.Time.{DateTime, Duration, from_secs}
use timelord.Protocol.{AgentMessage}
use timelord.Queue.{QueuedEvent, EventQueue, EnqueueFault, try_enqueue}
use timelord.Events.{Stamp, controller_connected, controller_disconnected}
use timelord.Schedule
use timelord.Schedule.{Schedule, same_schedule, enforcement_ready}
use timelord.Messages
use timelord.Messages.{MessageStore}
use timelord.Clock
use timelord.Clock.{TrustedClock, is_ready}
use timelord.Config.{ConfigFile}

-- A reading of `std::time::Instant::now()`, in nanoseconds from some start.
abbrev pub Instant : Type 0
Instant = ℕ

abbrev pub schedule_sync_grace : Duration
schedule_sync_grace = from_secs 90

pub record ScheduleSync : Type 0 where
  pub confirmed : Bool
  pub since : Instant

-- `agent_toml`, `schedule_file` and `messages_file` are the files on disk.
pub record Agent : Type 0 where
  pub agent_toml : ConfigFile
  pub queue : EventQueue
  pub connected : Bool
  pub shutdown : Bool
  pub flush_notify : Bool
  pub schedule : Option Schedule
  pub schedule_file : CacheFile Schedule
  pub schedule_changed : Bool
  pub messages : MessageStore
  pub messages_file : CacheFile MessageStore
  pub schedule_sync : ScheduleSync
  pub clock : TrustedClock
  pub clock_resync : Bool

unfoldable pub new :
    Bool → ConfigFile → EventQueue → CacheFile Schedule → CacheFile MessageStore → Instant → Agent
new ntp_enabled agent_toml queue schedule_file messages_file started = record {
  agent_toml = agent_toml;
  queue = queue;
  connected = false;
  shutdown = false;
  flush_notify = false;
  schedule = Schedule.load schedule_file;
  schedule_file = schedule_file;
  schedule_changed = false;
  messages = Messages.load messages_file;
  messages_file = messages_file;
  schedule_sync = record { confirmed = false; since = started };
  clock = Clock.new ntp_enabled;
  clock_resync = false;
}

unfoldable pub now : DateTime → Agent → DateTime
now system a = Clock.now system a.clock

unfoldable pub mark_schedule_synced : Agent → Agent
mark_schedule_synced a = if a.schedule_sync.confirmed then a else record a {
  schedule_sync = record { confirmed = true; since = a.schedule_sync.since };
  schedule_changed = true;
}

unfoldable pub invalidate_schedule_sync : Instant → Agent → Agent
invalidate_schedule_sync at a = record a {
  clock_resync = true;
  schedule_sync = record { confirmed = false; since = at };
}

-- `elapsed` and `saturating_sub` stop at zero, as the subtraction of natural numbers does.
unfoldable pub enforcement_view : Instant → Duration → Agent → Option Schedule × Option Duration
enforcement_view at grace a =
    let unsynced_for = at - a.schedule_sync.since in
    if enforcement_ready (a.schedule_sync.confirmed && is_ready a.clock) unsynced_for grace
    then (a.schedule, none)
    else (none, some (grace - unsynced_for))

unfoldable pub schedule_for_notices : Instant → Agent → Option Schedule
schedule_for_notices at a = (enforcement_view at schedule_sync_grace a).0

-- `save_fails` is whether the write of the cache fails.
unfoldable pub apply_schedule : Bool → Option Schedule → Agent → Agent
apply_schedule save_fails incoming a =
    if same_option same_schedule a.schedule incoming then a else record a {
      schedule = incoming;
      schedule_file = Schedule.save save_fails incoming a.schedule_file;
      schedule_changed = true;
    }

unfoldable pub live_messages : DateTime → Agent → List AgentMessage
live_messages system a = Messages.live (now system a) a.messages

unfoldable pub messages_cursor : Agent → ℤ
messages_cursor a = a.messages.last_seq

unfoldable pub apply_messages : Bool → DateTime → List AgentMessage → Agent → Agent
apply_messages save_fails system incoming a =
    let (changed, store) = Messages.apply incoming (now system a) a.messages in
    record a {
      messages = store;
      messages_file =
          if changed then Messages.save save_fails store a.messages_file else a.messages_file;
    }

unfoldable pub begin_shutdown : Agent → Agent
begin_shutdown a = record a { shutdown = true }

unfoldable pub request_flush : Agent → Agent
request_flush a = record a { flush_notify = true }

-- What one report needs from outside: the event's stamp, the time of the insertion, and whether
-- SQLite fails.
pub record Report : Type 0 where
  pub stamp : Stamp
  pub now : DateTime
  pub fault : EnqueueFault

unfoldable pub enqueue : Report → QueuedEvent → Agent → Agent
enqueue r e a = record a { queue = (try_enqueue r.fault e r.now a.queue).1 }

unfoldable pub note_disconnected : Report → String → Agent → Agent
note_disconnected r reason a =
    if a.connected
    then enqueue r (controller_disconnected r.stamp reason) (record a { connected = false })
    else a

unfoldable pub note_connected : Report → String → Agent → Agent
note_connected r url a =
    if a.connected
    then a
    else request_flush
        (enqueue r (controller_connected r.stamp url) (record a { connected = true }))
