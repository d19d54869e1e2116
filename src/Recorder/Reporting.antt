-- ===== src/Recorder/Reporting.antt =====
-- What a notification puts into the event queue.
use timelord.Prelude.{◌+◌, ◌<◌, ◌≡◌, ◌≢◌, false, Option, List, [], ◌∷◌, String, map, any, length}
use timelord.Prelude.Time.{DateTime}
use timelord.Events.{from_session_event}
use timelord.Protocol.{EventType}
use timelord.Queue.{EventQueue, no_fault, has_event, max_queue_size}
use timelord.Queue.Capacity.{appended}
use timelord.Tracker.{SessionEvent, Transition, no_change, started, ended}
use timelord.Recorder.{Inputs}

-- The types of the events in the queue, in the order of their rows.
abbrev pub types_in : EventQueue → List EventType
types_in q = map (λ r. r.event.event_type) q.rows

-- The activity event that follows a notification: ACTIVE when use begins, INACTIVE when it ends,
-- but none when it ends with a logoff.
abbrev pub activity_types : Transition → SessionEvent → List EventType
activity_types no_change e = []
activity_types (started t) e = EventType.active ∷ []
activity_types (ended u) (SessionEvent.logoff id) = []
activity_types (ended u) _ = EventType.inactive ∷ []

-- The queue takes both events: no fault, two new ids, and room for two rows.
pub record HasRoom (i : Inputs) (q : EventQueue) : Type 0 where
  pub no_event_fault : i.event_fault ≡ no_fault
  pub no_activity_fault : i.activity_fault ≡ no_fault
  pub new_event_id : any (has_event i.event_stamp.event_id) q.rows ≡ false
  pub new_activity_id : any (has_event i.activity_stamp.event_id) q.rows ≡ false
  pub two_ids : i.event_stamp.event_id ≢ i.activity_stamp.event_id
  pub room : length q.rows + 1 < max_queue_size

module _ (i : Inputs) (e : SessionEvent) (username : Option String) (now : DateTime)
    (q : EventQueue) (h : HasRoom i q) where
  first : EventQueue
  first = appended (from_session_event i.event_stamp e username) now q
