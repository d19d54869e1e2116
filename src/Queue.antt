-- ===== src/Queue.antt =====
-- agent/src/queue.rs: the durable event queue. The table `event_queue` is the list of its rows in
-- the order of their ids, and each SQL statement is a function on it. A row holds its values
-- themselves where the table holds their text (JSON, RFC 3339, UUID): the stored instants are all
-- written with one offset and so compare as the instants do.
pub mod Backoff
pub mod Capacity
pub mod Batch
pub mod Identity
use timelord.Prelude.{
  ℕ, suc, ◌+◌, ◌-◌, ◌*◌, Bool, true, false, not, Option, none, some, List, [], ◌∷◌, ◌++◌, String,
  map, ltb, leb, ◌==◌, length, take, get_or, any, keep, if◌then◌else◌, min,
}
use timelord.Prelude.Result.{Result, ok, err}
use timelord.Prelude.Sort.{sort_by_key}
use timelord.Prelude.Time.{DateTime, Duration, Uuid, from_secs}
use timelord.Protocol.{EventType, EventSeverity, EventSource, Value, EventItem}

abbrev pub max_attempts : ℕ
max_attempts = 48

abbrev pub max_queue_size : ℕ
max_queue_size = 5000

pub record QueuedEvent : Type 0 where
  pub event_id : Uuid
  pub event_type : EventType
  pub occurred_at : DateTime
  pub severity : EventSeverity
  pub source : EventSource
  pub session_id : Option Uuid
  pub username : Option String
  pub payload : List (String × Value)

unfoldable pub to_event_item : QueuedEvent → EventItem
to_event_item e = record {
  event_id = e.event_id;
  event_type = e.event_type;
  occurred_at = e.occurred_at;
  severity = e.severity;
  source = e.source;
  session_id = e.session_id;
  username = e.username;
  payload = e.payload;
}

pub record PendingDelivery : Type 0 where
  pub row_id : ℕ
  pub event : QueuedEvent
  pub attempt_count : ℕ

-- A row of `event_queue`.
pub record Row : Type 0 where
  pub id : ℕ
  pub event : QueuedEvent
  pub attempt_count : ℕ
  pub next_attempt_at : DateTime
  pub created_at : DateTime

-- The table, with the next id that AUTOINCREMENT gives out.
pub record EventQueue : Type 0 where
  pub rows : List Row
  pub next_id : ℕ

-- `CREATE TABLE IF NOT EXISTS` on a new file.
unfoldable pub init : EventQueue
init = record { rows = []; next_id = 1 }

abbrev pub has_event : Uuid → Row → Bool
has_event id r = r.event.event_id == id

-- `INSERT … ON CONFLICT(event_id) DO NOTHING`.
unfoldable pub insert_row : QueuedEvent → DateTime → EventQueue → EventQueue
insert_row e now q = if any (has_event e.event_id) q.rows then q else record {
  rows =
      q.rows
      ++ record {
        id = q.next_id;
        event = e;
        attempt_count = 0;
        next_attempt_at = now;
        created_at = now;
      }
        ∷ [];
  next_id = suc q.next_id;
}

abbrev pub has_id : ℕ → Row → Bool
has_id id r = r.id == id

-- `SELECT … FROM event_queue ORDER BY created_at ASC LIMIT n`.
unfoldable pub oldest_rows : ℕ → List Row → List Row
oldest_rows n rows = take n (sort_by_key (λ r. r.created_at) rows)

unfoldable pub oldest_ids : ℕ → List Row → List ℕ
oldest_ids n rows = map (λ r. r.id) (oldest_rows n rows)

-- `DELETE FROM event_queue WHERE id IN (…)`.
unfoldable pub delete_ids : List ℕ → List Row → List Row
delete_ids ids rows = keep (λ r. not (any (λ id. r.id == id) ids)) rows

-- `overflow > 0` on signed numbers is `cap < count`.
unfoldable pub enforce_max_size_with_cap : ℕ → EventQueue → EventQueue
enforce_max_size_with_cap cap q =
    if ltb cap (length q.rows)
    then record q { rows = delete_ids (oldest_ids (length q.rows - cap) q.rows) q.rows }
    else q

unfoldable pub enforce_max_size : EventQueue → EventQueue
enforce_max_size q = enforce_max_size_with_cap max_queue_size q

unfoldable pub enqueue : QueuedEvent → DateTime → EventQueue → EventQueue
unfolding enforce_max_size
enqueue e now q = enforce_max_size (insert_row e now q)

-- Where `enqueue` may fail: at its INSERT, or at the statements that trim the table.
pub data EnqueueFault : Type 0 where
  no_fault insert_fails trim_fails : EnqueueFault

-- `enqueue` with the failures of SQLite. The INSERT stays when the trimming fails.
unfoldable pub try_enqueue :
    EnqueueFault → QueuedEvent → DateTime → EventQueue → Result (Unit {0}) (Unit {0}) × EventQueue
try_enqueue no_fault e now q = (ok tt, enqueue e now q)
try_enqueue insert_fails e now q = (err tt, q)
try_enqueue trim_fails e now q = (err tt, insert_row e now q)

abbrev pub is_due : DateTime → Row → Bool
is_due now r = leb r.next_attempt_at now

abbrev pub to_delivery : Row → PendingDelivery
to_delivery r = record { row_id = r.id; event = r.event; attempt_count = r.attempt_count }

-- The rows of the query of `due_batch`, and what `due_batch` makes of them.
unfoldable pub due_rows : DateTime → ℕ → EventQueue → List Row
due_rows now limit q = take limit (sort_by_key (λ r. r.created_at) (keep (is_due now) q.rows))

unfoldable pub due_batch : DateTime → ℕ → EventQueue → List PendingDelivery
unfolding due_rows
due_batch now limit q = map to_delivery (due_rows now limit q)

unfoldable pub mark_delivered : ℕ → EventQueue → EventQueue
mark_delivered row_id q = record q { rows = keep (λ r. not (has_id row_id r)) q.rows }

unfoldable pub mark_delivered_by_event_id : Uuid → EventQueue → EventQueue
mark_delivered_by_event_id event_id q = record q {
  rows = keep (λ r. not (has_event event_id r)) q.rows;
}

abbrev pub backoff_schedule_seconds : List ℕ
backoff_schedule_seconds = 10 ∷ 30 ∷ 60 ∷ 300 ∷ 900 ∷ 1800 ∷ []

-- The index is in range for every attempt (`Queue.Backoff`), so the default is never taken.
unfoldable pub backoff_delay : ℕ → Duration
backoff_delay attempt =
    from_secs
      (get_or backoff_schedule_seconds (min (attempt - 1) (length backoff_schedule_seconds - 1)) 0)

-- The row after `SET attempt_count = n, next_attempt_at = at`.
abbrev pub retried : ℕ → DateTime → Row → Row
retried n at r = record r { attempt_count = n; next_attempt_at = at }

abbrev pub reschedule : ℕ → ℕ → DateTime → Row → Row
reschedule row_id n at r = if has_id row_id r then retried n at r else r

unfoldable pub mark_failed : ℕ → ℕ → DateTime → EventQueue → EventQueue
unfolding mark_delivered
mark_failed row_id attempt_count now q =
    let next_attempt_count = attempt_count + 1 in
    if leb max_attempts next_attempt_count then mark_delivered row_id q else record q {
      rows =
          map (reschedule row_id next_attempt_count (now + backoff_delay next_attempt_count))
            q.rows;
    }

unfoldable pub len : EventQueue → ℕ
len q = length q.rows

unfoldable pub is_empty : EventQueue → Bool
unfolding len
is_empty q = len q == 0
