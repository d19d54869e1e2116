-- ===== src/Queue/Identity.antt =====
-- The invariant of the queue's table, and that every operation keeps it.
use timelord.Prelude.{
  ℕ, suc, ◌+◌, ◌<◌, ◌≡◌, ◌≢◌, sym, Bool, false, List, [], ◌∷◌, any, keep, All, Pairwise, arith, ltb,
  leb, length, inl, inr, Bool-cases, All-append, All-keep, All-map, Pairwise-keep, Pairwise-append,
  All-both, All-over-map, Pairwise-map,
}
use timelord.Prelude.Time.{DateTime, Uuid}
use timelord.Queue.{
  QueuedEvent, Row, EventQueue, max_attempts, init, insert_row, has_event, delete_ids,
  enforce_max_size_with_cap, enqueue, mark_delivered, reschedule, mark_failed, max_queue_size,
}

-- Two rows have different ids, and different events.
pub record AreDistinct (r s : Row) : Type 0 where
  pub ids : r.id ≢ s.id
  pub events : r.event.event_id ≢ s.event.event_id

pub AreDistinct-sym : (r s : Row) → AreDistinct r s → AreDistinct s r
AreDistinct-sym r s d = record { ids = λ e. d.ids (sym e); events = λ e. d.events (sym e) }

-- An id that has been given out, and fewer failures than end an event's life.
pub record IsLive (next_id : ℕ) (r : Row) : Type 0 where
  pub id_given : r.id < next_id
  pub attempts_left : r.attempt_count < max_attempts

pub record IsWellFormed (q : EventQueue) : Type 0 where
  pub distinct : Pairwise AreDistinct q.rows
  pub live : All (IsLive q.next_id) q.rows

-- A new table satisfies the invariant.
pub init-IsWellFormed : IsWellFormed init
unfolding init
init-IsWellFormed = record { distinct = tt; live = tt }

keep-IsWellFormed :
    (p : Row → Bool) (q : EventQueue)
    → IsWellFormed q
    → IsWellFormed (record q { rows = keep p q.rows })
keep-IsWellFormed p q w = record {
  distinct = Pairwise-keep AreDistinct p q.rows w.distinct;
  live = All-keep (IsLive q.next_id) p q.rows w.live;
}

not_any-All :
    (id : Uuid) (rows : List Row)
    → any (has_event id) rows ≡ false
    → All (λ r. r.event.event_id ≢ id) rows
not_any-All id [] h = tt
not_any-All id (r ∷ rows) h = (ground arith, not_any-All id rows (ground arith))

pub insert_row-IsWellFormed :
    (e : QueuedEvent) (now : DateTime) (q : EventQueue)
    → IsWellFormed q
    → IsWellFormed (insert_row e now q)
unfolding insert_row
insert_row-IsWellFormed e now q w = elim (Bool-cases (any (has_event e.event_id) q.rows)) [
  | inl old ↦ rw old w
  | inr fresh ↦ rw fresh (record {
    distinct =
        Pairwise-append AreDistinct q.rows _ w.distinct (tt, tt)
          (All-both (λ r l n. (record { ids = omega arith; events = n }, tt)) q.rows w.live
            (not_any-All e.event_id q.rows fresh));
    live =
        All-append (IsLive (suc q.next_id)) q.rows _
          (All-map (λ r l. record { id_given = omega arith; attempts_left = l.attempts_left })
            q.rows w.live)
          (record { id_given = omega arith; attempts_left = omega arith }, tt);
  })
]

pub enforce-IsWellFormed :
    (cap : ℕ) (q : EventQueue) → IsWellFormed q → IsWellFormed (enforce_max_size_with_cap cap q)
unfolding enforce_max_size_with_cap delete_ids
enforce-IsWellFormed cap q w = elim (Bool-cases (ltb cap (length q.rows))) [
  | inl over ↦ rw over (keep-IsWellFormed _ q w)
  | inr fits ↦ rw fits w
]

-- `enqueue` keeps the invariant.
pub enqueue-IsWellFormed :
    (e : QueuedEvent) (now : DateTime) (q : EventQueue)
    → IsWellFormed q
    → IsWellFormed (enqueue e now q)
unfolding enqueue
enqueue-IsWellFormed e now q w =
    enforce-IsWellFormed max_queue_size (insert_row e now q) (insert_row-IsWellFormed e now q w)

pub mark_delivered-IsWellFormed :
    (id : ℕ) (q : EventQueue) → IsWellFormed q → IsWellFormed (mark_delivered id q)
unfolding mark_delivered
mark_delivered-IsWellFormed id q w = keep-IsWellFormed _ q w

reschedule_distinct :
    (id n : ℕ) (at : DateTime) (r s : Row)
    → AreDistinct r s
    → AreDistinct (reschedule id n at r) (reschedule id n at s)
reschedule_distinct id n at r s d = record {
  ids = ground (arith, d.ids);
  events = ground (arith, d.events);
}

reschedule-IsLive :
    (id n next_id : ℕ) (at : DateTime) (r : Row)
    → n < max_attempts
    → IsLive next_id r
    → IsLive next_id (reschedule id n at r)
reschedule-IsLive id n next_id at r h l = ground arith

-- `mark_failed` keeps the invariant: an event that has failed `max_attempts` times is not kept.
pub mark_failed-IsWellFormed :
    (id n : ℕ) (now : DateTime) (q : EventQueue)
    → IsWellFormed q
    → IsWellFormed (mark_failed id n now q)
unfolding mark_failed
mark_failed-IsWellFormed id n now q w = elim (Bool-cases (leb max_attempts (n + 1))) [
  | inl spent ↦ rw spent (keep-IsWellFormed _ q w)
  | inr left ↦ rw left (record {
    distinct =
        Pairwise-map AreDistinct AreDistinct _ (reschedule_distinct id (n + 1) _) q.rows w.distinct;
    live = All-over-map (IsLive q.next_id) _ q.rows (
        All-map (λ r l. reschedule-IsLive id (n + 1) q.next_id _ r (ground arith) l) q.rows w.live);
  })
]
