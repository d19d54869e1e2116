-- ===== src/Queue/Capacity.antt =====
-- The cap on the queue: how many rows are kept, and which.
use timelord.Prelude.{
  ℕ, suc, ◌+◌, ◌-◌, ◌≤◌, ◌<◌, ◌≡◌, refl, sym, ap, ◌∙◌, Bool, true, false, not, List, [], ◌∷◌, ◌++◌,
  map, any, keep, take, drop, All, Pairwise, arith, ltb, length, min, inl, inr, Bool-cases, ◌==◌,
  if◌then◌else◌, All-map, All-both, All-of_all, All-take_drop, All-keep, keep-All, Pairwise-take,
  keep-append, keep_nothing, keep_everything, take-append-drop, length-drop, length-append,
  All-swap, length-keep,
}
use timelord.Prelude.Sort.{
  sort_by_key, sort_by_key-IsSorted, sort_by_key-Pairwise, sort_by_key-All, length-keep-sort_by_key,
  length-sort_by_key,
}
use timelord.Prelude.Time.{DateTime}
use timelord.Queue.{
  QueuedEvent, Row, EventQueue, max_queue_size, insert_row, has_event, delete_ids, oldest_ids,
  oldest_rows, enforce_max_size_with_cap, enqueue, len,
}
use timelord.Queue.Identity.{IsWellFormed, AreDistinct, AreDistinct-sym, insert_row-IsWellFormed}

abbrev is_listed : List ℕ → Row → Bool
is_listed ids r = any (λ id. r.id == id) ids

abbrev ids_of : List Row → List ℕ
ids_of rows = map (λ r. r.id) rows

listed_in_tail :
    (i : ℕ) (ids : List ℕ) (r : Row) → is_listed ids r ≡ true → is_listed (i ∷ ids) r ≡ true
listed_in_tail i ids r h = ground arith

-- Rows are found by their own ids.
all_listed : (rows : List Row) → All (λ r. is_listed (ids_of rows) r ≡ true) rows
all_listed [] = tt
all_listed (r ∷ rows) =
    (ground arith, All-map (λ s h. listed_in_tail r.id (ids_of rows) s h) rows (all_listed rows))

not_listed :
    (r : Row) (rows : List Row)
    → All (λ s. AreDistinct s r) rows
    → is_listed (ids_of rows) r ≡ false
not_listed r [] h = refl
not_listed r (s ∷ rows) h = ground (arith, h.0.ids, not_listed r rows h.1)

module _ (n : ℕ) (rows : List Row) where
  by_age : List Row
  by_age = sort_by_key (λ r. r.created_at) rows

  survives : Row → Bool
  survives r = not (is_listed (ids_of (take n by_age)) r)

  front_dropped : keep survives (take n by_age) ≡ []
  unfolding survives
  front_dropped =
      keep_nothing survives (take n by_age)
        (All-map (λ r h. rw h) (take n by_age) (all_listed (take n by_age)))

  survivors_sorted : keep survives by_age ≡ keep survives (drop n by_age)
  survivors_sorted =
      ap (keep survives) (sym (take-append-drop n by_age))
      ∙ keep-append survives (take n by_age) (drop n by_age)
      ∙ ap (λ l. l ++ keep survives (drop n by_age)) front_dropped

  -- At most what stands behind the first `n` is kept.
  length-delete_ids-le : length (delete_ids (oldest_ids n rows) rows) ≤ length rows - n
  unfolding delete_ids oldest_ids oldest_rows survives by_age
  length-delete_ids-le = omega (
    arith,
    length-keep-sort_by_key (λ r. r.created_at) survives rows,
    ap length survivors_sorted,
    length-keep survives (drop n by_age),
    length-drop n by_age,
    length-sort_by_key (λ r. r.created_at) rows,
  )

  back_kept : Pairwise AreDistinct rows → keep survives (drop n by_age) ≡ drop n by_age
  unfolding survives by_age
  back_kept d = keep_everything survives (drop n by_age) (
      All-map {Q = λ r. survives r ≡ true} (λ r h. rw (not_listed r (take n by_age) h))
        (drop n by_age)
        (All-swap AreDistinct (take n by_age) (drop n by_age) (
          Pairwise-take AreDistinct n by_age
            (sort_by_key-Pairwise (λ r. r.created_at) AreDistinct AreDistinct-sym rows d))))

  length-delete_ids :
      Pairwise AreDistinct rows → length (delete_ids (oldest_ids n rows) rows) ≡ length rows - n
  unfolding delete_ids oldest_ids oldest_rows survives by_age
  length-delete_ids d = omega (
    arith,
    length-keep-sort_by_key (λ r. r.created_at) survives rows,
    ap length survivors_sorted,
    ap length (back_kept d),
    length-drop n by_age,
    length-sort_by_key (λ r. r.created_at) rows,
  )

  -- A survivor is at least as new as each of the first `n`.
  abbrev IsNewer : Row → Type 0
  IsNewer r = All (λ d. d.created_at ≤ r.created_at) (take n by_age)

  front_vacuous : All (λ r. survives r ≡ true → IsNewer r) (take n by_age)
  unfolding survives
  front_vacuous = All-map (λ r h k. cc) (take n by_age) (all_listed (take n by_age))

  back-IsNewer : All (λ r. survives r ≡ true → IsNewer r) (drop n by_age)
  unfolding by_age
  back-IsNewer =
      All-map (λ r h k. h) (drop n by_age)
        (All-swap (λ d r. d.created_at ≤ r.created_at) (take n by_age) (drop n by_age)
          (Pairwise-take (λ d r. d.created_at ≤ r.created_at) n by_age
            (sort_by_key-IsSorted (λ r. r.created_at) rows)))

  survivors-IsNewer : All IsNewer (keep survives rows)
  unfolding by_age
  survivors-IsNewer =
      All-both (λ r f h. f h) (keep survives rows)
        (All-keep (λ r. survives r ≡ true → IsNewer r) survives rows
          (sort_by_key-All (λ r. r.created_at) (λ r. survives r ≡ true → IsNewer r) rows
            (All-take_drop (λ r. survives r ≡ true → IsNewer r) n by_age front_vacuous
              back-IsNewer)))
        (keep-All survives rows)

-- The rows that the cap discards from a table.
abbrev pub overflow_rows : ℕ → EventQueue → List Row
overflow_rows cap q = oldest_rows (length q.rows - cap) q.rows

length-enforce-le : (cap : ℕ) (q : EventQueue) → len (enforce_max_size_with_cap cap q) ≤ cap
unfolding enforce_max_size_with_cap len
length-enforce-le cap q = ground (arith, length-delete_ids-le (length q.rows - cap) q.rows)

-- The cap deletes exactly the overflow.
pub length-enforce :
    (cap : ℕ) (q : EventQueue)
    → IsWellFormed q
    → len (enforce_max_size_with_cap cap q) ≡ min cap (len q)
unfolding enforce_max_size_with_cap len
length-enforce cap q w = ground (arith, length-delete_ids (length q.rows - cap) q.rows w.distinct)

-- After the cap, no row that is left is older than a row that was discarded.
pub enforce_newest :
    (cap : ℕ) (q : EventQueue)
    → All
        (λ r. All (λ d. d.created_at ≤ r.created_at) (overflow_rows cap q))
        (enforce_max_size_with_cap cap q).rows
unfolding enforce_max_size_with_cap delete_ids oldest_ids oldest_rows
enforce_newest cap q = elim (Bool-cases (ltb cap (length q.rows))) [
  | inl over ↦ rw over (unfold by_age survives in survivors-IsNewer (length q.rows - cap) q.rows)
  | inr fits ↦
      let e : length q.rows - cap ≡ 0 = ground arith in rw (fits, e) (All-of_all _ (λ r. tt) q.rows)
]

length-insert_row :
    (e : QueuedEvent) (now : DateTime) (q : EventQueue)
    → len (insert_row e now q) ≡ (if any (has_event e.event_id) q.rows then len q else len q + 1)
unfolding insert_row len
length-insert_row e now q = elim (Bool-cases (any (has_event e.event_id) q.rows)) [
  | inl old ↦ rw old
  | inr fresh ↦ rw fresh (rw length-append)
]

-- However full the table was before, `enqueue` leaves at most `max_queue_size` rows.
pub enqueue-len-le :
    (e : QueuedEvent) (now : DateTime) (q : EventQueue) → len (enqueue e now q) ≤ max_queue_size
unfolding enqueue
enqueue-len-le e now q = length-enforce-le max_queue_size (insert_row e now q)

-- A table that keeps the invariant has one row more after `enqueue`, or as many if the event was
-- there, cut off at the cap.
pub enqueue-len :
    (e : QueuedEvent) (now : DateTime) (q : EventQueue)
    → IsWellFormed q
    → len (enqueue e now q)
      ≡ min max_queue_size (if any (has_event e.event_id) q.rows then len q else len q + 1)
unfolding enqueue
enqueue-len e now q w =
    length-enforce max_queue_size (insert_row e now q) (insert_row-IsWellFormed e now q w)
    ∙ ap (min max_queue_size) (length-insert_row e now q)

-- The queue with an event put at its end.
abbrev pub appended : QueuedEvent → DateTime → EventQueue → EventQueue
appended e now q = record {
  rows =
      q.rows
      ++ record {
        id = q.next_id;
        event = e;
        attempt_count = 0;
        next_attempt_at = now;
        created_at = now;
      }
        ∷ [];
  next_id = suc q.next_id;
}

enforce_room :
    (cap : ℕ) (q : EventQueue) → length q.rows ≤ cap → enforce_max_size_with_cap cap q ≡ q
unfolding enforce_max_size_with_cap
enforce_room cap q h = ground arith

-- With room for one more row, a new event goes to the end and nothing else changes.
pub enqueue_room :
    (e : QueuedEvent) (now : DateTime) (q : EventQueue)
    → any (has_event e.event_id) q.rows ≡ false
    → length q.rows < max_queue_size
    → enqueue e now q ≡ appended e now q
unfolding enqueue insert_row
enqueue_room e now q fresh room =
    rw fresh (enforce_room max_queue_size (appended e now q) (rw length-append (omega arith)))
