-- ===== src/Queue/Backoff.antt =====
-- The retry schedule: its bounds, and what a failure does to a row.
use timelord.Prelude.{
  ℕ, zero, ◌+◌, ◌-◌, ◌≤◌, ◌<◌, ◌≡◌, Option, none, some, List, [], ◌∷◌, min, map, length, get_or,
  not, inl, inr, Option-cases, Bool-cases, ◌∙◌, arith, ltb, leb, ◌==◌, if◌then◌else◌, find, keep,
}
use mathlib.Core.Option
use timelord.Prelude.Time.{DateTime, from_secs}
use timelord.Queue.{
  Row, EventQueue, max_attempts, has_id, backoff_schedule_seconds, backoff_delay, mark_failed,
  retried, reschedule,
}

index_bounds :
    (i j : ℕ)
    → i ≤ j
    → j ≤ 5
    → (10 ≤ get_or backoff_schedule_seconds i 0)
      × (get_or backoff_schedule_seconds i 0 ≤ get_or backoff_schedule_seconds j 0)
      × (get_or backoff_schedule_seconds j 0 ≤ 1800)
index_bounds zero zero h k = omega arith
index_bounds i j h k = ground arith

-- Every delay lies between ten seconds and half an hour, and a later attempt waits at least as
-- long as an earlier one.
pub backoff_delay_bounds :
    (a b : ℕ)
    → a ≤ b
    → (from_secs 10 ≤ backoff_delay a)
      × (backoff_delay a ≤ backoff_delay b)
      × (backoff_delay b ≤ from_secs 1800)
unfolding backoff_delay
backoff_delay_bounds a b h =
    let (lo, mono, hi) = index_bounds (min (a - 1) 5) (min (b - 1) 5) (omega arith) (omega arith) in
    omega arith

find-map-reschedule :
    (i j n : ℕ) (at : DateTime) (rows : List Row)
    → find (has_id j) (map (reschedule i n at) rows)
      ≡ (if i == j then Option.map (retried n at) (find (has_id j) rows) else find (has_id j) rows)
find-map-reschedule i j n at [] = ground arith
find-map-reschedule i j n at (r ∷ rows) = ground (arith, find-map-reschedule i j n at rows)

find-keep-not :
    (i j : ℕ) (rows : List Row)
    → find (has_id j) (keep (λ r. not (has_id i r)) rows)
      ≡ (if i == j then none else find (has_id j) rows)
find-keep-not i j [] = ground arith
find-keep-not i j (r ∷ rows) = ground (arith, find-keep-not i j rows)

-- A failed attempt at row `i`, for every row `j` of the table: another row is left as it is; row `i`
-- goes if the attempt was its last, and else waits for the delay of the new count.
pub mark_failed_row :
    (i j n : ℕ) (now : DateTime) (q : EventQueue)
    → find (has_id j) (mark_failed i n now q).rows ≡ (
        if i == j
        then (if leb max_attempts (n + 1)
            then none
            else Option.map
                (retried (n + 1) (now + backoff_delay (n + 1)))
                (find (has_id j) q.rows))
        else find (has_id j) q.rows)
unfolding mark_failed
mark_failed_row i j n now q = ground (
  arith,
  find-keep-not i j q.rows,
  find-map-reschedule i j (n + 1) (now + backoff_delay (n + 1)) q.rows,
)

-- A failure of the row with an id, reported with the count that the row has, as a delivery does.
unfoldable pub fail_once : ℕ → DateTime → EventQueue → EventQueue
fail_once id now q = elim (find (has_id id) q.rows) [
  | none ↦ q
  | some r ↦ mark_failed id r.attempt_count now q
]

unfoldable pub fail_each : ℕ → List DateTime → EventQueue → EventQueue
fail_each id [] q = q
fail_each id (now ∷ times) q = fail_each id times (fail_once id now q)

abbrev count_of : Option Row → Option ℕ
count_of o = Option.map (λ r. r.attempt_count) o

fail_once_count :
    (id : ℕ) (now : DateTime) (q : EventQueue)
    → count_of (find (has_id id) (fail_once id now q).rows)
      ≡ elim (count_of (find (has_id id) q.rows)) [
        | none ↦ none
        | some n ↦ if leb max_attempts (n + 1) then none else some (n + 1)
      ]
unfolding fail_once
fail_once_count id now q = elim (Option-cases (find (has_id id) q.rows)) [
  | inl e ↦ ground (arith, e)
  | inr (r, e) ↦ ground (arith, e, mark_failed_row id id r.attempt_count now q)
]

-- How many failures the table shows for an id, if it still has the row.
abbrev pub attempts : ℕ → EventQueue → Option ℕ
attempts id q = Option.map (λ r. r.attempt_count) (find (has_id id) q.rows)

fail_each-none :
    (id : ℕ) (times : List DateTime) (q : EventQueue)
    → attempts id q ≡ none
    → attempts id (fail_each id times q) ≡ none
unfolding fail_each
fail_each-none id [] q h = h
fail_each-none id (now ∷ times) q h =
    fail_each-none id times (fail_once id now q) (ground (arith, fail_once_count id now q))

-- A row with `n` failures that fails again and again, whenever that is: it is kept, with each
-- failure counted, while the count stays below `max_attempts`, and is gone once it gets there.
pub attempts-fail_each :
    (id n : ℕ) (times : List DateTime) (q : EventQueue)
    → attempts id q ≡ some n
    → n < max_attempts
    → attempts id (fail_each id times q)
      ≡ (if ltb (n + length times) max_attempts then some (n + length times) else none)
unfolding fail_each
attempts-fail_each id n [] q h lt = ground arith
attempts-fail_each id n (now ∷ times) q h lt = elim (Bool-cases (leb max_attempts (n + 1))) [
  | inl spent ↦
      fail_each-none id times (fail_once id now q) (ground (arith, fail_once_count id now q))
      ∙ ground arith
  | inr left ↦
      attempts-fail_each id (n + 1) times (fail_once id now q)
        (ground (arith, fail_once_count id now q)) (ground arith)
      ∙ ground arith
]
