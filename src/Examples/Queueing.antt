-- ===== src/Examples/Queueing.antt =====
-- The theorems on the event queue, applied.
use timelord.Prelude.{
  ℕ, ◌+◌, ◌≡◌, refl, none, some, [], ◌∷◌, any, length, min, ltb, arith, if◌then◌else◌,
}
use timelord.Queue.{max_attempts, max_queue_size, has_event, enqueue, len}
use timelord.Queue.Identity.{IsWellFormed}
use timelord.Queue.Backoff.{attempts, fail_each, attempts-fail_each}
use timelord.Queue.Capacity.{enqueue-len}
use timelord.Examples.{two_rows, event_numbered}

pub two_rows-IsWellFormed : IsWellFormed two_rows
two_rows-IsWellFormed = record {
  distinct = (
    (
      record { ids = λ e. absurd (ground (arith, e)); events = λ e. absurd (ground (arith, e)) },
      tt,
    ),
    (tt, tt),
  );
  live = (
    record { id_given = omega arith; attempts_left = omega arith },
    (record { id_given = omega arith; attempts_left = omega arith }, tt),
  );
}

attempts-fail_each_example : attempts 2 (fail_each 2 (60 ∷ []) two_rows) ≡ (
    if ltb (47 + length {A = ℕ} (60 ∷ [])) max_attempts
    then some (47 + length {A = ℕ} (60 ∷ []))
    else none)
attempts-fail_each_example = attempts-fail_each 2 47 (60 ∷ []) two_rows refl (omega arith)

enqueue-len_example :
    len (enqueue (event_numbered 9) 50 two_rows)
    ≡ min max_queue_size
        (if any (has_event 9) two_rows.rows then len two_rows else len two_rows + 1)
enqueue-len_example = enqueue-len (event_numbered 9) 50 two_rows two_rows-IsWellFormed
