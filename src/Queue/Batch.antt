-- ===== src/Queue/Batch.antt =====
-- What `due_batch` hands out.
use timelord.Prelude.{
  ℕ, ◌≤◌, ◌≡◌, sym, ap, ◌∙◌, List, ◌++◌, keep, drop, All, length, min, All-map, All-take, keep-All,
  Pairwise-take, take-Pairwise, length-take, take-append-drop, leb→le,
}
use timelord.Prelude.Sort.{
  sort_by_key, sort_by_key-IsSorted, All-sort_by_key, length-sort_by_key, IsSorted,
}
use timelord.Prelude.Time.{DateTime}
use timelord.Queue.{Row, EventQueue, is_due, due_rows}

-- What a batch of rows for `now` holds.
pub record IsBatch (now : DateTime) (limit : ℕ) (q : EventQueue) (rows : List Row) : Type 0 where
  pub all_due : All (λ r. r.next_attempt_at ≤ now) rows
  pub oldest_first : IsSorted (λ r. r.created_at) rows
  pub size : length rows ≡ min limit (length (keep (is_due now) q.rows))
  pub rest_newer :
      (later : List Row) × (sort_by_key (λ r. r.created_at) (keep (is_due now) q.rows)
        ≡ rows ++ later)
      × All (λ r. All (λ s. r.created_at ≤ s.created_at) later) rows

module _ (now : DateTime) (limit : ℕ) (q : EventQueue) where
  abbrev all_due_rows : List Row
  all_due_rows = keep (is_due now) q.rows

  -- The rows of a batch are due, come oldest first, are as many as the limit allows, and none of
  -- the due rows that are left behind is older than one that is handed out.
  pub due_rows-IsBatch : IsBatch now limit q (due_rows now limit q)
  unfolding due_rows
  due_rows-IsBatch =
      let sorted = sort_by_key (λ r. r.created_at) all_due_rows in
      let in_order = sort_by_key-IsSorted (λ r. r.created_at) all_due_rows in
      record {
        all_due = All-take _ limit sorted (
            All-sort_by_key (λ r. r.created_at) _ all_due_rows
              (All-map (λ r h. leb→le r.next_attempt_at now h) all_due_rows
                (keep-All (is_due now) q.rows)));
        oldest_first = take-Pairwise _ limit sorted in_order;
        size =
            length-take limit sorted
            ∙ ap (min limit) (length-sort_by_key (λ r. r.created_at) all_due_rows);
        rest_newer = (
          drop limit sorted,
          sym (take-append-drop limit sorted),
          Pairwise-take _ limit sorted in_order,
        );
      }
