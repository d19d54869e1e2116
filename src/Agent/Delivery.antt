-- ===== src/Agent/Delivery.antt =====
-- What a delivery does to the queue, row by row.
use mathlib.Core.Option.{bind}
use timelord.Prelude.{
  ℕ, ◌+◌, ◌≡◌, ◌≢◌, refl, sym, ap, ◌∙◌, Bool, true, false, not, Option, none, some, List, [], ◌∷◌,
  All, All-map, Pairwise, take-Pairwise, Pairwise-keep, Pairwise-map, arith, leb, Bool-cases, inl,
  inr, if◌then◌else◌,
}
use timelord.Prelude.FilterMap.{
  filter_map, filter_map-same, filter_map-some, filter_map-filter_map, keep-filter_map,
  map-filter_map,
}
use timelord.Prelude.Sort.{sort_by_key-Pairwise}
use timelord.Prelude.Time.{DateTime}
use timelord.Protocol.{EventResult, EventResultStatus}
use timelord.Queue.{
  PendingDelivery, EventQueue, Row, max_attempts, has_id, to_delivery, is_due, due_rows, due_batch,
  mark_delivered, mark_failed, backoff_delay, retried, reschedule,
}
use timelord.Queue.Identity.{AreDistinct, AreDistinct-sym, IsWellFormed}
use timelord.Agent.Networking.{Writes, fail, settle_one, settle, fail_all}

-- A failed attempt at a row: the row is dropped at the 48th, and else waits for the next.
abbrev pub after_failure : Writes → PendingDelivery → Row → Option Row
after_failure w d r =
    if leb max_attempts (d.attempt_count + 1)
    then none
    else some
        (retried (d.attempt_count + 1) (w.now d.row_id + backoff_delay (d.attempt_count + 1)) r)

-- A result for a row. If the statement fails the row stays.
abbrev pub after_result : Writes → PendingDelivery → EventResultStatus → Row → Option Row
after_result w d EventResultStatus.accepted r = if w.fails d.row_id then some r else none
after_result w d EventResultStatus.duplicate r = if w.fails d.row_id then some r else none
after_result w d EventResultStatus.rejected r =
    if w.fails d.row_id then some r else after_failure w d r

-- What becomes of a row: the result at the place of its delivery in the batch decides, and a row
-- without a delivery or without a result stays.
abbrev pub fate : Writes → List PendingDelivery → List EventResult → Row → Option Row
fate w [] results r = some r
fate w (d ∷ pending) [] r = some r
fate w (d ∷ pending) (x ∷ results) r =
    let later = fate w pending results r in
    if has_id d.row_id r then after_result w d x.status r else later

-- One result, for every row.
abbrev one_fate : Writes → PendingDelivery → EventResultStatus → Row → Option Row
one_fate w d status r = if has_id d.row_id r then after_result w d status r else some r

mark_delivered_rows :
    (d : PendingDelivery) (q : EventQueue)
    → (mark_delivered d.row_id q).rows
      ≡ filter_map (λ r. if has_id d.row_id r then none else some r) q.rows
unfolding mark_delivered
mark_delivered_rows d q =
    keep-filter_map (λ r. not (has_id d.row_id r)) q.rows
    ∙ filter_map-same _ _ (λ r. ground arith) q.rows

mark_failed_rows :
    (w : Writes) (d : PendingDelivery) (q : EventQueue)
    → (mark_failed d.row_id d.attempt_count (w.now d.row_id) q).rows
      ≡ filter_map (λ r. if has_id d.row_id r then after_failure w d r else some r) q.rows
unfolding mark_failed
mark_failed_rows w d q = elim (Bool-cases (leb max_attempts (d.attempt_count + 1))) [
  | inl last ↦ rw last (mark_delivered_rows d q)
  | inr more ↦
      let at = w.now d.row_id + backoff_delay (d.attempt_count + 1) in
      rw more (
        map-filter_map (reschedule d.row_id (d.attempt_count + 1) at) q.rows
        ∙ filter_map-same (λ r. some (reschedule d.row_id (d.attempt_count + 1) at r))
            (λ r. if has_id d.row_id r then some (retried (d.attempt_count + 1) at r) else some r)
            (λ r. elim (Bool-cases (has_id d.row_id r)) [ inl e ↦ rw e refl | inr e ↦ rw e refl ])
            q.rows)
]

same_either_way : (b : Bool) (r : Row) → (if b then some r else some r) ≡ some r
same_either_way true r = refl
same_either_way false r = refl

unchanged :
    (id : ℕ) (rows : List Row)
    → rows ≡ filter_map (λ r. if has_id id r then some r else some r) rows
unchanged id rows = sym (
    filter_map-same (λ r. if has_id id r then some r else some r) (λ r. some r)
      (λ r. same_either_way (has_id id r) r) rows
    ∙ filter_map-some rows)

delivered_rows :
    (fails : Bool) (d : PendingDelivery) (q : EventQueue)
    → (if fails then q else mark_delivered d.row_id q).rows
      ≡ filter_map
          (λ r. if has_id d.row_id r then (if fails then some r else none) else some r)
          q.rows
delivered_rows true d q = unchanged d.row_id q.rows
delivered_rows false d q = mark_delivered_rows d q

failed_rows :
    (w : Writes) (fails : Bool) (d : PendingDelivery) (q : EventQueue)
    → (if fails then q else mark_failed d.row_id d.attempt_count (w.now d.row_id) q).rows
      ≡ filter_map
          (λ r.
            if has_id d.row_id r then (if fails then some r else after_failure w d r) else some r)
          q.rows
failed_rows w true d q = unchanged d.row_id q.rows
failed_rows w false d q = mark_failed_rows w d q

settle_one_rows :
    (w : Writes) (d : PendingDelivery) (status : EventResultStatus) (q : EventQueue)
    → (settle_one w d status q).rows ≡ filter_map (one_fate w d status) q.rows
unfolding settle_one fail
settle_one_rows w d EventResultStatus.accepted q = delivered_rows (w.fails d.row_id) d q
settle_one_rows w d EventResultStatus.duplicate q = delivered_rows (w.fails d.row_id) d q
settle_one_rows w d EventResultStatus.rejected q = failed_rows w (w.fails d.row_id) d q

-- A batch names no row twice.
abbrev pub IsBatchOfRows : List PendingDelivery → Type 0
IsBatchOfRows pending = Pairwise (λ d e. d.row_id ≢ e.row_id) pending

untouched :
    (w : Writes) (pending : List PendingDelivery) (results : List EventResult) (r : Row)
    → All (λ d. r.id ≢ d.row_id) pending
    → fate w pending results r ≡ some r
untouched w [] results r h = refl
untouched w (d ∷ pending) [] r h = refl
untouched w (d ∷ pending) (x ∷ results) r h =
    let other : has_id d.row_id r ≡ false = ground (arith, h.0) in
    rw other (untouched w pending results r h.1)

-- Later results leave what a result made of its row.
module _ (w : Writes) (d : PendingDelivery) (pending : List PendingDelivery)
    (results : List EventResult) (r : Row) (apart : All (λ e. d.row_id ≢ e.row_id) pending)
    (own : r.id ≡ d.row_id) where
  stays_as : (s : Row) → s.id ≡ r.id → fate w pending results s ≡ some s
  stays_as s e =
      untouched w pending results s (All-map (λ x n k. n (sym own ∙ sym e ∙ k)) pending apart)

  failure_keeps : bind (after_failure w d r) (fate w pending results) ≡ after_failure w d r
  unfolding bind
  failure_keeps = elim (Bool-cases (leb max_attempts (d.attempt_count + 1))) [
    | inl last ↦ rw last refl
    | inr more ↦ rw more (
        stays_as
          (retried (d.attempt_count + 1) (w.now d.row_id + backoff_delay (d.attempt_count + 1)) r)
          refl)
  ]

  guarded_keeps :
      (fails : Bool) (o : Option Row)
      → bind o (fate w pending results) ≡ o
      → bind (if fails then some r else o) (fate w pending results) ≡ (if fails then some r else o)
  unfolding bind
  guarded_keeps true o h = stays_as r refl
  guarded_keeps false o h = h

  result_keeps :
      (status : EventResultStatus)
      → bind (after_result w d status r) (fate w pending results) ≡ after_result w d status r
  unfolding bind
  result_keeps EventResultStatus.accepted = guarded_keeps (w.fails d.row_id) none refl
  result_keeps EventResultStatus.duplicate = guarded_keeps (w.fails d.row_id) none refl
  result_keeps EventResultStatus.rejected =
      guarded_keeps (w.fails d.row_id) (after_failure w d r) failure_keeps

fate_step :
    (w : Writes) (d : PendingDelivery) (x : EventResult) (pending : List PendingDelivery)
    (results : List EventResult)
    → All (λ e. d.row_id ≢ e.row_id) pending
    → (r : Row)
    → bind (one_fate w d x.status r) (fate w pending results) ≡ fate w (d ∷ pending) (x ∷ results) r
unfolding bind
fate_step w d x pending results apart r = elim (Bool-cases (has_id d.row_id r)) [
  | inl own ↦ rw own (result_keeps w d pending results r apart (ground arith) x.status)
  | inr other ↦ rw other refl
]

-- The loop over the results does to each row what the result at its place in the batch says: the row
-- goes at `accepted` and `duplicate`, and at a 48th failure; another failure counts and puts it off;
-- every other row stays as it is, also one whose result is missing or whose statement fails.
pub settle_rows :
    (w : Writes) (pending : List PendingDelivery) (results : List EventResult) (q : EventQueue)
    → IsBatchOfRows pending
    → (settle w pending results q).rows ≡ filter_map (fate w pending results) q.rows
unfolding settle
settle_rows w [] results q h = sym (filter_map-some q.rows)
settle_rows w (d ∷ pending) [] q h = sym (filter_map-some q.rows)
settle_rows w (d ∷ pending) (x ∷ results) q h =
    settle_rows w pending results (settle_one w d x.status q) h.1
    ∙ ap (filter_map (fate w pending results)) (settle_one_rows w d x.status q)
    ∙ filter_map-filter_map (one_fate w d x.status) (fate w pending results) q.rows
    ∙ filter_map-same (λ r. bind (one_fate w d x.status r) (fate w pending results))
        (fate w (d ∷ pending) (x ∷ results)) (fate_step w d x pending results h.0) q.rows

-- The batches that the queue hands out name no row twice.
pub due_batch-IsBatchOfRows :
    (now : DateTime) (limit : ℕ) (q : EventQueue)
    → IsWellFormed q
    → IsBatchOfRows (due_batch now limit q)
unfolding due_batch due_rows
due_batch-IsBatchOfRows now limit q w =
    Pairwise-map AreDistinct (λ d e. d.row_id ≢ e.row_id) to_delivery (λ r s d. d.ids) _
      (take-Pairwise AreDistinct limit _ (
        sort_by_key-Pairwise (λ r. r.created_at) AreDistinct AreDistinct-sym _
          (Pairwise-keep AreDistinct (is_due now) q.rows w.distinct)))

-- A rejection of every event of a batch.
abbrev pub rejections : List PendingDelivery → List EventResult
rejections [] = []
rejections (d ∷ pending) =
    record { event_id = d.event.event_id; status = EventResultStatus.rejected; reason = none }
    ∷ rejections pending

-- A submission that fails as a whole leaves the queue as one that was rejected event by event.
pub fail_all-settle :
    (w : Writes) (pending : List PendingDelivery) (q : EventQueue)
    → fail_all w pending q ≡ settle w pending (rejections pending) q
unfolding fail_all settle settle_one
fail_all-settle w [] q = refl
fail_all-settle w (d ∷ pending) q = fail_all-settle w pending (fail w d q)
