-- ===== src/Agent/LastDelivery.antt =====
-- A delivery that the controller accepts as a whole, such as the last one of a stop.
use timelord.Prelude.{
  ℕ, zero, suc, ◌≤◌, ◌≡◌, ◌≢◌, refl, ap, ◌∙◌, Bool, true, false, Option, none, List, [], ◌∷◌, any,
  any-map, keep_everything, take, length, length-map, All, All-map, arith, Bool-cases, inl, inr,
  String,
}
use timelord.Prelude.FilterMap.{filter_map}
use timelord.Prelude.Result.{Result, ok}
use timelord.Prelude.Sort.{sort_by_key, any-sort_by_key, length-sort_by_key}
use timelord.Prelude.Time.{DateTime, Uuid}
use timelord.Protocol.{
  EventResult, EventResultStatus, EventSubmissionRequest, EventSubmissionResponse,
}
use timelord.Queue.{
  PendingDelivery, EventQueue, Row, has_id, is_due, to_delivery, due_batch, due_rows,
}
use timelord.Queue.Identity.{IsWellFormed}
use timelord.Client
use timelord.Client.{ClientError, HttpRequest, HttpResponse}
use timelord.Agent.{Agent, Report, note_connected}
use timelord.Agent.Networking.{
  Writes, settle, submission, send_batch, finish_delivery, deliver_due_batch, take_batch,
  event_batch_size,
}
use timelord.Agent.Delivery.{after_result, fate, settle_rows, due_batch-IsBatchOfRows}
use timelord.Agent.Loops.{
  Connection, Delivery, Wake, ticked, flushed, shut_down, take_flush, deliver, delivery_turn,
}

abbrev pub IsTaken : EventResult → Type 0
IsTaken x = x.status ≢ EventResultStatus.rejected

take_everything : {A : Type 0} → (n : ℕ) (xs : List A) → length xs ≤ n → take n xs ≡ xs
take_everything zero [] h = refl
take_everything (suc n) [] h = refl
take_everything zero (x ∷ xs) h = absurd (omega (arith, h))
take_everything (suc n) (x ∷ xs) h = ap (λ l. x ∷ l) (take_everything n xs (omega (arith, h)))

taken_gone :
    (w : Writes) (d : PendingDelivery) (s : EventResultStatus) (r : Row)
    → s ≢ EventResultStatus.rejected
    → w.fails d.row_id ≡ false
    → after_result w d s r ≡ none
taken_gone w d EventResultStatus.accepted r h k = rw k refl
taken_gone w d EventResultStatus.duplicate r h k = rw k refl
taken_gone w d EventResultStatus.rejected r h k = absurd (h refl)

abbrev is_for : Row → PendingDelivery → Bool
is_for r d = has_id d.row_id r

fate_gone :
    (w : Writes) (pending : List PendingDelivery) (results : List EventResult) (r : Row)
    → ((id : ℕ) → w.fails id ≡ false)
    → All IsTaken results
    → length pending ≤ length results
    → any (is_for r) pending ≡ true
    → fate w pending results r ≡ none
fate_gone w [] results r h t l k = absurd (ground (arith, k))
fate_gone w (d ∷ pending) [] r h t l k = absurd (omega (arith, l))
fate_gone w (d ∷ pending) (x ∷ results) r h t l k = elim (Bool-cases (has_id d.row_id r)) [
  | inl own ↦ rw own (taken_gone w d x.status r t.0 (h d.row_id))
  | inr other ↦
      rw other (fate_gone w pending results r h t.1 (omega (arith, l)) (ground (arith, k, other)))
]

all_gone :
    (f : Row → Option Row) (rows : List Row) → All (λ r. f r ≡ none) rows → filter_map f rows ≡ []
all_gone f [] h = refl
all_gone f (r ∷ rows) h = rw (h.0) (all_gone f rows h.1)

-- Every row of a list is one of them.
all_in : (rows : List Row) → All (λ r. any (λ s. has_id s.id r) rows ≡ true) rows
all_in [] = tt
all_in (x ∷ rows) = (ground arith, All-map (λ r k. ground (arith, k)) rows (all_in rows))

-- A queue whose rows are all due, and fit into one batch.
module _ (now : DateTime) (q : EventQueue) (due : All (λ r. r.next_attempt_at ≤ now) q.rows)
    (few : length q.rows ≤ event_batch_size) where
  everything_due : due_rows now event_batch_size q ≡ sort_by_key (λ r. r.created_at) q.rows
  unfolding due_rows
  everything_due =
      ap (λ rows. take event_batch_size (sort_by_key (λ r. r.created_at) rows))
        (keep_everything (is_due now) q.rows (All-map (λ r k. ground (arith, k)) q.rows due))
      ∙ take_everything event_batch_size (sort_by_key (λ r. r.created_at) q.rows)
          (omega (arith, few, length-sort_by_key (λ r. r.created_at) q.rows))

  length-batch : length (due_batch now event_batch_size q) ≡ length q.rows
  unfolding due_batch
  length-batch =
      length-map to_delivery (due_rows now event_batch_size q)
      ∙ ap (λ rows. length rows) everything_due
      ∙ length-sort_by_key (λ r. r.created_at) q.rows

  in_batch :
      (r : Row)
      → any (is_for r) (due_batch now event_batch_size q) ≡ any (λ s. has_id s.id r) q.rows
  unfolding due_batch
  in_batch r =
      any-map (is_for r) to_delivery (due_rows now event_batch_size q)
      ∙ ap (any (λ s. has_id s.id r)) everything_due
      ∙ any-sort_by_key (λ r. r.created_at) (λ s. has_id s.id r) q.rows

  settled_empty :
      (w : Writes) (results : List EventResult)
      → ((id : ℕ) → w.fails id ≡ false)
      → All IsTaken results
      → length q.rows ≤ length results
      → IsWellFormed q
      → (settle w (due_batch now event_batch_size q) results q).rows ≡ []
  settled_empty w results h t l good =
      let pending = due_batch now event_batch_size q in
      settle_rows w pending results q (due_batch-IsBatchOfRows now event_batch_size q good)
      ∙ all_gone (fate w pending results) q.rows (
          All-map
            (λ r k.
              fate_gone w pending results r h t (omega (arith, l, length-batch)) (in_batch r ∙ k))
            q.rows (all_in q.rows))

connected-queue :
    (r : Report) (url : String) (a : Agent)
    → a.connected ≡ true
    → (note_connected r url a).queue ≡ a.queue
unfolding note_connected
connected-queue r url a h = rw h refl

sent-queue :
    (w : Writes) (r : Report) (url : String)
    (submit_events : EventSubmissionRequest → Result ClientError EventSubmissionResponse)
    (pending : List PendingDelivery) (response : EventSubmissionResponse) (a : Agent)
    → a.connected ≡ true
    → submit_events (submission pending) ≡ ok response
    → (send_batch w r url submit_events pending a).queue ≡ settle w pending response.results a.queue
unfolding send_batch settle finish_delivery
sent-queue w r url submit_events [] response a c h = refl
sent-queue w r url submit_events (d ∷ rest) response a c h =
    ap (λ answer. (finish_delivery w r url (d ∷ rest) answer a).queue) h
    ∙ ap (settle w (d ∷ rest) response.results) (connected-queue r url a c)

flush-queue : (wake : Wake) (a : Agent) → (take_flush wake a).queue ≡ a.queue
unfolding take_flush
flush-queue ticked a = refl
flush-queue flushed a = refl
flush-queue shut_down a = refl

flush-connected : (wake : Wake) (a : Agent) → (take_flush wake a).connected ≡ a.connected
unfolding take_flush
flush-connected ticked a = refl
flush-connected flushed a = refl
flush-connected shut_down a = refl

batch_taken :
    (now : DateTime) (fails : Bool) (a : Agent)
    → fails ≡ false
    → take_batch now fails a ≡ due_batch now event_batch_size a.queue
unfolding take_batch
batch_taken now fails a h = rw h refl

-- Nothing is left behind: if the rows of the queue are all due and fit into one batch, and the
-- controller, already connected, answers for each of them and rejects none, then any turn of the
-- delivery loop, the last one included, leaves the queue empty, when SQLite does not fail.
pub nothing_left :
    (print : Uuid → String)
    (send : HttpRequest → Result String (HttpResponse EventSubmissionResponse)) (wake : Wake)
    (d : Delivery) (c : Connection) (a : Agent) (response : EventSubmissionResponse)
    → a.connected ≡ true
    → d.read_fails ≡ false
    → ((id : ℕ) → d.writes.fails id ≡ false)
    → IsWellFormed a.queue
    → All (λ r. r.next_attempt_at ≤ d.now) a.queue.rows
    → length a.queue.rows ≤ event_batch_size
    → Client.submit_events print send c.device_id
        (submission (due_batch d.now event_batch_size a.queue))
        c.client
      ≡ ok response
    → All IsTaken response.results
    → length a.queue.rows ≤ length response.results
    → (delivery_turn print send wake d c a).1.queue.rows ≡ []
unfolding delivery_turn deliver deliver_due_batch
nothing_left print send wake d c a response connected readable writable good due few answered taken
      enough =
    let submit = λ (request : EventSubmissionRequest).
      Client.submit_events print send c.device_id request c.client in
    let b = take_flush wake a in
    let same = flush-queue wake a in
    let batch =
      batch_taken d.now d.read_fails b readable ∙ ap (due_batch d.now event_batch_size) same in
    ap (λ pending. (send_batch d.writes d.report c.client.base_url submit pending b).queue.rows)
      batch
    ∙ ap (λ q. q.rows)
        (sent-queue d.writes d.report c.client.base_url submit
            (due_batch d.now event_batch_size a.queue) response b
            (flush-connected wake a ∙ connected) answered
          ∙ ap (settle d.writes (due_batch d.now event_batch_size a.queue) response.results) same)
    ∙ settled_empty d.now a.queue due few d.writes response.results writable taken enough good
