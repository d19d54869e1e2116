-- ===== src/Agent/Networking.antt =====
-- agent/src/agent.rs: what the networking loops do with each answer of the controller.
use timelord.Prelude.{ℕ, Bool, true, Option, none, some, List, [], ◌∷◌, String, map, if◌then◌else◌}
use timelord.Prelude.Result.{Result, ok, err}
use timelord.Prelude.Time.{DateTime, Uuid}
use timelord.Protocol.{
  AgentMessage, RegisterResponse, HeartbeatResponse, EventSubmissionRequest,
  EventSubmissionResponse, EventResult, EventResultStatus,
}
use timelord.Queue.{
  PendingDelivery, EventQueue, to_event_item, due_batch, mark_delivered, mark_failed,
}
use timelord.Events.{registration_succeeded, registration_failed, heartbeat_sent}
use timelord.Schedule.{Schedule}
use timelord.Client.{ClientError, is_device_not_found, to_string}
use timelord.Agent.{
  Agent, Report, apply_schedule, mark_schedule_synced, apply_messages, request_flush, enqueue,
  note_connected, note_disconnected,
}

abbrev pub event_batch_size : ℕ
event_batch_size = 100

-- One answer to `client.register`, with what the reaction to it needs.
pub record Registration : Type 0 where
  pub answer : Result ClientError RegisterResponse
  pub report : Report
  pub save_fails : Bool

unfoldable pub registered : Registration → RegisterResponse → Agent → Agent
registered x response a =
    let a1 = enqueue x.report (registration_succeeded x.report.stamp response.device_id) a in
    let a2 = record a1 { connected = true } in
    request_flush (mark_schedule_synced (apply_schedule x.save_fails response.schedule a2))

unfoldable pub not_registered : Registration → ClientError → Agent → Agent
not_registered x e a = enqueue x.report (registration_failed x.report.stamp (to_string e)) a

-- The loop of `register` along the answers that it gets: the id of the first success, or none while
-- all have failed.
unfoldable pub register : List Registration → Agent → Option Uuid × Agent
register [] a = (none, a)
register (x ∷ xs) a =
    let again = register xs (elim x.answer [ ok r ↦ a | err e ↦ not_registered x e a ]) in
    elim x.answer [ ok r ↦ (some r.device_id, registered x r a) | err e ↦ again ]

-- One round of `heartbeat_loop` after its request was answered.
pub record Heartbeat : Type 0 where
  pub answer : Result ClientError HeartbeatResponse
  pub url : String
  pub connection : Report
  pub save_fails : Bool
  pub sent : Report
  pub registrations : List Registration

unfoldable pub heartbeat_answered : Heartbeat → Result ClientError HeartbeatResponse → Agent → Agent
heartbeat_answered x (ok response) a =
    let a1 = note_connected x.connection x.url a in
    let a2 = mark_schedule_synced (apply_schedule x.save_fails response.schedule a1) in
    enqueue x.sent (heartbeat_sent x.sent.stamp) a2
heartbeat_answered x (err e) a =
    if is_device_not_found e
    then (register x.registrations
        (note_disconnected x.connection "device not found; re-registering" a)).1
    else note_disconnected x.connection (to_string e) a

unfoldable pub heartbeat : Heartbeat → Agent → Agent
heartbeat x a = heartbeat_answered x x.answer a

-- One round of `schedule_poll_loop`, and of `message_poll_loop`.
unfoldable pub schedule_poll : Result ClientError (Option Schedule) → Bool → Agent → Agent
schedule_poll (ok schedule) save_fails a =
    mark_schedule_synced (apply_schedule save_fails schedule a)
schedule_poll (err e) save_fails a = a

unfoldable pub message_poll :
    Result ClientError (List AgentMessage) → Bool → DateTime → Agent → Agent
message_poll (ok incoming) save_fails system a = apply_messages save_fails system incoming a
message_poll (err e) save_fails system a = a

-- `deliver_due_batch` in its two halves, since the queue is not locked between them.
unfoldable pub take_batch : DateTime → Bool → Agent → List PendingDelivery
take_batch now fails a = if fails then [] else due_batch now event_batch_size a.queue

unfoldable pub submission : List PendingDelivery → EventSubmissionRequest
submission pending = record { events = map (λ p. to_event_item p.event) pending }

-- For each row: whether the statement on it fails, and the reading of `Utc::now()` before it.
pub record Writes : Type 0 where
  pub fails : ℕ → Bool
  pub now : ℕ → DateTime

unfoldable pub fail : Writes → PendingDelivery → EventQueue → EventQueue
fail w d q = if w.fails d.row_id then q else mark_failed d.row_id d.attempt_count (w.now d.row_id) q

unfoldable pub settle_one : Writes → PendingDelivery → EventResultStatus → EventQueue → EventQueue
settle_one w d EventResultStatus.accepted q =
    if w.fails d.row_id then q else mark_delivered d.row_id q
settle_one w d EventResultStatus.duplicate q =
    if w.fails d.row_id then q else mark_delivered d.row_id q
settle_one w d EventResultStatus.rejected q = fail w d q

-- The loop over `pending.iter().zip(results.iter())`, and the loop after a failed submission.
unfoldable pub settle : Writes → List PendingDelivery → List EventResult → EventQueue → EventQueue
settle w [] results q = q
settle w (d ∷ pending) [] q = q
settle w (d ∷ pending) (r ∷ results) q = settle w pending results (settle_one w d r.status q)

unfoldable pub fail_all : Writes → List PendingDelivery → EventQueue → EventQueue
fail_all w [] q = q
fail_all w (d ∷ pending) q = fail_all w pending (fail w d q)

unfoldable pub finish_delivery :
    Writes
    → Report
    → String
    → List PendingDelivery
    → Result ClientError EventSubmissionResponse
    → Agent
    → Agent
finish_delivery w r url pending (ok response) a =
    let a1 = note_connected r url a in
    record a1 { queue = settle w pending response.results a1.queue }
finish_delivery w r url pending (err e) a =
    let a1 = note_disconnected r (to_string e) a in
    record a1 { queue = fail_all w pending a1.queue }

-- An empty batch sends nothing.
unfoldable pub send_batch :
    Writes
    → Report
    → String
    → (EventSubmissionRequest → Result ClientError EventSubmissionResponse)
    → List PendingDelivery
    → Agent
    → Agent
send_batch w r url submit_events [] a = a
send_batch w r url submit_events (d ∷ rest) a =
    finish_delivery w r url (d ∷ rest) (submit_events (submission (d ∷ rest))) a

-- The whole call with nothing in between.
unfoldable pub deliver_due_batch :
    DateTime
    → Bool
    → Writes
    → Report
    → String
    → (EventSubmissionRequest → Result ClientError EventSubmissionResponse)
    → Agent
    → Agent
unfolding send_batch take_batch
deliver_due_batch now fails w r url submit_events a =
    send_batch w r url submit_events (take_batch now fails a) a
