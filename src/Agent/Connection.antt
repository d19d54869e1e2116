-- ===== src/Agent/Connection.antt =====
-- The events of the connection: one for each edge, however often the calls fail or succeed.
use timelord.Prelude.{
  ◌≡◌, refl, ap, ◌∙◌, Bool, true, false, not, List, [], ◌∷◌, String, arith, Bool-cases, inl, inr,
  if◌then◌else◌,
}
use timelord.Queue.{EventQueue, try_enqueue}
use timelord.Events.{controller_connected, controller_disconnected}
use timelord.Agent.{Agent, Report, note_connected, note_disconnected, enqueue, request_flush}

-- A call that the controller answered at a URL, or that failed with a reason.
pub data Call : Type 0 where
  answered : Report → String → Call
  failed : Report → String → Call

unfoldable pub note : Call → Agent → Agent
note (answered r url) a = note_connected r url a
note (failed r reason) a = note_disconnected r reason a

unfoldable pub note_each : List Call → Agent → Agent
note_each [] a = a
note_each (c ∷ calls) a = note_each calls (note c a)

abbrev pub succeeded : Call → Bool
succeeded (answered r url) = true
succeeded (failed r reason) = false

-- The calls whose outcome differs from that of the call before them, with the event that each adds to
-- the queue.
abbrev pub edge : Call → EventQueue → EventQueue
edge (answered r url) q = (try_enqueue r.fault (controller_connected r.stamp url) r.now q).1
edge (failed r reason) q = (try_enqueue r.fault (controller_disconnected r.stamp reason) r.now q).1

abbrev pub same_outcome : Bool → Bool → Bool
same_outcome true b = b
same_outcome false b = not b

abbrev pub edges : Bool → List Call → EventQueue → EventQueue
edges up [] q = q
edges up (c ∷ calls) q =
    edges (succeeded c) calls (if same_outcome up (succeeded c) then q else edge c q)

note-queue :
    (c : Call) (a : Agent)
    → (note c a).queue
      ≡ (if same_outcome a.connected (succeeded c) then a.queue else edge c a.queue)
unfolding note note_connected note_disconnected enqueue request_flush
note-queue (answered r url) a = ground arith
note-queue (failed r reason) a = ground arith

note-connected : (c : Call) (a : Agent) → (note c a).connected ≡ succeeded c
unfolding note note_connected note_disconnected enqueue request_flush
note-connected (answered r url) a = elim (Bool-cases a.connected) [
  | inl up ↦ rw up refl
  | inr down ↦ rw down refl
]
note-connected (failed r reason) a = elim (Bool-cases a.connected) [
  | inl up ↦ rw up refl
  | inr down ↦ rw down refl
]

-- A run of calls reports exactly its edges: a connection when an answer follows a failure, and a
-- disconnection when a failure follows an answer.
pub edges_reported :
    (calls : List Call) (a : Agent) → (note_each calls a).queue ≡ edges a.connected calls a.queue
unfolding note_each
edges_reported [] a = refl
edges_reported (c ∷ calls) a =
    edges_reported calls (note c a)
    ∙ ap (λ b. edges b calls (note c a).queue) (note-connected c a)
    ∙ ap (edges (succeeded c) calls) (note-queue c a)
