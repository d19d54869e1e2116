-- ===== src/Commands/TestEvent.antt =====
-- The event of `test-event` in agent/src/main.rs, on its way through the queue.
use timelord.Prelude.{
  ◌<◌, ◌≡◌, ◌≢◌, refl, sym, ap, ◌∙◌, Bool, true, false, Option, none, some, List, [], ◌∷◌, String,
  any, any-append, length, arith,
}
use timelord.Prelude.Result.{Result, ok, err}
use timelord.Prelude.Time.{Uuid}
use timelord.Protocol.{EventSubmissionResponse, EventResult, EventResultStatus, RegisterResponse}
use timelord.Queue.{EventQueue, has_event, no_fault, max_queue_size, try_enqueue}
use timelord.Queue.Capacity.{appended, enqueue_room}
use timelord.Config.{AgentConfig, ConfigFile, Loading, load, no_overrides}
use timelord.Client
use timelord.Client.{ClientError, ControllerClient}
use timelord.Events.{agent_started}
use timelord.Commands.Testing.{
  TestRun, test_event_of, test_submission, remove_delivered, settle_results, on_submitted,
  on_registered, deliver_test, queue_test, test_event_with, test_event, build_register_request,
}

-- The event is in the queue.
abbrev holds : TestRun → EventQueue → Bool
holds t q = any (has_event t.stamp.event_id) q.rows

-- The controller has taken the event: the first result of its answer is not a rejection.
abbrev pub IsTaken : TestRun → Uuid → ControllerClient → Type 0
IsTaken t device_id c =
    (answer : EventSubmissionResponse) × (r : EventResult) × (rest : List EventResult)
    × (t.submit_events device_id (test_submission t) c ≡ ok answer)
    × (answer.results ≡ r ∷ rest)
    × (r.status ≢ EventResultStatus.rejected)

abbrev pub TakenBy : TestRun → ControllerClient → Type 0
TakenBy t c = (device_id : Uuid) × IsTaken t device_id c

clash : {A : Type 0} {b : Bool} → b ≡ true → b ≡ false → A
clash h k = absurd (ground (arith, h, k))

module _ (t : TestRun) (q : EventQueue) (held : holds t q ≡ true) where
  removed_lost :
      (s : EventResultStatus)
      → holds t (remove_delivered t s q).1 ≡ false
      → s ≢ EventResultStatus.rejected
  unfolding remove_delivered
  removed_lost EventResultStatus.rejected k = clash held k
  removed_lost EventResultStatus.accepted k = λ e. cc
  removed_lost EventResultStatus.duplicate k = λ e. cc

  settled_lost :
      (results : List EventResult)
      → holds t (settle_results t results q).1 ≡ false
      → (r : EventResult) × (rest : List EventResult) × (results ≡ r ∷ rest)
        × (r.status ≢ EventResultStatus.rejected)
  unfolding settle_results
  settled_lost [] k = clash held k
  settled_lost (r ∷ rest) k = (r, rest, refl, removed_lost r.status k)

  submitted_lost :
      (c : ControllerClient) (device_id : Uuid)
      → (answer : Result ClientError EventSubmissionResponse)
      → t.submit_events device_id (test_submission t) c ≡ answer
      → holds t (on_submitted t answer q).1 ≡ false
      → IsTaken t device_id c
  unfolding on_submitted
  submitted_lost c device_id (err e) h k = clash held k
  submitted_lost c device_id (ok response) h k =
      let (r, rest, e, s) = settled_lost response.results k in (response, r, rest, h, e, s)

  registered_lost :
      (c : ControllerClient) (answer : Result ClientError RegisterResponse)
      → holds t (on_registered t c answer q).1 ≡ false
      → TakenBy t c
  unfolding on_registered
  registered_lost c (err e) k = clash held k
  registered_lost c (ok response) k = (
    response.device_id,
    submitted_lost c response.device_id (t.submit_events response.device_id (test_submission t) c)
        refl k,
  )

  delivered_lost :
      (config : AgentConfig) (url : Option String)
      → holds t (deliver_test t config url q).1 ≡ false
      → (c : ControllerClient) × TakenBy t c
  unfolding deliver_test
  delivered_lost config none k = clash held k
  delivered_lost config (some url) k =
      let c = Client.new url in
      (c, registered_lost c (t.register (build_register_request t.build config) c) k)

test_event-id : (t : TestRun) → (test_event_of t).event_id ≡ t.stamp.event_id
unfolding test_event_of agent_started
test_event-id t = refl

appended-holds :
    (t : TestRun) (q : EventQueue) → holds t (appended (test_event_of t) t.now q) ≡ true
appended-holds t q =
    any-append (has_event t.stamp.event_id) q.rows _ ∙ ground (arith, test_event-id t)

queue_test-room :
    (t : TestRun) (config : AgentConfig) (q : EventQueue)
    → t.fault ≡ no_fault
    → holds t q ≡ false
    → length q.rows < max_queue_size
    → queue_test t config q
      ≡ deliver_test t config config.controller_url (appended (test_event_of t) t.now q)
unfolding queue_test try_enqueue
queue_test-room t config q f fresh room = rw f (
    ap (deliver_test t config config.controller_url)
      (enqueue_room (test_event_of t) t.now q (rw (test_event-id t) fresh) room))

test_event_with-queue :
    (t : TestRun) (q : EventQueue) (config : AgentConfig) (file : ConfigFile)
    → t.open_error ≡ none
    → (test_event_with t q (ok config, file)).1 ≡ (queue_test t config q).1
unfolding test_event_with
test_event_with-queue t q config file h = rw h refl

-- If the configuration can be read, and the queue can be opened, has room, does not have the new id
-- and takes the event, then the test event is in the queue after the command, to be delivered later,
-- unless the controller answered it with a result other than a rejection.
pub lost_only_if_taken :
    (parse_str : String → Option Uuid) (print : Uuid → String) (x : Loading) (t : TestRun)
    (q : EventQueue) (file file' : ConfigFile) (config : AgentConfig)
    → load parse_str print x no_overrides file ≡ (ok config, file')
    → t.open_error ≡ none
    → t.fault ≡ no_fault
    → any (has_event t.stamp.event_id) q.rows ≡ false
    → length q.rows < max_queue_size
    → any (has_event t.stamp.event_id) (test_event parse_str print x t q file).1.rows ≡ false
    → (c : ControllerClient) × TakenBy t c
unfolding test_event
lost_only_if_taken parse_str print x t q file file' config loaded opened f fresh room lost =
    let held = appended (test_event_of t) t.now q in
    let ended =
      ap (λ r. (test_event_with t q r).1) loaded
      ∙ test_event_with-queue t q config file' opened
      ∙ ap (λ r. r.1) (queue_test-room t config q f fresh room) in
    delivered_lost t held (appended-holds t q) config config.controller_url
      (sym (ap (holds t) ended) ∙ lost)
