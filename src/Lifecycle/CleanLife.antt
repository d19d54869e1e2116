-- ===== src/Lifecycle/CleanLife.antt =====
-- A life of the agent in which SQLite lets every statement through.
use timelord.Prelude.{◌≡◌, refl, ap, ◌∙◌, Option, none, some, List, [], ◌∷◌, String}
use timelord.Prelude.Result.{ok}
use timelord.Tracker.{SessionEvent, new}
use timelord.Recorder.{UsageRecorder, from_store, shutdown}
use timelord.Recorder.Consistent.{IsConsistent, Succeeds, handle_at-IsHandled}
use timelord.Recorder.Stop.{shutdown-IsCleanStop}
use timelord.Platform.{Handling, event_of, dispatch_if, wndproc}
use timelord.Lifecycle.{Process, Step, notified, Ending, perform, perform_each, stop}

-- SQLite lets the statements of a notification through, at the state that it comes in.
abbrev pub IsLetThrough : Step → Process → Type 0
IsLetThrough (notified d) p = Succeeds d.handling.inputs p.recorder
IsLetThrough _ p = Unit {0}

abbrev pub AllLetThrough : List Step → Process → Type 0
AllLetThrough [] p = Unit {0}
AllLetThrough (s ∷ steps) p = IsLetThrough s p × AllLetThrough steps (perform s p)

dispatch_if-IsConsistent :
    (x : Handling) (o : Option (SessionEvent × Option String)) (r : UsageRecorder)
    → IsConsistent r
    → Succeeds x.inputs r
    → IsConsistent (dispatch_if x o r)
unfolding dispatch_if
dispatch_if-IsConsistent x none r c s = c
dispatch_if-IsConsistent x (some (e, username)) r c s =
    (handle_at-IsHandled x.inputs e username x.now r c s).consistent

perform-IsConsistent :
    (s : Step) (p : Process)
    → IsConsistent p.recorder
    → IsLetThrough s p
    → IsConsistent (perform s p).recorder
unfolding perform wndproc
perform-IsConsistent (notified d) p c s =
    dispatch_if-IsConsistent d.handling (event_of d.message d.username)
      (record p.recorder { event_queue = some p.agent.queue }) c
      (record { no_fault = s.no_fault; fresh = s.fresh })
perform-IsConsistent _ p c s = c

perform_each-IsConsistent :
    (steps : List Step) (p : Process)
    → IsConsistent p.recorder
    → AllLetThrough steps p
    → IsConsistent (perform_each steps p).recorder
unfolding perform_each
perform_each-IsConsistent [] p c s = c
perform_each-IsConsistent (x ∷ steps) p c s =
    perform_each-IsConsistent steps (perform x p) (perform-IsConsistent x p c s.0) s.1

stop-store :
    (x : Ending) (p : Process)
    → (stop x p).recorder.store
      ≡ (shutdown x.store_fault x.now
          (record p.recorder { event_queue = some p.agent.queue })).1.store
unfolding stop
stop-store x p = refl

-- If a life starts with a recorder that agrees with its store, whatever the networking tasks do
-- between the notifications of the system, and SQLite lets through every statement and the last one,
-- then a recorder that is opened on the store that is left has nothing to resume, and agrees with it:
-- it is as good a start for the next life.
pub life_ends_clean :
    (steps : List Step) (x : Ending) (p : Process)
    → IsConsistent p.recorder
    → AllLetThrough steps p
    → x.store_fault ≡ none
    → (next : UsageRecorder) × (from_store none (stop x (perform_each steps p)).recorder.store
        ≡ ok next)
      × (next.tracker ≡ new)
      × IsConsistent next
life_ends_clean steps x p c s h =
    let q = perform_each steps p in
    let r = record q.recorder { event_queue = some q.agent.queue } in
    let (next, opened, idle, good) =
      (shutdown-IsCleanStop x.now r (perform_each-IsConsistent steps p c s)).next_start in
    let left = stop-store x q ∙ ap (λ f. (shutdown f x.now r).1.store) h in
    (next, ap (from_store none) left ∙ opened, idle, good)
