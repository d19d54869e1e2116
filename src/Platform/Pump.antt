-- ===== src/Platform/Pump.antt =====
-- What the tracker learns of the notifications of Windows.
use mathlib.Core.Path.{subst}
use timelord.Prelude.{
  ◌≡◌, refl, sym, ap, ◌∙◌, ◌↔◌, Bool, true, false, Option, none, some, List, [], ◌∷◌, ◌++◌, String,
  Bool-cases, inl, inr, if◌then◌else◌,
}
use timelord.Prelude.Time.{DateTime}
use timelord.Tracker.{SessionEvent, SessionId, UsageTracker, new, is_active, apply}
use timelord.Tracker.Timeline.{run}
use timelord.Tracker.Presence.{run-InUse, presence_after, asleep_after}
use timelord.Recorder.{UsageRecorder, is_repeated_logon, handle_at}
use timelord.Recorder.Consistent.{handle_at-tracker}
use timelord.Platform.{
  Handling, Delivered, SessionEntry, event_of, dispatch, dispatch_if, wndproc, pump, is_present,
  seed_lock, seed_named, seed_session, seed_active_sessions,
}

-- An event goes to the tracker unless it is the logon of a session that it knows.
abbrev hear : UsageTracker → SessionEvent → DateTime → List (SessionEvent × DateTime)
hear t e at = if is_repeated_logon t e then [] else (e, at) ∷ []

repeated_ignored :
    (x : Handling) (e : SessionEvent) (username : Option String) (r : UsageRecorder)
    → is_repeated_logon r.tracker e ≡ true
    → (dispatch x e username r).tracker ≡ r.tracker
unfolding dispatch handle_at
repeated_ignored x e username r h = rw (h, dispatch, handle_at) refl

dispatch-tracker :
    (x : Handling) (e : SessionEvent) (username : Option String) (r : UsageRecorder)
    → (dispatch x e username r).tracker ≡ run r.tracker (hear r.tracker e x.now)
unfolding run dispatch
dispatch-tracker x e username r = elim (Bool-cases (is_repeated_logon r.tracker e)) [
  | inl repeated ↦ rw (repeated_ignored x e username r repeated) (rw repeated refl)
  | inr new_event ↦ rw (handle_at-tracker x.inputs e username x.now r new_event) (rw new_event refl)
]

run-append :
    (t : UsageTracker) (es fs : List (SessionEvent × DateTime))
    → run t (es ++ fs) ≡ run (run t es) fs
unfolding run
run-append t [] fs = refl
run-append t ((e, at) ∷ es) fs = run-append (apply t e at).0 es fs

-- The events that reach the tracker from one message, and from one session found at the start.
abbrev hear_if :
    Handling → Option (SessionEvent × Option String) → UsageTracker → List (SessionEvent × DateTime)
hear_if x none t = []
hear_if x (some (e, username)) t = hear t e x.now

abbrev hear_message : Delivered → UsageTracker → List (SessionEvent × DateTime)
hear_message d t = hear_if d.handling (event_of d.message d.username) t

abbrev lock_heard : SessionEntry → Option Bool → List (SessionEvent × DateTime)
lock_heard e (some true) = (SessionEvent.lock e.session, e.lock.now) ∷ []
lock_heard e (some false) = []
lock_heard e none = []

abbrev hear_named : SessionEntry → Option String → UsageTracker → List (SessionEvent × DateTime)
hear_named e none t = []
hear_named e (some username) t =
    hear t (SessionEvent.logon e.session) e.logon.now ++ lock_heard e e.locked

abbrev hear_session : SessionEntry → UsageTracker → List (SessionEvent × DateTime)
hear_session e t = if is_present e.state then hear_named e e.username t else []

abbrev pub messages_heard : List Delivered → UsageTracker → List (SessionEvent × DateTime)
messages_heard [] t = []
messages_heard (d ∷ messages) t =
    hear_message d t ++ messages_heard messages (run t (hear_message d t))

abbrev pub sessions_heard : List SessionEntry → UsageTracker → List (SessionEvent × DateTime)
sessions_heard [] t = []
sessions_heard (e ∷ entries) t =
    hear_session e t ++ sessions_heard entries (run t (hear_session e t))

dispatch_if-tracker :
    (x : Handling) (o : Option (SessionEvent × Option String)) (r : UsageRecorder)
    → (dispatch_if x o r).tracker ≡ run r.tracker (hear_if x o r.tracker)
unfolding dispatch_if run
dispatch_if-tracker x none r = refl
dispatch_if-tracker x (some (e, username)) r = dispatch-tracker x e username r

wndproc-tracker :
    (d : Delivered) (r : UsageRecorder)
    → (wndproc d r).tracker ≡ run r.tracker (hear_message d r.tracker)
unfolding wndproc
wndproc-tracker d r = dispatch_if-tracker d.handling (event_of d.message d.username) r

pump-tracker :
    (messages : List Delivered) (r : UsageRecorder)
    → (pump messages r).tracker ≡ run r.tracker (messages_heard messages r.tracker)
unfolding pump run
pump-tracker [] r = refl
pump-tracker (d ∷ messages) r =
    pump-tracker messages (wndproc d r)
    ∙ ap (λ t. run t (messages_heard messages t)) (wndproc-tracker d r)
    ∙ sym (run-append r.tracker (hear_message d r.tracker) _)

seed_lock-tracker :
    (e : SessionEntry) (locked : Option Bool) (r : UsageRecorder)
    → (seed_lock e locked r).tracker ≡ run r.tracker (lock_heard e locked)
unfolding seed_lock run is_repeated_logon
seed_lock-tracker e none r = refl
seed_lock-tracker e (some false) r = refl
seed_lock-tracker e (some true) r = dispatch-tracker e.lock (SessionEvent.lock e.session) none r

seed_named-tracker :
    (e : SessionEntry) (username : Option String) (r : UsageRecorder)
    → (seed_named e username r).tracker ≡ run r.tracker (hear_named e username r.tracker)
unfolding seed_named run
seed_named-tracker e none r = refl
seed_named-tracker e (some username) r =
    let r' = dispatch e.logon (SessionEvent.logon e.session) (some username) r in
    seed_lock-tracker e e.locked r'
    ∙ ap (λ t. run t (lock_heard e e.locked))
        (dispatch-tracker e.logon (SessionEvent.logon e.session) (some username) r)
    ∙ sym (
        run-append r.tracker (hear r.tracker (SessionEvent.logon e.session) e.logon.now)
          (lock_heard e e.locked))

seed_session-tracker :
    (e : SessionEntry) (r : UsageRecorder)
    → (seed_session e r).tracker ≡ run r.tracker (hear_session e r.tracker)
unfolding seed_session run
seed_session-tracker e r = elim (Bool-cases (is_present e.state)) [
  | inl present ↦ rw present (seed_named-tracker e e.username r)
  | inr away ↦ rw away refl
]

seed-tracker :
    (entries : List SessionEntry) (r : UsageRecorder)
    → (seed_active_sessions entries r).tracker ≡ run r.tracker (sessions_heard entries r.tracker)
unfolding seed_active_sessions run
seed-tracker [] r = refl
seed-tracker (e ∷ entries) r =
    seed-tracker entries (seed_session e r)
    ∙ ap (λ t. run t (sessions_heard entries t)) (seed_session-tracker e r)
    ∙ sym (run-append r.tracker (hear_session e r.tracker) _)

-- Everything that reaches the tracker, from the sessions that are there at the start to the last
-- message.
abbrev pub heard : List SessionEntry → List Delivered → List (SessionEvent × DateTime)
heard entries messages =
    let before = sessions_heard entries new in before ++ messages_heard messages (run new before)

-- A recorder with a new tracker, after the sessions that it finds at the start and any messages of
-- Windows, has a usage session open exactly when the device is awake and some session's own events
-- say that it is visible, whatever failed in the store and the queue meanwhile. The events are those
-- of the messages, without the logons of sessions that are known.
pub pump-InUse :
    (entries : List SessionEntry) (messages : List Delivered) (r : UsageRecorder)
    → r.tracker ≡ new
    → (is_active (pump messages (seed_active_sessions entries r)).tracker ≡ true) ↔ (
        (asleep_after (heard entries messages) false ≡ false)
        × ((id : SessionId) × (presence_after id (heard entries messages) none ≡ some true)))
pump-InUse entries messages r h =
    let seeded = seed-tracker entries r ∙ ap (λ t. run t (sessions_heard entries t)) h in
    let all =
      pump-tracker messages (seed_active_sessions entries r)
      ∙ ap (λ t. run t (messages_heard messages t)) seeded
      ∙ sym (run-append new (sessions_heard entries new) _) in
    subst
      (λ t. (is_active t ≡ true) ↔ (
        (asleep_after (heard entries messages) false ≡ false)
        × ((id : SessionId) × (presence_after id (heard entries messages) none ≡ some true))))
      (sym all) (run-InUse (heard entries messages))
