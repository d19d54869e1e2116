-- ===== src/Recorder/Recovery.antt =====
-- A crash between two notifications, and the restart.
use timelord.Prelude.{
  ◌≡◌, refl, sym, ap, ◌∙◌, false, Option, none, some, [], ◌∷◌, ◌++◌, String, arith,
}
use mathlib.Core.List.{append-nil}
use timelord.Prelude.Map.{insert, lookup}
use timelord.Prelude.Result.{ok}
use timelord.Prelude.Time.{DateTime, Uuid}
use timelord.Store.{reason_to_str}
use timelord.Store.Laws.{sessions_in, IsInStep, dangling-IsInStep}
use timelord.Tracker
use timelord.Tracker.{
  SessionEvent, SessionId, EndReason, Transition, no_change, started, ended, UsageSessionRecord,
  UsageTracker, apply, resume_open_session,
}
use timelord.Recorder.{UsageRecorder, Inputs, from_store, handle_at, is_repeated_logon}
use timelord.Recorder.Consistent.{
  IsConsistent, Succeeds, handle_at-IsHandled, handle_at-tracker, newly_logged, logged,
}

-- What notifications can make of a recorder, as long as SQLite takes their statements.
pub data Reach (r : UsageRecorder) : UsageRecorder → Type 0 where
  here : Reach r r
  next :
      {s : UsageRecorder} (i : Inputs) (e : SessionEvent) (username : Option String)
      (now : DateTime)
      → Reach r s
      → Succeeds i s
      → Reach r (handle_at i e username now s).1

Reach-IsConsistent : {r s : UsageRecorder} → IsConsistent r → Reach r s → IsConsistent s
Reach-IsConsistent c here = c
Reach-IsConsistent c (next {s} i e username now reached ok_now) =
    (handle_at-IsHandled i e username now s (Reach-IsConsistent c reached) ok_now).consistent

-- A restarted recorder continues where the crashed one was.
pub record Continues (r restarted : UsageRecorder) : Type 0 where
  pub same_store : restarted.store ≡ r.store
  pub same_id : restarted.open_session_id ≡ r.open_session_id
  pub same_start : restarted.tracker.open_since ≡ r.tracker.open_since
  pub consistent : IsConsistent restarted

restart :
    (r : UsageRecorder) (id : Option Uuid) (start : Option DateTime)
    → r.open_session_id ≡ id
    → r.tracker.open_since ≡ start
    → IsInStep id start r.store.rows
    → (restarted : UsageRecorder) × (from_store none r.store ≡ ok restarted) × Continues r restarted
unfolding from_store resume_open_session Tracker.new
restart r none none ei es h = (
  record {
    tracker = Tracker.new;
    store = r.store;
    open_session_id = none;
    event_queue = none;
    session_usernames = [];
    snapshot = record { username = none; state = "NO_SESSION" };
  },
  rw (dangling-IsInStep none none r.store.rows h, from_store),
  record { same_store = refl; same_id = sym ei; same_start = sym es; consistent = h },
)
restart r (some id) (some start) ei es h = (
  record {
    tracker = resume_open_session start;
    store = r.store;
    open_session_id = some id;
    event_queue = none;
    session_usernames = [];
    snapshot = record { username = none; state = "NO_SESSION" };
  },
  rw (dangling-IsInStep (some id) (some start) r.store.rows h, from_store),
  record { same_store = refl; same_id = sym ei; same_start = sym es; consistent = h },
)
restart r none (some start) ei es h = absurd h
restart r (some id) none ei es h = absurd h

-- A recorder that started in agreement with its store, and whose notifications since then were all
-- let through by SQLite, may be killed at any point: opened again on the same store, it has the
-- open session of the one that was killed, with its row and the time at which it started, and
-- agrees with the store again.
pub crash_recovery :
    (r s : UsageRecorder)
    → IsConsistent r
    → Reach r s
    → (restarted : UsageRecorder) × (from_store none s.store ≡ ok restarted) × Continues s restarted
crash_recovery r s c reached =
    restart s s.open_session_id s.tracker.open_since refl refl (Reach-IsConsistent c reached)

module _ (r : UsageRecorder) (start t : DateTime) (id : SessionId) where
  resumed_logon :
      r.tracker ≡ resume_open_session start
      → (is_repeated_logon r.tracker (SessionEvent.logon id) ≡ false)
        × ((apply r.tracker (SessionEvent.logon id) t).1 ≡ no_change)
  unfolding apply Tracker.observe Tracker.recompute Tracker.reason_if_closing resume_open_session
      insert is_repeated_logon lookup
  resumed_logon e = rw e (refl, refl)

  resumed_lock :
      (later : DateTime)
      → r.tracker ≡ (apply (resume_open_session start) (SessionEvent.logon id) t).0
      → (apply r.tracker (SessionEvent.lock id) later).1
        ≡ ended (record { start = start; end = later; end_reason = EndReason.lock })
  unfolding apply Tracker.observe Tracker.recompute Tracker.reason_if_closing resume_open_session
      insert
  resumed_lock later e = rw e (ground arith)

-- A usage session that a crash left open is not closed by the restart: if a user logs on at `back`
-- after it and locks at `gone`, and SQLite lets both through, the table gets one session from the
-- old start to `gone`, with the reason LOCK. The time in between, with the agent not running,
-- counts as use.
pub resumed_spans_downtime :
    (r : UsageRecorder) (start back gone : DateTime) (id : SessionId) (i j : Inputs)
    (name : Option String)
    → IsConsistent r
    → r.tracker ≡ resume_open_session start
    → Succeeds i r
    → Succeeds j (handle_at i (SessionEvent.logon id) name back r).1
    → sessions_in
        (handle_at j
          (SessionEvent.lock id)
          none
          gone
          (handle_at i (SessionEvent.logon id) name back r).1).1.store.rows
      ≡ sessions_in r.store.rows ++ (start, gone, "LOCK") ∷ []
unfolding is_repeated_logon reason_to_str
resumed_spans_downtime r start back gone id i j name c e si sj =
    let first = handle_at-IsHandled i (SessionEvent.logon id) name back r c si in
    let s = (handle_at i (SessionEvent.logon id) name back r).1 in
    let second = handle_at-IsHandled j (SessionEvent.lock id) none gone s first.consistent sj in
    let (fresh, quiet) = resumed_logon r start back id e in
    let resumed =
      handle_at-tracker i (SessionEvent.logon id) name back r fresh
      ∙ ap (λ t. (apply t (SessionEvent.logon id) back).0) e in
    let nothing : newly_logged (SessionEvent.logon id) back r ≡ [] = rw fresh (ap logged quiet) in
    let one : newly_logged (SessionEvent.lock id) gone s ≡ (start, gone, "LOCK") ∷ [] =
      ap logged (resumed_lock s start back id gone resumed) in
    second.sessions
    ∙ ap (λ l. l ++ newly_logged (SessionEvent.lock id) gone s)
        (first.sessions ∙ ap (λ l. sessions_in r.store.rows ++ l) nothing ∙ append-nil _)
    ∙ ap (λ l. sessions_in r.store.rows ++ l) one
