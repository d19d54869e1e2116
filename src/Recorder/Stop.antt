-- ===== src/Recorder/Stop.antt =====
-- A clean stop of the agent.
use mathlib.Core.List.{append-nil}
use timelord.Prelude.{keep, map, ◌≡◌, refl, sym, ap, ◌∙◌, Option, none, some, List, [], ◌∷◌, ◌++◌}
use timelord.Prelude.Result.{ok}
use timelord.Prelude.Time.{DateTime, Uuid}
use timelord.Store.{Store, reason_to_str, is_open, finish, end_session}
use timelord.Store.Laws.{
  Recorded, sessions_in, IsInStep, dangling-IsInStep, finished_none_open, finished_sessions,
}
use timelord.Tracker.{EndReason, new}
use timelord.Recorder.{UsageRecorder, from_store, shutdown}
use timelord.Recorder.Consistent.{IsConsistent}

-- What the stop adds to the recorded sessions.
abbrev pub stopped_session : Option DateTime → DateTime → List Recorded
stopped_session none now = []
stopped_session (some start) now = (start, now, reason_to_str EndReason.agent_shutdown) ∷ []

-- The stop succeeds, records the open session, and leaves nothing for the next start to resume.
pub record IsCleanStop (now : DateTime) (r : UsageRecorder) : Type 0 where
  pub result : (shutdown none now r).0 ≡ ok tt
  pub sessions :
      sessions_in (shutdown none now r).1.store.rows
      ≡ sessions_in r.store.rows ++ stopped_session r.tracker.open_since now
  pub next_start :
      (next : UsageRecorder) × (from_store none (shutdown none now r).1.store ≡ ok next)
      × (next.tracker ≡ new)
      × IsConsistent next

-- A store with no open row is opened with nothing to resume.
fresh_start :
    (s : Store)
    → keep is_open s.rows ≡ []
    → (next : UsageRecorder) × (from_store none s ≡ ok next)
      × (next.tracker ≡ new)
      × IsConsistent next
unfolding from_store new
fresh_start s h = (
  record {
    tracker = new;
    store = s;
    open_session_id = none;
    event_queue = none;
    session_usernames = [];
    snapshot = record { username = none; state = "NO_SESSION" };
  },
  rw (dangling-IsInStep none none s.rows h, from_store) refl,
  refl,
  h,
)

-- The store after a stop with nothing open, and with a session open.
module _ (now : DateTime) (r : UsageRecorder) where
  shutdown_idle :
      r.open_session_id ≡ none
      → r.tracker.open_since ≡ none
      → ((shutdown none now r).0 ≡ ok tt) × ((shutdown none now r).1.store ≡ r.store)
  unfolding shutdown
  shutdown_idle ei es = rw (es, shutdown) (refl, refl)

  shutdown_open :
      (id : Uuid) (start : DateTime)
      → r.open_session_id ≡ some id
      → r.tracker.open_since ≡ some start
      → ((shutdown none now r).0 ≡ ok tt)
        × ((shutdown none now r).1.store
            ≡ record r.store { rows = map (finish id now EndReason.agent_shutdown) r.store.rows })
  unfolding shutdown end_session
  shutdown_open id start ei es = rw (es, shutdown) (rw ei (refl, refl))

stop :
    (now : DateTime) (r : UsageRecorder) (id : Option Uuid) (start : Option DateTime)
    → r.open_session_id ≡ id
    → r.tracker.open_since ≡ start
    → IsInStep id start r.store.rows
    → IsCleanStop now r
stop now r none none ei es h =
    let (result, same) = shutdown_idle now r ei es in
    record {
      result = result;
      sessions =
          ap (λ s. sessions_in s.rows) same
          ∙ sym (append-nil (sessions_in r.store.rows))
          ∙ ap (λ o. sessions_in r.store.rows ++ stopped_session o now) (sym es);
      next_start =
          fresh_start (shutdown none now r).1.store (ap (λ s. keep is_open s.rows) same ∙ h);
    }
stop now r (some id) (some start) ei es h =
    let (result, closed) = shutdown_open now r id start ei es in
    record {
      result = result;
      sessions =
          ap (λ s. sessions_in s.rows) closed
          ∙ finished_sessions id start now EndReason.agent_shutdown r.store.rows h
          ∙ ap (λ o. sessions_in r.store.rows ++ stopped_session o now) (sym es);
      next_start = fresh_start (shutdown none now r).1.store (
          ap (λ s. keep is_open s.rows) closed
          ∙ finished_none_open id start now EndReason.agent_shutdown r.store.rows h);
    }
stop now r none (some start) ei es h = absurd h
stop now r (some id) none ei es h = absurd h

-- A clean stop of a recorder that agrees with its store, with SQLite letting its statement through,
-- succeeds, records the session that was open, if one was, as ended at that moment with the reason
-- AGENT_SHUTDOWN, and nothing else; and the next start on that store has
-- nothing to resume and agrees with it.
pub shutdown-IsCleanStop : (now : DateTime) (r : UsageRecorder) → IsConsistent r → IsCleanStop now r
shutdown-IsCleanStop now r c = stop now r r.open_session_id r.tracker.open_since refl refl c
