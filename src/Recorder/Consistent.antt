-- ===== src/Recorder/Consistent.antt =====
-- Memory and disk agree after every notification that SQLite lets through, and the table records
-- exactly the sessions that the tracker reports.
use mathlib.Core.Path.{subst, subst₂}
use mathlib.Core.List.{append-nil}
use timelord.Prelude.{
  ◌≡◌, refl, sym, ◌∙◌, false, Option, none, some, List, [], ◌∷◌, ◌++◌, String, any, arith, inl, inr,
  Bool-cases, if◌then◌else◌,
}
use timelord.Prelude.Result.{Result, ok, err}
use timelord.Prelude.Time.{DateTime, Uuid}
use timelord.Store.{StoreError, Row, has_id, reason_to_str, end_session}
use timelord.Store.Laws.{
  Recorded, sessions_in, sessions_in-append, IsInStep, open_row, start_session_ok,
  finished_none_open, finished_sessions,
}
use timelord.Tracker.{
  SessionEvent, EndReason, Transition, no_change, started, ended, apply, reason_if_closing,
}
use timelord.Tracker.Activity.{Explains, apply_explained}
use timelord.Recorder.{
  UsageRecorder, Inputs, persist, handle_at, report, report_if_ok, is_repeated_logon, observed,
}

abbrev pub IsConsistent : UsageRecorder → Type 0
IsConsistent r = IsInStep r.open_session_id r.tracker.open_since r.store.rows

-- SQLite takes the statement, and the fresh id is one that the table does not have.
pub record Succeeds (i : Inputs) (r : UsageRecorder) : Type 0 where
  pub no_fault : i.store_fault ≡ none
  pub fresh : any (has_id i.session_uuid) r.store.rows ≡ false

abbrev pub logged : Transition → List Recorded
logged (ended e) = (e.start, e.end, reason_to_str e.end_reason) ∷ []
logged _ = []

-- What a successful write leaves.
record IsWritten (before : List Row) (after : Option DateTime) (tr : Transition)
    (out : Result StoreError (Unit {0}) × UsageRecorder) : Type 0 where
  result : out.0 ≡ ok tt
  in_step : IsInStep out.1.open_session_id after out.1.store.rows
  sessions : sessions_in out.1.store.rows ≡ sessions_in before ++ logged tr

persist-IsWritten :
    (i : Inputs) (tr : Transition) (r : UsageRecorder) (id : Option Uuid)
    (before after : Option DateTime) (at : DateTime) (why : Option EndReason)
    → r.open_session_id ≡ id
    → Explains before after at why tr
    → IsInStep id before r.store.rows
    → Succeeds i r
    → IsWritten r.store.rows after tr (persist i tr r)
unfolding persist
persist-IsWritten i no_change r id before after at why e x h s = record {
  result = refl;
  in_step = subst₂ (λ a b. IsInStep a b r.store.rows) (sym e) x h;
  sessions = sym (append-nil _);
}
persist-IsWritten i (started t) r none none after at why e x h s =
    rw (start_session_ok i.store_fault i.session_uuid t r.store s.no_fault s.fresh) (record {
      result = refl;
      in_step = rw (x.1, x.2) (r.store.rows, refl, h, s.fresh);
      sessions =
          unfold sessions_in in sessions_in-append r.store.rows (open_row i.session_uuid t ∷ []);
    })
persist-IsWritten i (started t) r (some id) none after at why e x h s = absurd h
persist-IsWritten i (started t) r (some id) (some b) after at why e x h s = cc (x.0)
persist-IsWritten i (started t) r none (some b) after at why e x h s = absurd h
persist-IsWritten i (ended u) r none none after at why e x h s = cc (x.0)
persist-IsWritten i (ended u) r none (some b) after at why e x h s = absurd h
persist-IsWritten i (ended u) r (some id) none after at why e x h s = absurd h
persist-IsWritten i (ended u) r (some id) (some b) after at why e x h s =
    let same : b ≡ u.start = ground (arith, x.0) in
    let h' = subst (λ t. IsInStep (some id) (some t) r.store.rows) same h in
    rw (e, persist)
      (rw (s.no_fault, persist)
        (record {
          result = unfold end_session in refl;
          in_step =
              unfold end_session in
              rw (x.1) (finished_none_open id u.start u.end u.end_reason r.store.rows h');
          sessions =
              unfold end_session in finished_sessions id u.start u.end u.end_reason r.store.rows h';
        }))

-- The sessions that a notification ends: none if it is a repeated logon.
abbrev pub newly_logged : SessionEvent → DateTime → UsageRecorder → List Recorded
newly_logged e now r =
    if is_repeated_logon r.tracker e then [] else logged (apply r.tracker e now).1

module _ (i : Inputs) (e : SessionEvent) (name : Option String) (tr : Transition) (now : DateTime)
    (r : UsageRecorder) where
  pub store-report : (report i e name tr now r).store ≡ r.store
  unfolding report
  store-report = ground arith

  id-report : (report i e name tr now r).open_session_id ≡ r.open_session_id
  unfolding report
  id-report = ground arith

  tracker-report : (report i e name tr now r).tracker ≡ r.tracker
  unfolding report
  tracker-report = ground arith

module _ (i : Inputs) (tr : Transition) (r : UsageRecorder) where
  tracker-persist : (persist i tr r).1.tracker ≡ r.tracker
  unfolding persist
  tracker-persist = ground arith

report_if_ok-tracker :
    (i : Inputs) (e : SessionEvent) (name : Option String) (tr : Transition) (now : DateTime)
    (out : Result StoreError (Unit {0}) × UsageRecorder)
    → (report_if_ok i e name tr now out).1.tracker ≡ out.1.tracker
unfolding report_if_ok
report_if_ok-tracker i e name tr now (err x, r) = refl
report_if_ok-tracker i e name tr now (ok u, r) = tracker-report i e name tr now r

-- What `handle_at` promises when SQLite lets it write.
pub record IsHandled (e : SessionEvent) (now : DateTime) (r : UsageRecorder)
    (out : Result StoreError (Unit {0}) × UsageRecorder) : Type 0 where
  pub result : out.0 ≡ ok tt
  pub consistent : IsConsistent out.1
  pub sessions : sessions_in out.1.store.rows ≡ sessions_in r.store.rows ++ newly_logged e now r

report_if_ok-IsHandled :
    (i : Inputs) (e : SessionEvent) (name : Option String) (now : DateTime) (r : UsageRecorder)
    (out : Result StoreError (Unit {0}) × UsageRecorder)
    → is_repeated_logon r.tracker e ≡ false
    → out.1.tracker ≡ (apply r.tracker e now).0
    → IsWritten r.store.rows (apply r.tracker e now).0.open_since (apply r.tracker e now).1 out
    → IsHandled e now r (report_if_ok i e name (apply r.tracker e now).1 now out)
unfolding report_if_ok
report_if_ok-IsHandled i e name now r (err x, r') fresh t w = cc (w.result)
report_if_ok-IsHandled i e name now r (ok u, r') fresh t w =
    let tr = (apply r.tracker e now).1 in
    record {
      result = refl;
      consistent =
          rw
            (
              store-report i e name tr now r',
              id-report i e name tr now r',
              tracker-report i e name tr now r',
              t,
            )
            w.in_step;
      sessions = rw (store-report i e name tr now r') (rw fresh w.sessions);
    }

-- In a recorder that agrees with its store, a notification that SQLite lets through, with a
-- session id that is not in the table yet, succeeds, leaves memory and disk in agreement, and adds
-- to the table exactly the session that the tracker says has ended, if one has.
pub handle_at-IsHandled :
    (i : Inputs) (e : SessionEvent) (username : Option String) (now : DateTime) (r : UsageRecorder)
    → IsConsistent r
    → Succeeds i r
    → IsHandled e now r (handle_at i e username now r)
unfolding handle_at
handle_at-IsHandled i e username now r c s = elim (Bool-cases (is_repeated_logon r.tracker e)) [
  | inl again ↦
      rw again (record { result = refl; consistent = c; sessions = rw again (sym (append-nil _)) })
  | inr fresh ↦ rw fresh (
      report_if_ok-IsHandled i e _ now r
        (persist i (apply r.tracker e now).1 (observed e username now r)) fresh
        (tracker-persist i (apply r.tracker e now).1 (observed e username now r))
        (persist-IsWritten i (apply r.tracker e now).1 (observed e username now r) r.open_session_id
          r.tracker.open_since (apply r.tracker e now).0.open_since now (reason_if_closing e) refl
          (apply_explained r.tracker e now) c (record { no_fault = s.no_fault; fresh = s.fresh })))
]

pub handle_at-tracker :
    (i : Inputs) (e : SessionEvent) (username : Option String) (now : DateTime) (r : UsageRecorder)
    → is_repeated_logon r.tracker e ≡ false
    → (handle_at i e username now r).1.tracker ≡ (apply r.tracker e now).0
unfolding handle_at
handle_at-tracker i e username now r h =
    let tr = (apply r.tracker e now).1 in
    rw h (
      report_if_ok-tracker i e _ tr now (persist i tr (observed e username now r))
      ∙ tracker-persist i tr (observed e username now r))
