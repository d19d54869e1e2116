-- ===== src/Recorder/Failures.antt =====
-- A store that fails while a usage session starts.
use timelord.Prelude.{ℕ, ◌≡◌, ap, ◌∙◌, false, Option, none, some, [], ◌∷◌, ◌++◌, String, any, arith}
use timelord.Prelude.Result.{ok, err}
use timelord.Prelude.Time.{DateTime, Uuid}
use timelord.Store.{Store, sqlite, insert_closed_session, start_session, reason_to_str, has_id}
use timelord.Store.Laws.{sessions_in, sessions_in-append, closed_row}
use timelord.Tracker.{SessionEvent, started, ended, UsageSessionRecord, apply}
use timelord.Tracker.Activity.{apply_started, apply_ended}
use timelord.Recorder.{UsageRecorder, Inputs, handle_at, is_repeated_logon, persist, observed}
use timelord.Recorder.Consistent.{Succeeds, store-report}

-- A failed `start_session`: the error is returned, nothing is written, no id is kept, and the
-- notification is not mirrored. The tracker, though, has the session open.
start_fails :
    (i : Inputs) (e : SessionEvent) (username : Option String) (now t : DateTime) (code : ℕ)
    (r : UsageRecorder)
    → is_repeated_logon r.tracker e ≡ false
    → (apply r.tracker e now).1 ≡ started t
    → i.store_fault ≡ some code
    → handle_at i e username now r ≡ (err (sqlite code), observed e username now r)
unfolding handle_at persist start_session
start_fails i e username now t code r fresh tr fault = rw (fresh, tr) (rw (fault, persist))

insert_closed_ok :
    (fault : Option ℕ) (id : Uuid) (u : UsageSessionRecord) (s : Store)
    → fault ≡ none
    → any (has_id id) s.rows ≡ false
    → insert_closed_session fault id u s
      ≡ (ok id, record s { rows = s.rows ++ closed_row id u.start u.end u.end_reason ∷ [] })
unfolding insert_closed_session
insert_closed_ok fault id u s f n = ground (arith, f, n)

-- A session that ends with no id in memory is inserted as a whole.
end_without_id :
    (j : Inputs) (e : SessionEvent) (username : Option String) (now : DateTime)
    (u : UsageSessionRecord) (r : UsageRecorder)
    → is_repeated_logon r.tracker e ≡ false
    → (apply r.tracker e now).1 ≡ ended u
    → r.open_session_id ≡ none
    → Succeeds j r
    → sessions_in (handle_at j e username now r).1.store.rows
      ≡ sessions_in r.store.rows ++ (u.start, u.end, reason_to_str u.end_reason) ∷ []
unfolding handle_at persist sessions_in
end_without_id j e username now u r fresh tr id s =
    rw (fresh, tr)
      (rw (id, persist)
        (rw (insert_closed_ok j.store_fault j.session_uuid u r.store s.no_fault s.fresh) (
          ap (λ st. sessions_in st.rows) (store-report j e _ (ended u) now _)
          ∙ sessions_in-append r.store.rows
              (closed_row j.session_uuid u.start u.end u.end_reason ∷ []))))

-- A session whose start SQLite refuses is not lost. With no session in memory, the call returns
-- the error and goes no further, so the notification is not mirrored either; but the tracker keeps
-- the session, and if the next notification ends it and SQLite lets that through, the whole
-- session is inserted, with the start that the failed call had.
pub failed_start_recorded :
    (i j : Inputs) (e f : SessionEvent) (name other : Option String) (now later t : DateTime)
    (code : ℕ) (u : UsageSessionRecord) (r : UsageRecorder)
    → is_repeated_logon r.tracker e ≡ false
    → (apply r.tracker e now).1 ≡ started t
    → r.open_session_id ≡ none
    → i.store_fault ≡ some code
    → is_repeated_logon (observed e name now r).tracker f ≡ false
    → (apply (observed e name now r).tracker f later).1 ≡ ended u
    → Succeeds j (observed e name now r)
    → (handle_at i e name now r ≡ (err (sqlite code), observed e name now r))
      × (sessions_in (handle_at j f other later (handle_at i e name now r).1).1.store.rows
          ≡ sessions_in r.store.rows ++ (now, later, reason_to_str u.end_reason) ∷ [])
unfolding observed
failed_start_recorded i j e f name other now later t code u r fresh tr id fault fresh' tr' s =
    let failed = start_fails i e name now t code r fresh tr fault in
    let r' = observed e name now r in
    let from = apply_started r.tracker e now tr in
    let until = apply_ended r'.tracker f later tr' in
    let start : u.start ≡ now = cc (until.0, from.1) in
    (failed, rw failed (end_without_id j f other later u r' fresh' tr' id s ∙ rw (start, until.2)))
