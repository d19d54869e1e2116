-- ===== src/Store/Laws.antt =====
-- The statements of the store against the sessions that its table records.
use timelord.Prelude.{
  ℕ, ◌≡◌, refl, sym, ap, ◌∙◌, false, Option, none, some, List, [], ◌∷◌, ◌++◌, String, map, any,
  keep, arith, keep-append,
}
use mathlib.Core.List.{append-nil}
use timelord.Prelude.Result.{ok}
use timelord.Prelude.Time.{DateTime, Uuid}
use timelord.Tracker.{EndReason}
use timelord.Store.{
  Row, Store, has_id, reason_to_str, finish, is_open, latest, dangling, start_session,
}

-- A usage session as the table shows it: start, end and reason.
abbrev pub Recorded : Type 0
Recorded = DateTime × DateTime × String

abbrev pub recorded : Option DateTime → Option String → DateTime → List Recorded → List Recorded
recorded (some end) (some reason) start rest = (start, end, reason) ∷ rest
recorded _ _ start rest = rest

-- The sessions that the table records as ended, in order.
unfoldable pub sessions_in : List Row → List Recorded
sessions_in [] = []
sessions_in (r ∷ rows) = recorded r.end_utc r.end_reason r.start_utc (sessions_in rows)

pub sessions_in-append :
    (xs ys : List Row) → sessions_in (xs ++ ys) ≡ sessions_in xs ++ sessions_in ys
unfolding sessions_in
sessions_in-append [] ys = refl
sessions_in-append (x ∷ xs) ys = ground (arith, sessions_in-append xs ys)

abbrev pub open_row : Uuid → DateTime → Row
open_row id start = record { id = id; start_utc = start; end_utc = none; end_reason = none }

abbrev pub closed_row : Uuid → DateTime → DateTime → EndReason → Row
closed_row id start end reason = record {
  id = id;
  start_utc = start;
  end_utc = some end;
  end_reason = some (reason_to_str reason);
}

-- `UPDATE … WHERE id = ?1` reaches the last row alone if no other has its id.
pub finish_last :
    (id : Uuid) (start end : DateTime) (reason : EndReason) (front : List Row)
    → any (has_id id) front ≡ false
    → map (finish id end reason) (front ++ open_row id start ∷ [])
      ≡ front ++ closed_row id start end reason ∷ []
finish_last id start end reason [] h = ground arith
finish_last id start end reason (r ∷ front) h =
    ground (arith, finish_last id start end reason front)

-- What the recorder and the table agree on: nothing is open, or the last row is the one open
-- session, with the id and the start that the recorder has in memory.
abbrev pub IsInStep : Option Uuid → Option DateTime → List Row → Type 0
IsInStep none none rows = keep is_open rows ≡ []
IsInStep (some id) (some start) rows =
    (front : List Row) × (rows ≡ front ++ open_row id start ∷ [])
    × (keep is_open front ≡ [])
    × (any (has_id id) front ≡ false)
IsInStep _ _ rows = ⊥

abbrev pub both : Option Uuid → Option DateTime → Option (Uuid × DateTime)
both (some id) (some start) = some (id, start)
both _ _ = none

-- The query for a dangling session finds what is in memory.
pub dangling-IsInStep :
    (id : Option Uuid) (start : Option DateTime) (rows : List Row)
    → IsInStep id start rows
    → dangling rows ≡ both id start
unfolding latest
dangling-IsInStep none none rows h = rw (h, dangling)
dangling-IsInStep (some id) (some start) rows h =
    ap dangling h.1
    ∙ rw (keep-append is_open h.0 (open_row id start ∷ []), dangling) (rw (h.2, dangling))
dangling-IsInStep none (some start) rows h = absurd h
dangling-IsInStep (some id) none rows h = absurd h

pub start_session_ok :
    (fault : Option ℕ) (id : Uuid) (start : DateTime) (s : Store)
    → fault ≡ none
    → any (has_id id) s.rows ≡ false
    → start_session fault id start s ≡ (ok id, record s { rows = s.rows ++ open_row id start ∷ [] })
unfolding start_session
start_session_ok fault id start s e h = ground (arith, e, h)

-- What closing the last row leaves, and what it adds to the recorded sessions.
module _ (id : Uuid) (start end : DateTime) (reason : EndReason) (rows : List Row)
    (h : IsInStep (some id) (some start) rows) where
  pub finished_rows : map (finish id end reason) rows ≡ h.0 ++ closed_row id start end reason ∷ []
  finished_rows = ap (map (finish id end reason)) h.1 ∙ finish_last id start end reason h.0 h.3

  pub finished_none_open : keep is_open (map (finish id end reason) rows) ≡ []
  finished_none_open =
      ap (keep is_open) finished_rows
      ∙ keep-append is_open h.0 (closed_row id start end reason ∷ [])
      ∙ rw (h.2)

  pub finished_sessions :
      sessions_in (map (finish id end reason) rows)
      ≡ sessions_in rows ++ (start, end, reason_to_str reason) ∷ []
  unfolding sessions_in
  finished_sessions =
      ap sessions_in finished_rows
      ∙ sessions_in-append h.0 (closed_row id start end reason ∷ [])
      ∙ ap (λ l. l ++ (start, end, reason_to_str reason) ∷ [])
          (sym
            (ap sessions_in h.1 ∙ sessions_in-append h.0 (open_row id start ∷ []) ∙ append-nil _))
