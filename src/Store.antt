-- ===== src/Store.antt =====
-- agent/src/store.rs: usage sessions on disk. The table `usage_session` is the list of its rows in
-- the order of insertion; each method runs one SQL statement. What SQLite reports for it is the
-- argument `fault`: a statement that fails changes nothing.
pub mod Laws
use timelord.Prelude.{
  ℕ, Bool, Option, none, some, List, [], ◌∷◌, ◌++◌, String, map, any, keep, is_some, not, ltb, ◌==◌,
  if◌then◌else◌,
}
use timelord.Prelude.Result.{Result, ok, err}
use timelord.Prelude.Time.{DateTime, Uuid}
use timelord.Tracker.{EndReason, UsageSessionRecord}

-- `rusqlite::Error`, by its result code.
pub data StoreError : Type 0 where
  sqlite : ℕ → StoreError

pub record Row : Type 0 where
  pub id : Uuid
  pub start_utc : DateTime
  pub end_utc : Option DateTime
  pub end_reason : Option String

pub record Store : Type 0 where
  pub rows : List Row

-- `CREATE TABLE IF NOT EXISTS` on a new file.
unfoldable pub init : Store
init = record { rows = [] }

unfoldable pub reason_to_str : EndReason → String
reason_to_str EndReason.lock = "LOCK"
reason_to_str EndReason.logoff = "LOGOFF"
reason_to_str EndReason.suspend = "SUSPEND"
reason_to_str EndReason.console_disconnect = "CONSOLE_DISCONNECT"
reason_to_str EndReason.remote_disconnect = "REMOTE_DISCONNECT"
reason_to_str EndReason.agent_restart = "AGENT_RESTART"
reason_to_str EndReason.agent_shutdown = "AGENT_SHUTDOWN"

abbrev pub has_id : Uuid → Row → Bool
has_id id r = r.id == id

-- SQLITE_CONSTRAINT_PRIMARYKEY.
abbrev constraint : ℕ
constraint = 1555

-- `INSERT INTO usage_session`, with the check of the primary key.
unfoldable pub insert_row : Option ℕ → Row → Store → Result StoreError Uuid × Store
insert_row (some code) r s = (err (sqlite code), s)
insert_row none r s =
    if any (has_id r.id) s.rows
    then (err (sqlite constraint), s)
    else (ok r.id, record s { rows = s.rows ++ r ∷ [] })

-- `id` is the fresh `Uuid::new_v4()`.
unfoldable pub start_session : Option ℕ → Uuid → DateTime → Store → Result StoreError Uuid × Store
unfolding insert_row
start_session fault id start s =
    insert_row fault (record { id = id; start_utc = start; end_utc = none; end_reason = none }) s

abbrev pub finish : Uuid → DateTime → EndReason → Row → Row
finish id end reason r =
    if has_id id r
    then record r { end_utc = some end; end_reason = some (reason_to_str reason) }
    else r

unfoldable pub end_session :
    Option ℕ → Uuid → DateTime → EndReason → Store → Result StoreError (Unit {0}) × Store
end_session (some code) id end reason s = (err (sqlite code), s)
end_session none id end reason s = (ok tt, record s { rows = map (finish id end reason) s.rows })

abbrev pub is_open : Row → Bool
is_open r = not (is_some r.end_utc)

-- `ORDER BY start_utc DESC LIMIT 1`: the latest start, the first of several.
unfoldable pub latest : List Row → Option Row
latest [] = none
latest (r ∷ rows) = elim (latest rows) [
  | none ↦ some r
  | some best ↦ if ltb r.start_utc best.start_utc then some best else some r
]

abbrev pub dangling : List Row → Option (Uuid × DateTime)
dangling rows = elim (latest (keep is_open rows)) [
  | none ↦ none
  | some r ↦ some (r.id, r.start_utc)
]

unfoldable pub find_dangling_session :
    Option ℕ → Store → Result StoreError (Option (Uuid × DateTime))
unfolding latest
find_dangling_session (some code) s = err (sqlite code)
find_dangling_session none s = ok (dangling s.rows)

unfoldable pub insert_closed_session :
    Option ℕ → Uuid → UsageSessionRecord → Store → Result StoreError Uuid × Store
unfolding insert_row
insert_closed_session fault id r s =
    insert_row fault
      (record {
        id = id;
        start_utc = r.start;
        end_utc = some r.end;
        end_reason = some (reason_to_str r.end_reason);
      })
      s
