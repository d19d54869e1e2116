-- ===== src/Notifier/LogFile.antt =====
-- notifier/src/logfile.rs: the log with its one rotated predecessor, as lists of bytes. The line with
-- its time stamp is an argument, as are the failures of the file system.
use timelord.Prelude.{
  ℕ, ◌+◌, ◌*◌, ◌≤◌, ◌≡◌, refl, Bool, false, not, ◌&&◌, Option, none, some, List, [], ◌∷◌, ◌++◌,
  unwrap_or, length, length-append, take, ltb, length-take, All, arith, Bool-cases, inl, inr,
  if◌then◌else◌,
}

abbrev pub max_bytes : ℕ
max_bytes = 256 * 1024

pub record LogFiles : Type 0 where
  pub current : Option (List ℕ)
  pub old : Option (List ℕ)

-- `rename_fails`: whether the rotation does. `kept`: how many bytes of the line are written, all of it
-- if there are not more.
pub record Append : Type 0 where
  pub rename_fails : Bool
  pub kept : ℕ
  pub line : List ℕ

abbrev pub size : Option (List ℕ) → ℕ
size none = 0
size (some bytes) = length bytes

-- The rename replaces a log that was rotated before.
unfoldable pub rotate : Bool → ℕ → LogFiles → LogFiles
rotate rename_fails limit f =
    if ltb limit (size f.current) && not rename_fails
    then record { current = none; old = f.current }
    else f

unfoldable pub append : Append → ℕ → LogFiles → LogFiles
unfolding rotate
append a limit f =
    let f' = rotate a.rename_fails limit f in
    record f' { current = some (unwrap_or f'.current [] ++ take a.kept a.line) }

unfoldable pub append_each : List Append → ℕ → LogFiles → LogFiles
append_each [] limit f = f
append_each (a ∷ appends) limit f = append_each appends limit (append a limit f)

-- A line that is not longer than `longest`, and a rotation that works.
abbrev pub IsShort : ℕ → Append → Type 0
IsShort longest a = (length a.line ≤ longest) × (a.rename_fails ≡ false)

abbrev pub IsBounded : ℕ → LogFiles → Type 0
IsBounded bound f = (size f.current ≤ bound) × (size f.old ≤ bound)

rotate-small :
    (a : Append) (limit longest : ℕ) (f : LogFiles)
    → a.rename_fails ≡ false
    → IsBounded (limit + longest) f
    → (size (rotate a.rename_fails limit f).current ≤ limit)
      × (size (rotate a.rename_fails limit f).old ≤ limit + longest)
unfolding rotate
rotate-small a limit longest f h b = elim (Bool-cases (ltb limit (size f.current))) [
  | inl large ↦ rw large (rw h (omega arith, b.0))
  | inr small ↦ rw small (ground (arith, small), b.1)
]

length-or_empty : (bytes : Option (List ℕ)) → length (unwrap_or bytes []) ≡ size bytes
length-or_empty none = refl
length-or_empty (some bytes) = refl

append-IsBounded :
    (a : Append) (limit longest : ℕ) (f : LogFiles)
    → IsShort longest a
    → IsBounded (limit + longest) f
    → IsBounded (limit + longest) (append a limit f)
unfolding append
append-IsBounded a limit longest f s b =
    let f' = rotate a.rename_fails limit f in
    let (now, before) = rotate-small a limit longest f s.1 b in
    (
      omega (
        arith,
        length-append {0} (unwrap_or f'.current []) (take a.kept a.line),
        length-or_empty f'.current,
        length-take {0} a.kept a.line,
      ),
      before,
    )

-- The log and its predecessor stay bounded: if the lines have at most `longest` bytes and renaming
-- works, neither file ever has more than the limit and one line, if neither has at first.
pub append_each-IsBounded :
    (appends : List Append) (limit longest : ℕ) (f : LogFiles)
    → All (IsShort longest) appends
    → IsBounded (limit + longest) f
    → IsBounded (limit + longest) (append_each appends limit f)
unfolding append_each
append_each-IsBounded [] limit longest f s b = b
append_each-IsBounded (a ∷ appends) limit longest f s b =
    append_each-IsBounded appends limit longest (append a limit f) s.1
      (append-IsBounded a limit longest f s.0 b)
