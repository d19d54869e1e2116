-- ===== src/Schedule.antt =====
-- agent/src/schedule.rs: the off windows that the agent enforces, and its cache on disk.
pub mod Windows
pub mod Equality
use timelord.Prelude.{
  ℕ, Bool, ◌&&◌, ◌||◌, Option, none, some, List, [], ◌∷◌, String, map, ltb, leb, find, keep,
  if◌then◌else◌, minimum, true, false, ◌==◌,
}
use timelord.Prelude.File.{CacheFile, missing, unreadable, holding}
use timelord.Prelude.Text.{same_text, same_list}
use timelord.Prelude.Time.{DateTime, Duration}

pub data PowerAction : Type 0 where
  sleep shutdown : PowerAction

unfoldable pub event_name : PowerAction → String
event_name sleep = "SUSPEND"
event_name shutdown = "SHUTDOWN"

pub record OffWindow : Type 0 where
  pub off_at : DateTime
  pub on_at : DateTime

pub record Schedule : Type 0 where
  pub revision : String
  pub action : PowerAction
  pub timezone : String
  pub windows : List OffWindow

-- The closure of `active_window`'s `find`.
abbrev pub is_within : DateTime → OffWindow → Bool
is_within now w = leb w.off_at now && ltb now w.on_at

unfoldable pub active_window : Schedule → DateTime → Option OffWindow
active_window s now = find (is_within now) s.windows

unfoldable pub next_off_at : Schedule → DateTime → Option DateTime
next_off_at s now = minimum (keep (λ t. ltb now t) (map (λ w. w.off_at) s.windows))

unfoldable pub enforcement_ready : Bool → Duration → Duration → Bool
enforcement_ready synced unsynced_for grace = synced || leb grace unsynced_for

-- The derived `PartialEq`s.
abbrev pub same_action : PowerAction → PowerAction → Bool
same_action sleep sleep = true
same_action sleep shutdown = false
same_action shutdown sleep = false
same_action shutdown shutdown = true

abbrev pub same_window : OffWindow → OffWindow → Bool
same_window v w = (v.off_at == w.off_at) && (v.on_at == w.on_at)

unfoldable pub same_schedule : Schedule → Schedule → Bool
same_schedule s t =
    same_text s.revision t.revision
    && same_action s.action t.action
    && same_text s.timezone t.timezone
    && same_list same_window s.windows t.windows

unfoldable pub load : CacheFile Schedule → Option Schedule
load missing = none
load unreadable = none
load (holding s) = some s

-- `fails` is whether an operation on the files fails. Removing a file that is missing does not.
unfoldable pub save : Bool → Option Schedule → CacheFile Schedule → CacheFile Schedule
save true schedule file = file
save false none file = missing
save false (some s) file = holding s
