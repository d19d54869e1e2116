-- ===== src/Tracker/Timeline.antt =====
-- The tracker over a list of timestamped events, and the usage sessions that it reports.
use timelord.Prelude.{◌≤◌, Option, none, some, List, [], ◌∷◌, arith}
use timelord.Prelude.Time.{DateTime}
use timelord.Tracker.{
  SessionEvent, UsageSessionRecord, Transition, no_change, started, ended, UsageTracker, apply,
}
use timelord.Tracker.Activity.{apply_explained}

unfoldable pub run : UsageTracker → List (SessionEvent × DateTime) → UsageTracker
run t [] = t
run t ((e, at) ∷ es) = run (apply t e at).0 es

-- A transition with the sessions that later ones report.
abbrev record_of : Transition → List UsageSessionRecord → List UsageSessionRecord
record_of (ended r) rest = r ∷ rest
record_of (started s) rest = rest
record_of no_change rest = rest

-- The usage sessions that end during the run, in the order in which they are reported.
unfoldable pub sessions_of : UsageTracker → List (SessionEvent × DateTime) → List UsageSessionRecord
sessions_of t [] = []
sessions_of t ((e, at) ∷ es) = record_of (apply t e at).1 (sessions_of (apply t e at).0 es)

-- No event is stamped before `now`, and none before an event ahead of it.
abbrev pub IsFrom : DateTime → List (SessionEvent × DateTime) → Type 0
IsFrom now [] = Unit
IsFrom now ((e, at) ∷ es) = (now ≤ at) × IsFrom at es

-- Each session starts no earlier than the one before it ended, and ends no earlier than it starts.
abbrev pub IsTimeline : DateTime → List UsageSessionRecord → Type 0
IsTimeline lo [] = Unit
IsTimeline lo (r ∷ rs) = (lo ≤ r.start) × (r.start ≤ r.end) × IsTimeline r.end rs

-- An open session, if there is one, started between `lo` and `now`.
abbrev pub IsSince : DateTime → Option DateTime → DateTime → Type 0
IsSince lo none now = lo ≤ now
IsSince lo (some s) now = (lo ≤ s) × (s ≤ now)

-- Where the next session may start after a transition.
abbrev bound : DateTime → Transition → DateTime
bound lo (ended r) = r.end
bound lo (started s) = lo
bound lo no_change = lo

step-IsSince :
    (lo now at : DateTime) (t : UsageTracker) (e : SessionEvent)
    → IsSince lo t.open_since now
    → now ≤ at
    → IsSince (bound lo (apply t e at).1) (apply t e at).0.open_since at
step-IsSince lo now at t e h le = ground (arith, apply_explained t e at)

record_of-IsTimeline :
    (lo now at : DateTime) (t : UsageTracker) (e : SessionEvent) (rest : List UsageSessionRecord)
    → IsSince lo t.open_since now
    → now ≤ at
    → IsTimeline (bound lo (apply t e at).1) rest
    → IsTimeline lo (record_of (apply t e at).1 rest)
record_of-IsTimeline lo now at t e rest h le tl = ground (arith, apply_explained t e at)

-- If the events come with times that never go back, the sessions that are reported lie one after
-- the other, none overlaps another, and none ends before it starts.
pub sessions_of-IsTimeline :
    (lo now : DateTime) (t : UsageTracker) (es : List (SessionEvent × DateTime))
    → IsSince lo t.open_since now
    → IsFrom now es
    → IsTimeline lo (sessions_of t es)
unfolding sessions_of
sessions_of-IsTimeline lo now t [] h f = tt
sessions_of-IsTimeline lo now t ((e, at) ∷ es) h f =
    record_of-IsTimeline lo now at t e (sessions_of (apply t e at).0 es) h f.0 (
      sessions_of-IsTimeline (bound lo (apply t e at).1) at (apply t e at).0 es
        (step-IsSince lo now at t e h f.0) f.1)
