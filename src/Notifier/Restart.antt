-- ===== src/Notifier/Restart.antt =====
-- The messages across restarts of the notifier: what the file of shown ids is for.
use timelord.Prelude.{ℕ, ◌+◌, ◌≤◌, ◌≡◌, sym, none, List, [], ◌∷◌, All, arith, if◌then◌else◌}
use timelord.Prelude.File.{CacheFile}
use timelord.Prelude.Set.{member}
use timelord.Prelude.Time.{DateTime, Uuid}
use timelord.Notifier.{Notifier, Effect, Round, start, round}
use timelord.Notifier.Once.{IsSaved, Lists, shows, start-IsSaved, start-shown_file, round-IsOnce}

-- In how many of the lists of effects a message is shown.
abbrev pub times_shown : Uuid → List (List Effect) → ℕ
times_shown id [] = 0
times_shown id (effects ∷ lists) = (if shows id effects then 1 else 0) + times_shown id lists

-- The notifier runs round after round, and may be ended and started again between two of them.
pub data Happening : Type 0 where
  turn : Round → Happening
  restarted : Happening

unfoldable pub run : (DateTime → List ℕ) → List Happening → Notifier → List (List Effect)
run local_time [] n = []
run local_time (turn x ∷ happenings) n =
    let (effects, wait, n') = round local_time x n in effects ∷ run local_time happenings n'
run local_time (restarted ∷ happenings) n = run local_time happenings (start n.shown_file)

-- The ids can be saved, and the service goes on reporting the message where it answers.
abbrev pub IsLasting : Uuid → Happening → Type 0
IsLasting id (turn x) = (x.save_failure ≡ none) × Lists id x.messages_answer
IsLasting id restarted = Unit {0}

run_once :
    (id : Uuid) (local_time : DateTime → List ℕ) (happenings : List Happening) (n : Notifier)
    → IsSaved n
    → All (IsLasting id) happenings
    → (if member id n.tracker.shown then 1 else 0) + times_shown id (run local_time happenings n)
      ≤ 1
unfolding run
run_once id local_time [] n h l = ground arith
run_once id local_time (turn x ∷ happenings) n h l =
    let once = round-IsOnce id local_time x n l.0.0 l.0.1 h in
    let rest = run_once id local_time happenings (round local_time x n).2 once.saved l.1 in
    ground (arith, once.known, once.quiet, rest)
run_once id local_time (restarted ∷ happenings) n h l =
    let rest =
      run_once id local_time happenings (start n.shown_file) (start-IsSaved n.shown_file) l.1 in
    ground (arith, rest, sym (start-IsSaved n.shown_file id), h id, start-shown_file n.shown_file)

-- As long as the ids of shown messages can be saved, a message that the service keeps reporting is
-- shown in at most one round, however often the notifier is ended between its rounds and started
-- again, from whatever file it first starts.
pub shown_once_across_restarts :
    (id : Uuid) (local_time : DateTime → List ℕ) (file : CacheFile (List Uuid))
    (happenings : List Happening)
    → All (IsLasting id) happenings
    → times_shown id (run local_time happenings (start file)) ≤ 1
shown_once_across_restarts id local_time file happenings l =
    omega (arith, run_once id local_time happenings (start file) (start-IsSaved file) l)
