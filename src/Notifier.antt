-- ===== src/Notifier.antt =====
-- notifier/src/main.rs and notifier/src/state.rs: the notifier's loop, and the file of the messages
-- that were shown. An answer of the service's pipe is an argument, and what the user sees is the
-- result. The user's local time in print is an argument too.
pub mod Wording
pub mod Markup
pub mod LogFile
mod Once
pub mod Restart
use timelord.Prelude.{
  ℕ, ◌+◌, ◌-◌, Bool, true, false, Option, none, some, List, [], ◌∷◌, ◌++◌, map, String, unwrap_or,
  ◌==◌, if◌then◌else◌,
}
use timelord.Prelude.File.{CacheFile, missing, unreadable, holding}
use timelord.Prelude.Result.{Result, ok, err}
use timelord.Prelude.Text.{same_list}
use timelord.Prelude.Time.{DateTime, Duration, Uuid, from_secs}
use timelord.Prelude.Trim.{codes}
use timelord.Ipc.{Message, Response, pending, messages}
use timelord.Engine
use timelord.Engine.{
  Engine, MessageTracker, Tick, ToastDue, update, with_shown, shown_ids, take_new,
}
use timelord.Notifier.Wording.{ToastText, warning, message}

unfoldable pub load_shown : CacheFile (List Uuid) → List Uuid
load_shown missing = []
load_shown unreadable = []
load_shown (holding ids) = ids

-- `fails` is whether an operation on the files fails.
unfoldable pub save_shown : Bool → List Uuid → CacheFile (List Uuid) → CacheFile (List Uuid)
save_shown fails ids file = if fails then file else holding ids

pub record Notifier : Type 0 where
  pub engine : Engine
  pub tracker : MessageTracker
  pub service_was_down : Bool
  pub shown_file : CacheFile (List Uuid)

-- What the user gets to see: the calls of `ui`, and the lines of the log.
pub data Effect : Type 0 where
  dismiss_warning : Uuid → Effect
  show_warning : Uuid → ToastText → Effect
  show_message : Uuid → ToastText → Effect
  log : List ℕ → Effect

unfoldable pub start : CacheFile (List Uuid) → Notifier
start file = record {
  engine = Engine.init;
  tracker = with_shown (load_shown file);
  service_was_down = false;
  shown_file = file;
}

abbrev pub message_effect : Message → Effect
message_effect m = show_message m.id (message m.title m.body)

abbrev pub same_ids : List Uuid → List Uuid → Bool
same_ids s t = same_list (λ a b. a == b) s t

-- The second half of `show_new_messages`: the ids are saved if they have changed.
unfoldable pub remember_shown : Option String → MessageTracker → Notifier → List Effect × Notifier
unfolding save_shown
remember_shown failure t n =
    if same_ids (shown_ids t) (shown_ids n.tracker)
    then ([], record n { tracker = t })
    else elim failure [
      | none ↦
          ([], record n { tracker = t; shown_file = save_shown false (shown_ids t) n.shown_file })
      | some reason ↦ (
        log (codes "could not save shown messages: " ++ codes reason) ∷ [],
        record n { tracker = t; shown_file = save_shown true (shown_ids t) n.shown_file },
      )
    ]

-- `failure` is the error that saving ends with, if any.
unfoldable pub show_new_messages :
    Result String Response → Option String → Notifier → List Effect × Notifier
unfolding remember_shown
show_new_messages (err reason) failure n = ([], n)
show_new_messages (ok (pending server_utc actions)) failure n = ([], n)
show_new_messages (ok (messages server_utc ms)) failure n =
    let (fresh, t) = take_new ms server_utc n.tracker in
    let (logged, n') = remember_shown failure t n in (map message_effect fresh ++ logged, n')

abbrev pub warning_effect : (DateTime → List ℕ) → ToastDue → Effect
warning_effect local_time due =
    show_warning due.action.id (warning due (local_time due.action.at_utc))

-- The reaction to an answer to `GetPending`, with the two readings of the user's clock: the effects,
-- the time to wait, and the new state.
unfoldable pub poll_pending :
    (DateTime → List ℕ)
    → DateTime
    → DateTime
    → Result String Response
    → Notifier
    → List Effect × Duration × Notifier
poll_pending local_time first second (ok (pending server_utc actions)) n =
    let (tick, engine) = update actions (server_utc + second - first) n.engine in
    (
      map dismiss_warning tick.cancelled ++ map (warning_effect local_time) tick.toasts,
      unwrap_or tick.next_poll (from_secs 10),
      record n { engine = engine; service_was_down = false },
    )
poll_pending local_time first second (ok (messages server_utc ms)) n = ([], from_secs 10, n)
poll_pending local_time first second (err reason) n = (
  if n.service_was_down then [] else log (codes "service unavailable: " ++ codes reason) ∷ [],
  from_secs 10,
  record n { service_was_down = true },
)

-- What one round of the loop is given.
pub record Round : Type 0 where
  pub messages_answer : Result String Response
  pub save_failure : Option String
  pub first_reading : DateTime
  pub second_reading : DateTime
  pub pending_answer : Result String Response

unfoldable pub round : (DateTime → List ℕ) → Round → Notifier → List Effect × Duration × Notifier
unfolding show_new_messages poll_pending
round local_time x n =
    let (shown, n') = show_new_messages x.messages_answer x.save_failure n in
    let (warned, wait, n'') =
      poll_pending local_time x.first_reading x.second_reading x.pending_answer n' in
    (shown ++ warned, wait, n'')
