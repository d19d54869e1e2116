-- ===== src/Notifier/Wording.antt =====
-- notifier/src/text.rs: the wording of warnings and messages. A text that is put together is the list
-- of its code points.
pub mod Phrase
use timelord.Prelude.{
  ℕ, zero, suc, ◌+◌, ◌/◌, ◌%◌, Bool, Option, List, [], ◌∷◌, ◌++◌, String, ltb, leb, unwrap_or,
  if◌then◌else◌,
}
use timelord.Prelude.Int.{ℤ, pos_part}
use timelord.Prelude.Trim.{codes}
use timelord.Ipc.{Action, Reason}
use timelord.Engine.{ToastDue}

pub record ToastText : Type 0 where
  pub title : List ℕ
  pub body : List ℕ
  pub urgent : Bool

abbrev pub what : Action → List ℕ
what Action.shutdown = codes "shut down"
what Action.restart = codes "restart"
what Action.sleep = codes "go to sleep"
what Action.logoff = codes "sign you out"
what Action.lock = codes "lock"
what Action.break_start = codes "start a break"

abbrev pub why : Reason → List ℕ
why Reason.schedule = codes "Scheduled"
why Reason.daily_limit = codes "Daily limit reached"
why Reason.mandatory_break = codes "Time for a break"
why Reason.remote_command = codes "Requested by an administrator"

-- The decimal print of a number: fuel `n + 1` is enough for `n`, which each round divides by ten.
unfoldable pub digits : ℕ → ℕ → List ℕ → List ℕ
digits zero n out = out
digits (suc fuel) n out =
    let rest = digits fuel (n / 10) ((b'0' + n % 10) ∷ out) in
    if ltb n 10 then (b'0' + n) ∷ out else rest

unfoldable pub decimal : ℕ → List ℕ
unfolding digits
decimal n = digits (suc n) n []

unfoldable pub remaining_phrase : ℤ → List ℕ
remaining_phrase remaining =
    let seconds = pos_part remaining in
    if leb 120 seconds
    then codes "in " ++ decimal ((seconds + 30) / 60) ++ codes " minutes"
    else if leb 60 seconds
    then codes "in 1 minute"
    else if leb seconds 1
    then codes "in 1 second"
    else codes "in " ++ decimal seconds ++ codes " seconds"

unfoldable pub warning : ToastDue → List ℕ → ToastText
warning due at_local = record {
  title =
      codes "This computer will "
      ++ (what due.action.action ++ (codes " " ++ remaining_phrase due.remaining));
  body =
      why due.action.reason
      ++ (codes ": "
          ++ (what due.action.action ++ (codes " at " ++ (at_local ++ codes ". Save your work."))));
  urgent = leb due.threshold 60;
}

unfoldable pub message : Option String → String → ToastText
message title body = record {
  title = codes (unwrap_or title "TimeLord");
  body = codes body;
  urgent = Bool.false;
}
