-- ===== src/Examples/Notices.antt =====
-- The theorems on the schedule, the pipe, the notifier, the messages and the clock, applied.
use timelord.Prelude.{
  ℕ, ◌+◌, ◌*◌, ◌≤◌, ◌≡◌, refl, true, none, some, List, [], ◌∷◌, ◌++◌, any, keep, All, length, ◌==◌,
  arith,
}
use timelord.Prelude.Int.{ℤ, pos, ◌≤ℤ◌, ◌+ℤ◌}
use timelord.Prelude.Sort.{IsSorted}
use timelord.Prelude.Time.{DateTime, Uuid, second}
use timelord.Protocol.{AgentMessage}
use timelord.Schedule.{active_window}
use timelord.Ipc.{Action, Reason, PendingAction, Message}
use timelord.Pipe.{upcoming_actions}
use timelord.Pipe.Upcoming.{enforced_is_announced}
use timelord.Engine.{Engine, MessageTracker, crossed, update, is_fresh, take_new}
use timelord.Engine.Warnings.{warned_once, total, poll_each, times, fired_once}
use timelord.Engine.Due.{warns_when_due}
use timelord.Engine.Shown.{IsNew, take_new_correct}
use timelord.Messages.{MessageStore, apply, is_live}
use timelord.Messages.Receiving.{IsAdded}
use timelord.Messages.Apply.{apply_stores}
use timelord.Clock.Median.{median_robust}
use timelord.Prelude.Result.{ok}
use timelord.Clock.{median, to_ntp, query, zeros}
use timelord.Clock.Ntp.{answered_at}
use timelord.Clock.Answer.{answer, exchange}
use timelord.Clock.Measured.{accepted_and_close}
use timelord.Examples.{evening}

-- An id for an action at an instant.
abbrev id_at : Action → DateTime → Uuid
id_at action at = at

enforced_is_announced_example :
    any (λ a. a.at_utc == 3600 * second) (upcoming_actions id_at (some evening) (3000 * second))
    ≡ true
unfolding active_window
enforced_is_announced_example =
    enforced_is_announced id_at evening (3000 * second) (4000 * second)
      (record { off_at = 3600 * second; on_at = 7200 * second }) refl (omega arith) (omega arith)
      refl

-- Sleep in 200 seconds.
abbrev bedtime : PendingAction
bedtime = record { id = 7; action = Action.sleep; at_utc = 200 * second; reason = Reason.schedule }

abbrev idle_engine : Engine
idle_engine = record { fired = []; known = [] }

warned_once_example :
    total 7 300 (poll_each ((bedtime ∷ [], 0) ∷ (bedtime ∷ [], 10 * second) ∷ []) idle_engine).0
      + fired_once 7 300 idle_engine.fired
    ≤ 1
warned_once_example =
    warned_once 7 300 ((bedtime ∷ [], 0) ∷ (bedtime ∷ [], 10 * second) ∷ []) idle_engine
      (refl, (refl, tt))

warns_when_due_example :
    times 7 300 (update (bedtime ∷ []) 0 idle_engine).0.toasts + fired_once 7 300 idle_engine.fired
    ≡ 1
unfolding crossed
warns_when_due_example = warns_when_due bedtime 300 (bedtime ∷ []) 0 idle_engine ([], [], refl) refl

abbrev dinner : Message
dinner = record { id = 4; title = none; body = "Dinner"; sent_utc = 1; expires_utc = 100 }

abbrev nothing_shown : MessageTracker
nothing_shown = record { shown = [] }

take_new_correct_example :
    IsSorted (λ m. m.sent_utc) (take_new (dinner ∷ []) 2 nothing_shown).0
    × All (IsNew 2 nothing_shown) (take_new (dinner ∷ []) 2 nothing_shown).0
    × (length (keep (λ m. m.id == 4) (take_new (dinner ∷ []) 2 nothing_shown).0)
        ≡ length (keep (λ m. m.id == 4) (keep (is_fresh 2 nothing_shown.shown) (dinner ∷ []))))
take_new_correct_example = take_new_correct (dinner ∷ []) 2 nothing_shown (λ m. m.id == 4)

abbrev note : AgentMessage
note = record {
  seq = pos 4;
  id = 4;
  title = none;
  body = "Dinner";
  created_at = 1;
  expires_at = 100;
}

abbrev one_message : MessageStore
one_message = record { last_seq = pos 4; messages = note ∷ [] }

-- The stored message once more, and another one that comes twice.
abbrev arriving : List AgentMessage
arriving =
    note
    ∷ record note { seq = pos 5; id = 6; body = "Homework" }
    ∷ record note { seq = pos 6; id = 6; body = "Homework again" }
    ∷ []

apply_stores_example :
    (new : List AgentMessage) × ((apply arriving 2 one_message).1.messages
      ≡ keep (is_live 2) (one_message.messages ++ new))
    × IsAdded arriving one_message.messages new
    × All (λ m. m.seq ≤ℤ (apply arriving 2 one_message).1.last_seq) arriving
    × (one_message.last_seq ≤ℤ (apply arriving 2 one_message).1.last_seq)
apply_stores_example = apply_stores arriving 2 one_message

-- The clock is three seconds behind; 40 milliseconds there, 25 at the server, and 10 back.
abbrev an_answer : List ℕ
an_answer = answer 0x24 2 (zeros 22) (pos 1793055600000) (pos 1793055603040) (pos 1793055603065) []

accepted_and_close_example :
    (o : ℤ) × (query (
        some (
          exchange an_answer
            (pos 1793055600000)
            (answered_at (pos 1793055600000) (pos 3000) 40 25 10)))
      ≡ ok o)
    × (o +ℤ o ≤ℤ pos 3000 +ℤ pos 3000 +ℤ pos (40 + 10 + 3))
    × (pos 3000 +ℤ pos 3000 ≤ℤ o +ℤ o +ℤ pos (40 + 10 + 3))
unfolding to_ntp ◌+ℤ◌
accepted_and_close_example =
    accepted_and_close 0x24 2 (zeros 22) [] (pos 1793055600000) (pos 3000) 40 25 10 1793055603040
      1793055603065
      (record {
        mode = refl;
        synchronised = refl;
        in_use = refl;
        length_header = refl;
        has_time = refl;
      })
      refl refl (omega arith) (omega arith) (omega arith) (omega arith)

-- Two servers agree, and a third is a minute and a half off.
abbrev three_offsets : List ℤ
three_offsets = pos 12 ∷ pos 90000 ∷ pos 10 ∷ []

median_robust_example : (m : ℤ) × (median three_offsets ≡ some m) × (pos 5 ≤ℤ m) × (m ≤ℤ pos 20)
median_robust_example = median_robust (pos 5) (pos 20) three_offsets (omega arith)
