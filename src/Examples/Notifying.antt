-- ===== src/Examples/Notifying.antt =====
-- The theorems on the notifier's texts, files and restarts, applied.
use timelord.Prelude.{
  ℕ, ◌+◌, ◌≤◌, ◌≡◌, refl, true, none, some, List, [], ◌∷◌, ◌++◌, ◌&&◌, false, if◌then◌else◌, String,
}
use timelord.Prelude.File.{missing}
use timelord.Prelude.Result.{Result, ok, err}
use timelord.Prelude.Time.{DateTime}
use timelord.Prelude.Trim.{codes}
use timelord.Ipc.{Message, Response, pending, messages}
use timelord.Notifier.{Round, start}
use timelord.Notifier.Markup.{toast_xml}
use timelord.Notifier.Markup.Reading.{read-toast_xml}
use timelord.Notifier.Markup.Xml.{line_ends, is_text, read_toast}
use timelord.Notifier.Restart.{
  Happening, turn, restarted, run, times_shown, shown_once_across_restarts,
}
use timelord.Notifier.Wording.{ToastText}

-- A message that has a tag, an entity, quotes and a line end of Windows in it.
abbrev tricky : ToastText
tricky = record {
  title = codes "<b> & \"c\"";
  body = codes "it's &lt; 5" ++ b'\r' ∷ b'\n' ∷ codes "]]>";
  urgent = true;
}

read-toast_xml_example : read_toast (toast_xml tricky) ≡ (
    if is_text tricky.title && is_text tricky.body
    then some
        (record tricky { title = line_ends false tricky.title; body = line_ends false tricky.body })
    else none)
read-toast_xml_example = read-toast_xml tricky

abbrev supper : Message
supper = record { id = 4; title = none; body = "Dinner"; sent_utc = 1; expires_utc = 100 }

abbrev evening_round : DateTime → Result String Response → Round
evening_round now answer = record {
  messages_answer = answer;
  save_failure = none;
  first_reading = now;
  second_reading = now + 3;
  pending_answer = ok (pending now []);
}

-- Shown, and then restarted twice, with a service that does not answer in between.
abbrev restarts : List Happening
restarts =
    turn (evening_round 5 (ok (messages 5 (supper ∷ []))))
    ∷ restarted
    ∷ turn (evening_round 15 (err "no pipe"))
    ∷ restarted
    ∷ turn (evening_round 25 (ok (messages 25 (supper ∷ []))))
    ∷ []

abbrev no_time : DateTime → List ℕ
no_time at = codes "now"

shown_once_across_restarts_example : times_shown 4 (run no_time restarts (start missing)) ≤ 1
shown_once_across_restarts_example =
    shown_once_across_restarts 4 no_time missing restarts
      ((refl, refl), (tt, ((refl, tt), (tt, ((refl, refl), tt)))))
