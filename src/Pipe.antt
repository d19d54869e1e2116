-- ===== src/Pipe.antt =====
-- agent/src/notify_pipe.rs: the answers to the notifier. Parsing a line and printing an answer are
-- serde_json's, and the ids of actions are the uuid crate's name-based ones; both are parameters.
pub mod Upcoming
use mathlib.Core.Option.{bind}
use timelord.Prelude.{
  ℕ, ◌+◌, Bool, ◌&&◌, Option, none, some, List, [], ◌∷◌, String, map, keep, ltb, leb,
}
use timelord.Prelude.Time.{DateTime, Uuid, from_secs}
use timelord.Protocol.{AgentMessage}
use timelord.Schedule.{PowerAction, sleep, shutdown, OffWindow, Schedule}
use timelord.Ipc.{horizon_seconds, Action, Reason, PendingAction, Message, Request, Response}

unfoldable pub announced : PowerAction → Action
announced sleep = Action.sleep
announced shutdown = Action.shutdown

abbrev pub is_upcoming : DateTime → OffWindow → Bool
is_upcoming now w = ltb now w.off_at && leb w.off_at (now + from_secs horizon_seconds)

-- `Uuid::new_v5` of the action and its instant.
module _ (new_v5 : Action → DateTime → Uuid) where
  unfoldable pub pending_action : Action → OffWindow → PendingAction
  pending_action action w = record {
    id = new_v5 action w.off_at;
    action = action;
    at_utc = w.off_at;
    reason = Reason.schedule;
  }

  unfoldable pub upcoming_actions : Option Schedule → DateTime → List PendingAction
  unfolding pending_action announced
  upcoming_actions none now = []
  upcoming_actions (some s) now =
      map (pending_action (announced s.action)) (keep (is_upcoming now) s.windows)

unfoldable pub to_message : AgentMessage → Message
to_message m = record {
  id = m.id;
  title = m.title;
  body = m.body;
  sent_utc = m.created_at;
  expires_utc = m.expires_at;
}

module _ (new_v5 : Action → DateTime → Uuid) (from_str : String → Option Request)
    (to_string : Response → Option String) where
  unfoldable pub respond : Option Schedule → List AgentMessage → DateTime → Request → Response
  respond schedule messages now Request.get_pending =
      Response.pending now (upcoming_actions new_v5 schedule now)
  respond schedule messages now Request.get_messages =
      Response.messages now (map to_message (keep (λ m. ltb now m.expires_at) messages))

  unfoldable pub handle_line :
      String → Option Schedule → List AgentMessage → DateTime → Option String
  unfolding respond
  handle_line line schedule messages now =
      bind (from_str line) (λ r. to_string (respond schedule messages now r))
