-- ===== src/Ipc.antt =====
-- ipc/src/lib.rs: the wire types of the local pipe between the agent and the notifier.
use timelord.Prelude.{ℕ, ◌*◌, Option, List, String}
use timelord.Prelude.Time.{DateTime, Uuid}

abbrev pub horizon_seconds : ℕ
horizon_seconds = 30 * 60

pub data Action : Type 0 where
  shutdown restart sleep logoff lock break_start : Action

pub data Reason : Type 0 where
  schedule daily_limit mandatory_break remote_command : Reason

pub record PendingAction : Type 0 where
  pub id : Uuid
  pub action : Action
  pub at_utc : DateTime
  pub reason : Reason

pub record Message : Type 0 where
  pub id : Uuid
  pub title : Option String
  pub body : String
  pub sent_utc : DateTime
  pub expires_utc : DateTime

pub data Request : Type 0 where
  get_pending get_messages : Request

pub data Response : Type 0 where
  pending : DateTime → List PendingAction → Response
  messages : DateTime → List Message → Response
