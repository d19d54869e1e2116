-- ===== src/Messages.antt =====
-- agent/src/messages.rs: administrator messages waiting to be shown, with the cursor that the
-- controller is polled from.
pub mod Receiving
pub mod Apply
use timelord.Prelude.{
  Bool, not, ◌&&◌, List, [], ◌∷◌, ◌++◌, String, Option, ltb, ◌==◌, keep, any, if◌then◌else◌,
}
use timelord.Prelude.Int.{ℤ, pos, leb_ℤ}
use timelord.Prelude.File.{CacheFile, missing, unreadable, holding}
use timelord.Prelude.Text.{same_text, same_option, same_list}
use timelord.Prelude.Time.{DateTime}
use timelord.Protocol.{AgentMessage}

pub record MessageStore : Type 0 where
  pub last_seq : ℤ
  pub messages : List AgentMessage

-- `MessageStore::default`.
unfoldable pub init : MessageStore
init = record { last_seq = pos 0; messages = [] }

abbrev pub max_ℤ : ℤ → ℤ → ℤ
max_ℤ a b = if leb_ℤ a b then b else a

-- One round of the loop of `apply`.
unfoldable pub receive : AgentMessage → MessageStore → MessageStore
receive m s = record {
  last_seq = max_ℤ s.last_seq m.seq;
  messages = if any (λ x. x.id == m.id) s.messages then s.messages else s.messages ++ m ∷ [];
}

unfoldable pub receive_all : List AgentMessage → MessageStore → MessageStore
receive_all [] s = s
receive_all (m ∷ incoming) s = receive_all incoming (receive m s)

abbrev pub is_live : DateTime → AgentMessage → Bool
is_live now m = ltb now m.expires_at

unfoldable pub drop_expired : DateTime → MessageStore → MessageStore
drop_expired now s = record s { messages = keep (is_live now) s.messages }

abbrev pub same_ℤ : ℤ → ℤ → Bool
same_ℤ a b = leb_ℤ a b && leb_ℤ b a

-- The derived `PartialEq`s.
unfoldable pub same_message : AgentMessage → AgentMessage → Bool
same_message m n =
    same_ℤ m.seq n.seq
    && (m.id == n.id)
    && same_option same_text m.title n.title
    && same_text m.body n.body
    && (m.created_at == n.created_at)
    && (m.expires_at == n.expires_at)

unfoldable pub same_store : MessageStore → MessageStore → Bool
same_store s t = same_ℤ s.last_seq t.last_seq && same_list same_message s.messages t.messages

unfoldable pub apply : List AgentMessage → DateTime → MessageStore → Bool × MessageStore
apply incoming now s =
    let after = drop_expired now (receive_all incoming s) in (not (same_store after s), after)

unfoldable pub live : DateTime → MessageStore → List AgentMessage
live now s = keep (is_live now) s.messages

unfoldable pub load : CacheFile MessageStore → MessageStore
unfolding init
load missing = init
load unreadable = init
load (holding s) = s

unfoldable pub save : Bool → MessageStore → CacheFile MessageStore → CacheFile MessageStore
save fails s file = if fails then file else holding s
