-- ===== src/Messages/Apply.antt =====
-- What `MessageStore::apply` makes of the messages that arrive.
use timelord.Prelude.{
  ◌≡◌, ◌≢◌, refl, ap, ◌∙◌, true, false, List, [], ◌∷◌, ◌++◌, ◌==◌, keep, any, ℕ, All, Pairwise,
  All-map, All-append, All-keep, keep_everything, Pairwise-append, Pairwise-keep, arith, Bool-cases,
  inl, inr,
}
use timelord.Prelude.Int.{ℤ, eq_of_parts, ◌≤ℤ◌, leb_ℤ}
use timelord.Prelude.Text.{same_text, same_text_refl, same_option_refl, same_list_refl}
use timelord.Prelude.Time.{DateTime}
use timelord.Protocol.{AgentMessage}
use timelord.Messages.Receiving.{
  has_message, cursor_grows, cursor_passes, absent, IsAdded, receive_all_adds,
}
use timelord.Messages.{
  MessageStore, max_ℤ, receive, receive_all, is_live, drop_expired, same_ℤ, same_message,
  same_store, apply,
}

abbrev pub IsCovered : MessageStore → AgentMessage → Type 0
IsCovered s m = (m.seq ≤ℤ s.last_seq)

-- No two messages have one id, and the cursor has passed each.
pub record IsWellFormed (s : MessageStore) : Type 0 where
  pub distinct : Pairwise (λ m n. m.id ≢ n.id) s.messages
  pub covered : All (IsCovered s) s.messages

receive-IsWellFormed :
    (m : AgentMessage) (s : MessageStore) → IsWellFormed s → IsWellFormed (receive m s)
unfolding receive
receive-IsWellFormed m s w =
    let grown =
      All-map {Q = IsCovered (receive m s)} (λ x h. ground (arith, (cursor_grows m s).0)) s.messages
        w.covered in
    elim (Bool-cases (any (λ x. x.id == m.id) s.messages)) [
      | inl old ↦ rw old (record { distinct = w.distinct; covered = grown })
      | inr new ↦ rw new (record {
        distinct =
            Pairwise-append (λ m n. m.id ≢ n.id) s.messages (m ∷ []) w.distinct (tt, tt)
              (All-map (λ x h. (h, tt)) s.messages (absent m.id s.messages new));
        covered =
            All-append (IsCovered (receive m s)) s.messages (m ∷ []) grown
              ((cursor_grows m s).1, tt);
      })
    ]

receive_all-IsWellFormed :
    (incoming : List AgentMessage) (s : MessageStore)
    → IsWellFormed s
    → IsWellFormed (receive_all incoming s)
unfolding receive_all
receive_all-IsWellFormed [] s w = w
receive_all-IsWellFormed (m ∷ incoming) s w =
    receive_all-IsWellFormed incoming (receive m s) (receive-IsWellFormed m s w)

-- `apply` keeps the ids distinct and the cursor at or past every stored message.
pub apply-IsWellFormed :
    (incoming : List AgentMessage) (now : DateTime) (s : MessageStore)
    → IsWellFormed s
    → IsWellFormed (apply incoming now s).1
unfolding apply drop_expired
apply-IsWellFormed incoming now s w =
    let r = receive_all-IsWellFormed incoming s w in
    record {
      distinct =
          Pairwise-keep (λ m n. m.id ≢ n.id) (is_live now) (receive_all incoming s).messages
            r.distinct;
      covered =
          All-keep (IsCovered (receive_all incoming s)) (is_live now)
            (receive_all incoming s).messages r.covered;
    }

-- `apply` stores the old messages and after them new ones, less those that have expired. The new ones
-- are incoming ones in their order, their ids differ from each other and from the ids of the old ones,
-- old and new have a message of every id that came in, and that message is the one that comes first
-- among the old and the incoming ones. The cursor does not go back and passes every message that came
-- in, expired ones too.
pub apply_stores :
    (incoming : List AgentMessage) (now : DateTime) (s : MessageStore)
    → (new : List AgentMessage) × ((apply incoming now s).1.messages
        ≡ keep (is_live now) (s.messages ++ new))
      × IsAdded incoming s.messages new
      × All (λ m. m.seq ≤ℤ (apply incoming now s).1.last_seq) incoming
      × (s.last_seq ≤ℤ (apply incoming now s).1.last_seq)
unfolding apply drop_expired
apply_stores incoming now s =
    let (new, split, added) = receive_all_adds incoming s in
    let (seqs, grown) = cursor_passes incoming s in
    (new, ap (keep (is_live now)) split, added, seqs, grown)

same_ℤ_refl : (a : ℤ) → same_ℤ a a ≡ true
same_ℤ_refl a = ground arith

same_ℕ_refl : (n : ℕ) → (n == n) ≡ true
same_ℕ_refl n = ground arith

same_message_refl : (m : AgentMessage) → same_message m m ≡ true
unfolding same_message
same_message_refl m =
    rw
      (
        same_ℤ_refl m.seq,
        same_ℕ_refl m.id,
        same_option_refl same_text same_text_refl m.title,
        same_text_refl m.body,
        same_ℕ_refl m.created_at,
        same_ℕ_refl m.expires_at,
      )
      refl

same_store_refl : (s : MessageStore) → same_store s s ≡ true
unfolding same_store
same_store_refl s =
    rw (same_ℤ_refl s.last_seq, same_list_refl same_message same_message_refl s.messages) refl

max_stays : (a b : ℤ) → b ≤ℤ a → max_ℤ a b ≡ a
max_stays a b le = elim (Bool-cases (leb_ℤ a b)) [
  | inl below ↦ rw below (eq_of_parts b a (ground arith))
  | inr above ↦ rw above refl
]

receive_again :
    (m : AgentMessage) (s : MessageStore)
    → has_message m.id s ≡ true
    → m.seq ≤ℤ s.last_seq
    → receive m s ≡ s
unfolding receive
receive_again m s h le = rw (h, max_stays s.last_seq m.seq le) refl

receive_all_again :
    (incoming : List AgentMessage) (s : MessageStore)
    → All (λ m. has_message m.id s ≡ true) incoming
    → All (λ m. m.seq ≤ℤ s.last_seq) incoming
    → receive_all incoming s ≡ s
unfolding receive_all
receive_all_again [] s h le = refl
receive_all_again (m ∷ incoming) s h le =
    ap (receive_all incoming) (receive_again m s h.0 le.0) ∙ receive_all_again incoming s h.1 le.1

drop_none :
    (now : DateTime) (s : MessageStore)
    → All (λ m. is_live now m ≡ true) s.messages
    → drop_expired now s ≡ s
unfolding drop_expired
drop_none now s h = rw (keep_everything (is_live now) s.messages h) refl

-- Messages that the store has, at or before its cursor, change nothing while nothing expires, and
-- `apply` says so: there is nothing to persist.
pub apply_again :
    (incoming : List AgentMessage) (now : DateTime) (s : MessageStore)
    → All (λ m. has_message m.id s ≡ true) incoming
    → All (λ m. m.seq ≤ℤ s.last_seq) incoming
    → All (λ m. is_live now m ≡ true) s.messages
    → apply incoming now s ≡ (false, s)
unfolding apply
apply_again incoming now s h le l =
    rw (receive_all_again incoming s h le, drop_none now s l, same_store_refl s) refl
