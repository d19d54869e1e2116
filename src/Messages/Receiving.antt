-- ===== src/Messages/Receiving.antt =====
-- agent/src/messages.rs: the loop of `MessageStore::apply` over the messages that arrive.
use mathlib.Core.Path.{subst}
use mathlib.Core.List.{append_assoc, append-nil, Sublist, nil-sublist}
use mathlib.Core.List.Sublist
use timelord.Prelude.{
  ◌≡◌, ◌≢◌, refl, sym, ap, ◌∙◌, Bool, true, false, List, [], ◌∷◌, ◌++◌, ◌==◌, any, All, Pairwise,
  All-map, All-of_all, any-append, arith, Bool-cases, inl, inr, find, is_some, find-any,
}
use timelord.Prelude.Int.{◌≤ℤ◌}
use timelord.Prelude.Time.{Uuid}
use timelord.Protocol.{AgentMessage}
use timelord.Messages.{MessageStore, receive, receive_all}

abbrev pub has_message : Uuid → MessageStore → Bool
has_message id s = any (λ m. m.id == id) s.messages

pub cursor_grows :
    (m : AgentMessage) (s : MessageStore)
    → (s.last_seq ≤ℤ (receive m s).last_seq) × (m.seq ≤ℤ (receive m s).last_seq)
unfolding receive
cursor_grows m s = (ground arith, ground arith)

pub absent :
    (id : Uuid) (ms : List AgentMessage)
    → any (λ m. m.id == id) ms ≡ false
    → All (λ m. m.id ≢ id) ms
absent id [] h = tt
absent id (m ∷ ms) h = ((λ e. ground (arith, h, e)), absent id ms (ground (arith, h)))

pub cursor_passes :
    (incoming : List AgentMessage) (s : MessageStore)
    → All (λ m. m.seq ≤ℤ (receive_all incoming s).last_seq) incoming
      × (s.last_seq ≤ℤ (receive_all incoming s).last_seq)
unfolding receive_all
cursor_passes [] s = (tt, ground arith)
cursor_passes (m ∷ incoming) s =
    let (kept, passed) = cursor_grows m s in
    let (seqs, grown) = cursor_passes incoming (receive m s) in
    ((ground (arith, passed, grown), seqs), ground (arith, kept, grown))

abbrev pub has_id : Uuid → AgentMessage → Bool
has_id id m = m.id == id

-- What `incoming` adds to the messages that are `there`: some of the incoming messages in their order,
-- no two with one id, none with an id that is there, and for every incoming id the message that comes
-- first.
pub record IsAdded (incoming there new : List AgentMessage) : Type 0 where
  pub in_order : Sublist new incoming
  pub distinct : Pairwise (λ m n. m.id ≢ n.id) new
  pub unknown : All (λ m. any (has_id m.id) there ≡ false) new
  pub complete : All (λ m. any (has_id m.id) (there ++ new) ≡ true) incoming
  pub first_wins :
      All (λ m. find (has_id m.id) (there ++ new) ≡ find (has_id m.id) (there ++ incoming)) incoming

find-found :
    (p : AgentMessage → Bool) (xs ys : List AgentMessage)
    → any p xs ≡ true
    → find p (xs ++ ys) ≡ find p xs
find-found p [] ys h = absurd (ground (arith, h))
find-found p (x ∷ xs) ys h = elim (Bool-cases (p x)) [
  | inl here ↦ rw here refl
  | inr differs ↦ rw differs (find-found p xs ys (ground (arith, h, differs)))
]

-- A message whose id is there is never the first of its id.
find-skip :
    (id : Uuid) (m : AgentMessage) (xs ys : List AgentMessage)
    → any (has_id m.id) xs ≡ true
    → find (has_id id) (xs ++ m ∷ ys) ≡ find (has_id id) (xs ++ ys)
find-skip id m [] ys h = absurd (ground (arith, h))
find-skip id m (x ∷ xs) ys h = elim (Bool-cases (x.id == id)) [
  | inl here ↦ rw here refl
  | inr differs ↦ elim (Bool-cases (x.id == m.id)) [
    | inl same ↦ rw differs (find-other xs (ground (arith, same, differs)))
    | inr other ↦ rw differs (find-skip id m xs ys (ground (arith, h, other)))
  ]
]
  where
    find-other :
        (zs : List AgentMessage)
        → (m.id == id) ≡ false
        → find (has_id id) (zs ++ m ∷ ys) ≡ find (has_id id) (zs ++ ys)
    find-other [] d = rw d refl
    find-other (z ∷ zs) d = elim (Bool-cases (z.id == id)) [
      | inl here ↦ rw here refl
      | inr differs ↦ rw differs (find-other zs d)
    ]

receive_old :
    (m : AgentMessage) (s : MessageStore)
    → any (has_id m.id) s.messages ≡ true
    → (receive m s).messages ≡ s.messages
unfolding receive
receive_old m s old = rw old refl

receive_new :
    (m : AgentMessage) (s : MessageStore)
    → any (has_id m.id) s.messages ≡ false
    → (receive m s).messages ≡ s.messages ++ m ∷ []
unfolding receive
receive_new m s new = rw new refl

first_of_id :
    (id : Uuid) (incoming : List AgentMessage) (s : MessageStore)
    → find (has_id id) (receive_all incoming s).messages ≡ find (has_id id) (s.messages ++ incoming)
unfolding receive_all
first_of_id id [] s = ap (find (has_id id)) (sym (append-nil s.messages))
first_of_id id (m ∷ incoming) s =
    first_of_id id incoming (receive m s) ∙ elim (Bool-cases (any (has_id m.id) s.messages)) [
      | inl old ↦
          ap (λ l. find (has_id id) (l ++ incoming)) (receive_old m s old)
          ∙ sym (find-skip id m s.messages incoming old)
      | inr new ↦
          ap (λ l. find (has_id id) (l ++ incoming)) (receive_new m s new)
          ∙ ap (find (has_id id)) (append_assoc s.messages (m ∷ []) incoming)
    ]

find_again :
    (incoming there : List AgentMessage)
    → All (λ m. any (has_id m.id) (there ++ incoming) ≡ true) incoming
find_again [] there = tt
find_again (m ∷ incoming) there = (
  any-append (has_id m.id) there (m ∷ incoming) ∙ ground arith,
  subst (λ l. All (λ x. any (has_id x.id) l ≡ true) incoming) (append_assoc there (m ∷ []) incoming)
      (find_again incoming (there ++ m ∷ [])),
)

-- The parts of `IsAdded` that say what the new messages are.
abbrev AreNew : List AgentMessage → List AgentMessage → List AgentMessage → Type 0
AreNew incoming there new =
    Sublist new incoming
    × Pairwise (λ m n. m.id ≢ n.id) new
    × All (λ m. any (has_id m.id) there ≡ false) new

unknown-ids :
    (m : AgentMessage) (there new : List AgentMessage)
    → All (λ n. any (has_id n.id) (there ++ m ∷ []) ≡ false) new
    → All (λ n. (m.id ≢ n.id) × (any (has_id n.id) there ≡ false)) new
unknown-ids m there new =
    All-map
      (λ n h.
        let parts = sym (any-append (has_id n.id) there (m ∷ [])) ∙ h in
        ((λ e. ground (arith, parts, e)), ground (arith, parts)))
      new

receives_new :
    (incoming : List AgentMessage) (s : MessageStore)
    → (new : List AgentMessage) × ((receive_all incoming s).messages ≡ s.messages ++ new)
      × AreNew incoming s.messages new
unfolding receive_all
receives_new [] s = ([], sym (append-nil s.messages), (nil-sublist [], tt, tt))
receives_new (m ∷ incoming) s =
    let (new, split, (part, distinct, unknown)) = receives_new incoming (receive m s) in
    let there = s.messages in
    elim (Bool-cases (any (has_id m.id) there)) [
      | inl old ↦
          let e = receive_old m s old in
          (
            new,
            split ∙ ap (λ l. l ++ new) e,
            (
              Sublist.cons m part,
              distinct,
              subst (λ l. All (λ n. any (has_id n.id) l ≡ false) new) e unknown,
            ),
          )
      | inr fresh ↦
          let e = receive_new m s fresh in
          let apart =
            unknown-ids m there new
              (subst (λ l. All (λ n. any (has_id n.id) l ≡ false) new) e unknown) in
          (
            m ∷ new,
            split ∙ ap (λ l. l ++ new) e ∙ append_assoc there (m ∷ []) new,
            (
              Sublist.cons-cons m part,
              (All-map (λ n h. h.0) new apart, distinct),
              (fresh, All-map (λ n h. h.1) new apart),
            ),
          )
    ]

-- Through the messages that are there and the new ones, every id leads to the message that it leads to
-- through those and all incoming ones.
IsAdded-of_first :
    (incoming there new : List AgentMessage)
    → AreNew incoming there new
    → ((id : Uuid) → find (has_id id) (there ++ new) ≡ find (has_id id) (there ++ incoming))
    → IsAdded incoming there new
IsAdded-of_first incoming there new (part, distinct, unknown) first = record {
  in_order = part;
  distinct = distinct;
  unknown = unknown;
  complete =
      All-map
        (λ m h.
          sym (find-any (has_id m.id) (there ++ new))
          ∙ ap is_some (first m.id)
          ∙ find-any (has_id m.id) (there ++ incoming)
          ∙ h)
        incoming (find_again incoming there);
  first_wins =
      All-of_all (λ m. find (has_id m.id) (there ++ new) ≡ find (has_id m.id) (there ++ incoming))
        (λ m. first m.id) incoming;
}

pub receive_all_adds :
    (incoming : List AgentMessage) (s : MessageStore)
    → (new : List AgentMessage) × ((receive_all incoming s).messages ≡ s.messages ++ new)
      × IsAdded incoming s.messages new
receive_all_adds incoming s =
    let (new, split, parts) = receives_new incoming s in
    (
      new,
      split,
      IsAdded-of_first incoming s.messages new parts
          (λ id. ap (find (has_id id)) (sym split) ∙ first_of_id id incoming s),
    )
