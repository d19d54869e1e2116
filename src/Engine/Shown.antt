-- ===== src/Engine/Shown.antt =====
-- `MessageTracker`: each administrator message is shown once.
use timelord.Prelude.{
  ℕ, ◌+◌, ◌≤◌, ◌<◌, ◌≡◌, refl, ap, ◌∙◌, Bool, true, false, ◌&&◌, ◌||◌, List, [], ◌∷◌, map, keep,
  any, All, All-map, keep-All, length, arith, Bool-cases, inl, inr, if◌then◌else◌, any-map, ◌==◌,
}
use timelord.Prelude.Set.{member, add_all, member-add_all, member-keep}
use timelord.Prelude.Sort.{All-sort_by_key, IsSorted, sort_by_key-IsSorted, length-keep-sort_by_key}
use timelord.Prelude.Time.{DateTime, Uuid}
use timelord.Ipc.{Message}
use timelord.Engine.{MessageTracker, is_fresh, fresh_messages, take_new}

abbrev pub is_message : Uuid → Message → Bool
is_message id m = m.id == id

abbrev pub is_in : Uuid → List Message → Bool
is_in id ms = any (is_message id) ms

-- A message that may be shown: reported, live, and not shown before.
abbrev pub IsNew : DateTime → MessageTracker → Message → Type 0
IsNew now t m = (now < m.expires_utc) × (member m.id t.shown ≡ false)

pub shown_member :
    (id : Uuid) (reported : List Message) (now : DateTime) (t : MessageTracker)
    → member id (take_new reported now t).1.shown
      ≡ ((member id t.shown || is_in id (take_new reported now t).0) && is_in id reported)
unfolding take_new
shown_member id reported now t =
    let fresh = fresh_messages reported now t in
    member-keep (λ x. member x (add_all (map (λ m. m.id) reported) [])) id
      (add_all (map (λ m. m.id) fresh) t.shown)
    ∙ ap (λ b. b && member id (add_all (map (λ m. m.id) reported) []))
        (member-add_all id (map (λ m. m.id) fresh) t.shown
          ∙ ap (λ b. member id t.shown || b) (any-map (λ x. x == id) (λ m. m.id) fresh))
    ∙ ap (λ b. (member id t.shown || is_in id fresh) && b)
        (member-add_all id (map (λ m. m.id) reported) []
          ∙ any-map (λ x. x == id) (λ m. m.id) reported)

-- What is shown is live, was not shown before, and comes in the order it was sent; and every report
-- that is live and was not shown is among it, as often as it was reported:
-- a test passes as many of the one as of the other.
pub take_new_correct :
    (reported : List Message) (now : DateTime) (t : MessageTracker) (p : Message → Bool)
    → IsSorted (λ m. m.sent_utc) (take_new reported now t).0
      × All (IsNew now t) (take_new reported now t).0
      × (length (keep p (take_new reported now t).0)
          ≡ length (keep p (keep (is_fresh now t.shown) reported)))
unfolding take_new fresh_messages
take_new_correct reported now t p =
    let fresh = keep (is_fresh now t.shown) reported in
    (
      sort_by_key-IsSorted (λ m. m.sent_utc) fresh,
      All-sort_by_key (λ m. m.sent_utc) (IsNew now t) fresh
          (All-map {Q = IsNew now t} (λ m h. ground arith) fresh
            (keep-All (is_fresh now t.shown) reported)),
      length-keep-sort_by_key (λ m. m.sent_utc) p fresh,
    )

pub taken-IsNew :
    (reported : List Message) (now : DateTime) (t : MessageTracker)
    → All (IsNew now t) (take_new reported now t).0
taken-IsNew reported now t =
    let (order, new, all) = take_new_correct reported now t (λ m. true) in new

pub not_shown :
    (id : Uuid) (now : DateTime) (t : MessageTracker) (ms : List Message)
    → member id t.shown ≡ true
    → All (IsNew now t) ms
    → is_in id ms ≡ false
not_shown id now t [] s h = refl
not_shown id now t (m ∷ ms) s h = elim (Bool-cases (m.id == id)) [
  | inl same ↦
      let e : m.id ≡ id = ground arith in
      absurd (ground (arith, ap (λ x. member x t.shown) e, h.0, s))
  | inr other ↦ ground (arith, other, not_shown id now t ms s h.1)
]

-- A tracker asked once for each report, at the times beside them.
abbrev pub Report : Type 0
Report = List Message × DateTime

unfoldable pub take_each : List Report → MessageTracker → List (List Message)
take_each [] t = []
take_each ((reported, now) ∷ reports) t =
    let (fresh, t') = take_new reported now t in fresh ∷ take_each reports t'

shown_never_again :
    (id : Uuid) (reports : List Report) (t : MessageTracker)
    → All (λ r. is_in id r.0 ≡ true) reports
    → member id t.shown ≡ true
    → All (λ ms. is_in id ms ≡ false) (take_each reports t)
unfolding take_each
shown_never_again id [] t h s = tt
shown_never_again id ((reported, now) ∷ reports) t h s = (
  not_shown id now t (take_new reported now t).0 s (taken-IsNew reported now t),
  shown_never_again id reports (take_new reported now t).1 h.1
      (shown_member id reported now t ∙ rw (s, h.0) refl),
)

-- In how many of the batches a message is.
abbrev pub rounds : Uuid → List (List Message) → ℕ
rounds id [] = 0
rounds id (ms ∷ batches) = (if is_in id ms then 1 else 0) + rounds id batches

no_rounds :
    (id : Uuid) (batches : List (List Message))
    → All (λ ms. is_in id ms ≡ false) batches
    → rounds id batches ≡ 0
no_rounds id [] h = refl
no_rounds id (ms ∷ batches) h = ground (arith, h.0, no_rounds id batches h.1)

-- While every report has a message, at most one of the answers shows it.
pub shown_once :
    (id : Uuid) (reports : List Report) (t : MessageTracker)
    → All (λ r. is_in id r.0 ≡ true) reports
    → rounds id (take_each reports t) ≤ 1
unfolding take_each
shown_once id [] t h = omega arith
shown_once id ((reported, now) ∷ reports) t h =
    elim (Bool-cases (is_in id (take_new reported now t).0)) [
      | inl shown ↦
          let kept : member id (take_new reported now t).1.shown ≡ true =
            shown_member id reported now t ∙ ground (arith, shown, h.0) in
          let rest =
            no_rounds id (take_each reports (take_new reported now t).1)
              (shown_never_again id reports (take_new reported now t).1 h.1 kept) in
          ground (arith, shown, rest)
      | inr silent ↦ ground (arith, silent, shown_once id reports (take_new reported now t).1 h.1)
    ]
