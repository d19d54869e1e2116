-- ===== src/Engine/Countdown.antt =====
-- The countdown and the next poll of `Engine::update`.
use mathlib.Core.List.{append_assoc, append-nil}
use timelord.Prelude.{
  ℕ, ◌≡◌, refl, sym, ap, ◌∙◌, Bool, true, false, ◌||◌, Option, none, some, inl, inr, List, [], ◌∷◌,
  ◌++◌, map, keep, any, arith, Bool-cases, if◌then◌else◌,
}
use timelord.Prelude.Int.{ℤ, pos, leb_ℤ}
use timelord.Prelude.Time.{DateTime, Uuid, num_seconds}
use timelord.Ipc.{PendingAction}
use timelord.Engine.{
  countdown_seconds, fast_poll, slow_poll, fast_poll_within_seconds, Engine, Progress, fire, warn,
  count_down, sooner, poll_after, crossed, visit, visit_all, at_start, update,
}

-- The action starts in at most `n` seconds.
abbrev pub is_within_seconds : ℕ → DateTime → PendingAction → Bool
is_within_seconds n now a = leb_ℤ (num_seconds a.at_utc now) (pos n)

fire-countdown :
    (a : PendingAction) (r : ℤ) (m : Option ℕ) (p : Progress)
    → (fire a r m p).countdown ≡ p.countdown
unfolding fire
fire-countdown a r none p = refl
fire-countdown a r (some t) p = ground arith

fire-soonest :
    (a : PendingAction) (r : ℤ) (m : Option ℕ) (p : Progress) → (fire a r m p).soonest ≡ p.soonest
unfolding fire
fire-soonest a r none p = refl
fire-soonest a r (some t) p = ground arith

count_down-countdown :
    (a : PendingAction) (r : ℤ) (p : Progress)
    → (count_down a r p).countdown
      ≡ p.countdown ++ (if leb_ℤ r (pos countdown_seconds) then a.id ∷ [] else [])
unfolding count_down
count_down-countdown a r p = elim (Bool-cases (leb_ℤ r (pos countdown_seconds))) [
  | inl close ↦ rw close refl
  | inr far ↦ rw far (sym (append-nil p.countdown))
]

count_down-soonest :
    (a : PendingAction) (r : ℤ) (p : Progress) → (count_down a r p).soonest ≡ p.soonest
unfolding count_down
count_down-soonest a r p = ground arith

module _ (now : DateTime) (a : PendingAction) (p : Progress) where
  visit-countdown :
      (visit now a p).countdown
      ≡ p.countdown ++ (if is_within_seconds countdown_seconds now a then a.id ∷ [] else [])
  unfolding visit warn
  visit-countdown =
      count_down-countdown a (num_seconds a.at_utc now) _
      ∙ ap (λ l. l ++ (if is_within_seconds countdown_seconds now a then a.id ∷ [] else []))
          (fire-countdown a (num_seconds a.at_utc now) (crossed (num_seconds a.at_utc now)) _)

  visit-soonest : (visit now a p).soonest ≡ sooner (num_seconds a.at_utc now) p.soonest
  unfolding visit warn
  visit-soonest =
      count_down-soonest a (num_seconds a.at_utc now) _
      ∙ fire-soonest a (num_seconds a.at_utc now) (crossed (num_seconds a.at_utc now)) _

one_more :
    (b : Bool) (id : Uuid) (l rest : List Uuid)
    → (l ++ (if b then id ∷ [] else [])) ++ rest ≡ l ++ (if b then id ∷ rest else rest)
one_more true id l rest = append_assoc l (id ∷ []) rest
one_more false id l rest = append_assoc l [] rest

-- The ids counted down for, straight from the reported actions.
abbrev pub close_ids : DateTime → List PendingAction → List Uuid
close_ids now actions = map (λ a. a.id) (keep (is_within_seconds countdown_seconds now) actions)

close_ids-cons :
    (now : DateTime) (a : PendingAction) (actions : List PendingAction)
    → close_ids now (a ∷ actions) ≡ (
        if is_within_seconds countdown_seconds now a
        then a.id ∷ close_ids now actions
        else close_ids now actions)
close_ids-cons now a actions = ground arith

visit_all-countdown :
    (now : DateTime) (actions : List PendingAction) (p : Progress)
    → (visit_all now actions p).countdown ≡ p.countdown ++ close_ids now actions
unfolding visit_all
visit_all-countdown now [] p = sym (append-nil p.countdown)
visit_all-countdown now (a ∷ actions) p =
    visit_all-countdown now actions (visit now a p)
    ∙ ap (λ l. l ++ close_ids now actions) (visit-countdown now a p)
    ∙ one_more (is_within_seconds countdown_seconds now a) a.id p.countdown (close_ids now actions)
    ∙ ap (λ l. p.countdown ++ l) (sym (close_ids-cons now a actions))

is_soon : Option ℤ → Bool
is_soon none = false
is_soon (some s) = leb_ℤ s (pos fast_poll_within_seconds)

is_soon-sooner :
    (r : ℤ) (m : Option ℤ)
    → is_soon (sooner r m) ≡ (is_soon m || leb_ℤ r (pos fast_poll_within_seconds))
unfolding sooner is_soon
is_soon-sooner r none = refl
is_soon-sooner r (some s) = ground arith

is_soon-visit_all :
    (now : DateTime) (actions : List PendingAction) (p : Progress)
    → is_soon (visit_all now actions p).soonest
      ≡ (is_soon p.soonest || any (is_within_seconds fast_poll_within_seconds now) actions)
unfolding visit_all
is_soon-visit_all now [] p = ground arith
is_soon-visit_all now (a ∷ actions) p =
    is_soon-visit_all now actions (visit now a p)
    ∙ ap (λ m. is_soon m || any (is_within_seconds fast_poll_within_seconds now) actions)
        (visit-soonest now a p)
    ∙ ground (arith, is_soon-sooner (num_seconds a.at_utc now) p.soonest)

poll_by_soon : (m : Option ℤ) → poll_after m ≡ (if is_soon m then fast_poll else slow_poll)
unfolding poll_after is_soon
poll_by_soon none = refl
poll_by_soon (some s) = refl

-- A countdown shows for exactly the reported actions with a minute or less left, in their order, and
-- the next poll is the fast one exactly when some action has 90 seconds or less left.
pub update_timing :
    (actions : List PendingAction) (now : DateTime) (e : Engine)
    → ((update actions now e).0.countdown ≡ close_ids now actions)
      × ((update actions now e).0.next_poll
          ≡ some (
              if any (is_within_seconds fast_poll_within_seconds now) actions
              then fast_poll
              else slow_poll))
unfolding update at_start is_soon
update_timing actions now e = (
  visit_all-countdown now actions (at_start actions e),
  ap some (
      poll_by_soon (visit_all now actions (at_start actions e)).soonest
      ∙ ap (λ b. if b then fast_poll else slow_poll)
          (is_soon-visit_all now actions (at_start actions e))),
)
