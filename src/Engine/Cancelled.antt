-- ===== src/Engine/Cancelled.antt =====
-- What `Engine::update` remembers from one poll to the next, and what it reports as cancelled.
use timelord.Prelude.{
  ℕ, ◌≡◌, sym, ap, ◌∙◌, Bool, true, not, ◌&&◌, Option, none, some, List, [], ◌∷◌, map, any, All,
  All-map, keep-All, arith, any-map, ◌==◌,
}
use timelord.Prelude.Int.{ℤ}
use timelord.Prelude.Set.{member, add_all, difference, member-add_all, member-keep}
use timelord.Prelude.Sort.{any-sort_by_key}
use timelord.Prelude.Time.{DateTime, Uuid, num_seconds}
use timelord.Ipc.{PendingAction}
use timelord.Engine.{Engine, Progress, fire, crossed, visit, visit_all, at_start, update}
use timelord.Engine.Visit.{visit-fired}

abbrev pub is_reported : Uuid → List PendingAction → Bool
is_reported id actions = any (λ a. a.id == id) actions

live_member :
    (id : Uuid) (actions : List PendingAction)
    → member id (add_all (map (λ a. a.id) actions) []) ≡ is_reported id actions
live_member id actions =
    member-add_all id (map (λ a. a.id) actions) [] ∙ any-map (λ x. x == id) (λ a. a.id) actions

known_member :
    (id : Uuid) (actions : List PendingAction) (now : DateTime) (e : Engine)
    → member id (update actions now e).1.known ≡ is_reported id actions
unfolding update
known_member id actions now e = live_member id actions

cancelled_member :
    (id : Uuid) (actions : List PendingAction) (now : DateTime) (e : Engine)
    → member id (update actions now e).0.cancelled
      ≡ (member id e.known && not (is_reported id actions))
unfolding update
cancelled_member id actions now e =
    any-sort_by_key (λ id. id) (λ x. x == id)
      (difference e.known (add_all (map (λ a. a.id) actions) []))
    ∙ member-keep (λ x. not (member x (add_all (map (λ a. a.id) actions) []))) id e.known
    ∙ ap (λ b. member id e.known && not b) (live_member id actions)

-- Of two polls in a row, the second reports as cancelled exactly the actions of the first that it
-- does not have any more.
pub cancelled_exactly :
    (id : Uuid) (before after : List PendingAction) (t u : DateTime) (e : Engine)
    → member id (update after u (update before t e).1).0.cancelled
      ≡ (is_reported id before && not (is_reported id after))
cancelled_exactly id before after t u e =
    cancelled_member id after u (update before t e).1
    ∙ ap (λ b. b && not (is_reported id after)) (known_member id before t e)

-- The actions that pairs are remembered for.
abbrev pub IsRemembered : List PendingAction → Uuid × ℕ → Type 0
IsRemembered actions p = is_reported p.0 actions ≡ true

module _ (actions : List PendingAction) where
  fire_remembers :
      (a : PendingAction) (r : ℤ) (m : Option ℕ) (p : Progress)
      → is_reported a.id actions ≡ true
      → All (IsRemembered actions) p.fired
      → All (IsRemembered actions) (fire a r m p).fired
  unfolding fire
  fire_remembers a r none p here h = h
  fire_remembers a r (some t) p here h = ground (arith, here, h)

  visit_all_remembers :
      (now : DateTime) (rest : List PendingAction) (p : Progress)
      → All (λ a. is_reported a.id actions ≡ true) rest
      → All (IsRemembered actions) p.fired
      → All (IsRemembered actions) (visit_all now rest p).fired
  unfolding visit_all
  visit_all_remembers now [] p here h = h
  visit_all_remembers now (a ∷ rest) p here h =
      visit_all_remembers now rest (visit now a p) here.1 (
        rw (visit-fired now a p)
          (fire_remembers a _ (crossed (num_seconds a.at_utc now)) _ here.0 h))

reported_self : (actions : List PendingAction) → All (λ a. is_reported a.id actions ≡ true) actions
reported_self [] = tt
reported_self (a ∷ actions) =
    (ground arith, All-map (λ b h. ground (arith, h)) actions (reported_self actions))

-- An update forgets every action that is not reported: it keeps no warning of it, so that the action
-- warns afresh if it comes back.
pub update_forgets :
    (actions : List PendingAction) (now : DateTime) (e : Engine)
    → All (IsRemembered actions) (update actions now e).1.fired
unfolding update at_start
update_forgets actions now e =
    visit_all_remembers actions now actions (at_start actions e) (reported_self actions) (
      All-map {Q = IsRemembered actions} (λ p h. sym (live_member p.0 actions) ∙ h) _
        (keep-All (λ p. member p.0 (add_all (map (λ a. a.id) actions) [])) e.fired))
