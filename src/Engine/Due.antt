-- ===== src/Engine/Due.antt =====
-- The warnings of `Engine::update`: which, and that each that is due is given.
use timelord.Prelude.{
  ℕ, ◌+◌, ◌≡◌, refl, sym, ap, ◌∙◌, true, Option, none, some, List, [], ◌∷◌, ◌++◌, any, All,
  All-append, arith, Bool-cases, inl, inr, if◌then◌else◌,
}
use mathlib.Core.Path.{subst}
use mathlib.Core.List.{append_assoc}
use timelord.Prelude.Int.{ℤ}
use timelord.Prelude.Time.{DateTime, Uuid, num_seconds}
use timelord.Ipc.{PendingAction}
use timelord.Engine.{
  thresholds, ToastDue, Engine, Progress, is_pair, crossed, fire, visit, visit_all, at_start,
  update,
}
use timelord.Engine.Tightest.{IsTightest, crossed-IsTightest}
use timelord.Engine.Visit.{visit-toasts, visit-fired}
use timelord.Engine.Warnings.{times, fired_once, Reports, times-update}

-- An element of a list, with what stands before and behind it.
abbrev pub Holds : PendingAction → List PendingAction → Type 0
Holds a actions =
    (front : List PendingAction) × (back : List PendingAction) × (actions ≡ front ++ a ∷ back)

-- A toast of an update: an action that was reported, the time left to it, and the tightest threshold
-- that this has crossed.
abbrev pub IsDue : List PendingAction → DateTime → ToastDue → Type 0
IsDue actions now d =
    Holds d.action actions
    × (d.remaining ≡ num_seconds d.action.at_utc now)
    × IsTightest d.remaining thresholds (some d.threshold)

module _ (actions : List PendingAction) (now : DateTime) where
  fire-IsDue :
      (a : PendingAction) (m : Option ℕ) (p : Progress)
      → crossed (num_seconds a.at_utc now) ≡ m
      → Holds a actions
      → All (IsDue actions now) p.toasts
      → All (IsDue actions now) (fire a (num_seconds a.at_utc now) m p).toasts
  unfolding fire
  fire-IsDue a none p e h due = due
  fire-IsDue a (some t) p e h due = elim (Bool-cases (any (is_pair a.id t) p.fired)) [
    | inl old ↦ rw old due
    | inr new ↦ rw new (
        All-append (IsDue actions now) p.toasts _ due (
          (
            h,
            refl,
            subst (IsTightest (num_seconds a.at_utc now) thresholds) e (crossed-IsTightest _),
          ),
          tt,
        ))
  ]

  visit_all-IsDue :
      (front rest : List PendingAction) (p : Progress)
      → actions ≡ front ++ rest
      → All (IsDue actions now) p.toasts
      → All (IsDue actions now) (visit_all now rest p).toasts
  unfolding visit_all
  visit_all-IsDue front [] p e due = due
  visit_all-IsDue front (a ∷ rest) p e due =
      visit_all-IsDue (front ++ a ∷ []) rest (visit now a p)
        (e ∙ sym (append_assoc front (a ∷ []) rest))
        (rw (visit-toasts now a p)
          (fire-IsDue a (crossed (num_seconds a.at_utc now)) _ refl (front, rest, e) due))

-- Every warning is of a reported action, with the seconds left to it, and for the tightest threshold
-- that these have crossed.
pub update-IsDue :
    (actions : List PendingAction) (now : DateTime) (e : Engine)
    → All (IsDue actions now) (update actions now e).0.toasts
unfolding update at_start
update-IsDue actions now e = visit_all-IsDue actions now [] actions (at_start actions e) refl tt

-- What has fired stays fired through the loop.
fire_keeps :
    (id : Uuid) (th : ℕ) (a : PendingAction) (r : ℤ) (m : Option ℕ) (p : Progress)
    → any (is_pair id th) p.fired ≡ true
    → any (is_pair id th) (fire a r m p).fired ≡ true
unfolding fire
fire_keeps id th a r none p h = h
fire_keeps id th a r (some t) p h = ground (arith, h)

visit_all_keeps :
    (id : Uuid) (th : ℕ) (now : DateTime) (actions : List PendingAction) (p : Progress)
    → any (is_pair id th) p.fired ≡ true
    → any (is_pair id th) (visit_all now actions p).fired ≡ true
unfolding visit_all
visit_all_keeps id th now [] p h = h
visit_all_keeps id th now (a ∷ actions) p h =
    visit_all_keeps id th now actions (visit now a p)
      (rw (visit-fired now a p) (fire_keeps id th a _ (crossed (num_seconds a.at_utc now)) _ h))

fires :
    (a : PendingAction) (r : ℤ) (t : ℕ) (p : Progress)
    → any (is_pair a.id t) (fire a r (some t) p).fired ≡ true
unfolding fire
fires a r t p = ground arith

visit_all_fires :
    (a : PendingAction) (t : ℕ) (now : DateTime) (front back : List PendingAction) (p : Progress)
    → crossed (num_seconds a.at_utc now) ≡ some t
    → any (is_pair a.id t) (visit_all now (front ++ a ∷ back) p).fired ≡ true
unfolding visit_all
visit_all_fires a t now [] back p e =
    visit_all_keeps a.id t now back (visit now a p)
      (rw (visit-fired now a p, e) (fires a (num_seconds a.at_utc now) t _))
visit_all_fires a t now (b ∷ front) back p e = visit_all_fires a t now front back (visit now b p) e

Holds-Reports :
    (a : PendingAction) (front back : List PendingAction) → Reports a.id (front ++ a ∷ back)
Holds-Reports a [] back = ground arith
Holds-Reports a (b ∷ front) back = ground (arith, Holds-Reports a front back)

update_fires :
    (a : PendingAction) (t : ℕ) (actions : List PendingAction) (now : DateTime) (e : Engine)
    → Holds a actions
    → crossed (num_seconds a.at_utc now) ≡ some t
    → any (is_pair a.id t) (update actions now e).1.fired ≡ true
unfolding update at_start
update_fires a t actions now e (front, back, split) c =
    rw split (visit_all_fires a t now front back _ c)

-- If a reported action has crossed a threshold, an update warns of it exactly once, unless the
-- engine remembers that it has: the warnings and the memory of one before add up to 1.
pub warns_when_due :
    (a : PendingAction) (t : ℕ) (actions : List PendingAction) (now : DateTime) (e : Engine)
    → Holds a actions
    → crossed (num_seconds a.at_utc now) ≡ some t
    → times a.id t (update actions now e).0.toasts + fired_once a.id t e.fired ≡ 1
warns_when_due a t actions now e (front, back, split) c =
    let fired = update_fires a t actions now e (front, back, split) c in
    let reported : Reports a.id actions = rw split (Holds-Reports a front back) in
    times-update a.id t actions now e reported ∙ ap {B = ℕ} (λ b. if b then 1 else 0) fired
