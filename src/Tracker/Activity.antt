-- ===== src/Tracker/Activity.antt =====
-- One event of the tracker: the open session agrees with what is visible, and the transition that
-- is returned says exactly what happened to it.
use timelord.Prelude.{◌≡◌, refl, ap, Option, none, some, arith, unwrap_or}
use timelord.Prelude.Time.{DateTime}
use mathlib.Core.Path.{subst}
use timelord.Prelude.Map.{remove_idem, insert_idem}
use timelord.Tracker.{
  SessionEvent, EndReason, UsageSessionRecord, Transition, no_change, started, ended, UsageTracker,
  is_active, any_visible, recompute, observe, reason_if_closing, apply,
}

recompute_active :
    (t : UsageTracker) (at : DateTime) (r : Option EndReason)
    → is_active (recompute t at r).0 ≡ any_visible (recompute t at r).0
unfolding recompute is_active
recompute_active t at r = ground arith

-- After any event, from any tracker at all, a session is open exactly when the device is awake and
-- some session is visible.
pub apply_active :
    (t : UsageTracker) (e : SessionEvent) (at : DateTime)
    → is_active (apply t e at).0 ≡ any_visible (apply t e at).0
unfolding apply
apply_active t e at = recompute_active (observe e t) at (reason_if_closing e)

-- What a transition says of the open session before and after an event at `at`.
abbrev pub Explains :
    Option DateTime → Option DateTime → DateTime → Option EndReason → Transition → Type 0
Explains before after at why no_change = before ≡ after
Explains before after at why (started s) = (before ≡ none) × (after ≡ some at) × (s ≡ at)
Explains before after at why (ended r) =
    (before ≡ some r.start)
    × (after ≡ none)
    × (r.end ≡ at)
    × (r.end_reason ≡ unwrap_or why EndReason.logoff)

recompute_explained :
    (t : UsageTracker) (at : DateTime) (why : Option EndReason)
    → Explains t.open_since (recompute t at why).0.open_since at why (recompute t at why).1
unfolding recompute
recompute_explained t at why = ground arith

open_since-observe : (e : SessionEvent) (t : UsageTracker) → (observe e t).open_since ≡ t.open_since
unfolding observe
open_since-observe e t = ground arith

-- Each event: no change leaves the open session as it was; a start happens with none open and opens
-- one at the event's time; an end closes the one that was open, and its record has its start, the
-- event's time as its end, and the event's own reason.
pub apply_explained :
    (t : UsageTracker) (e : SessionEvent) (at : DateTime)
    → Explains t.open_since (apply t e at).0.open_since at (reason_if_closing e) (apply t e at).1
unfolding apply
apply_explained t e at =
    subst (λ o. Explains o (apply t e at).0.open_since at (reason_if_closing e) (apply t e at).1)
      (open_since-observe e t) (recompute_explained (observe e t) at (reason_if_closing e))

module _ (t : UsageTracker) (e : SessionEvent) (at : DateTime) where
  pub apply_started :
      {s : DateTime}
      → (apply t e at).1 ≡ started s
      → (t.open_since ≡ none) × ((apply t e at).0.open_since ≡ some at) × (s ≡ at)
  apply_started h =
      subst (Explains t.open_since (apply t e at).0.open_since at (reason_if_closing e)) h
        (apply_explained t e at)

  pub apply_ended :
      {r : UsageSessionRecord}
      → (apply t e at).1 ≡ ended r
      → (t.open_since ≡ some r.start)
        × ((apply t e at).0.open_since ≡ none)
        × (r.end ≡ at)
        × (r.end_reason ≡ unwrap_or (reason_if_closing e) EndReason.logoff)
  apply_ended h =
      subst (Explains t.open_since (apply t e at).0.open_since at (reason_if_closing e)) h
        (apply_explained t e at)

observe_idem : (e : SessionEvent) (t : UsageTracker) → observe e (observe e t) ≡ observe e t
unfolding observe
observe_idem (SessionEvent.logon id) t = simp insert_idem
observe_idem (SessionEvent.logoff id) t = simp remove_idem
observe_idem SessionEvent.suspend t = refl
observe_idem SessionEvent.resume t = refl
observe_idem _ t = simp insert_idem

any_visible-observe-recompute :
    (e : SessionEvent) (t : UsageTracker) (at : DateTime) (why : Option EndReason)
    → any_visible (observe e (recompute t at why).0) ≡ any_visible (observe e t)
unfolding recompute observe
any_visible-observe-recompute e t at why = ground arith

open_since-observe-recompute :
    (e : SessionEvent) (t : UsageTracker) (at : DateTime) (why : Option EndReason)
    → is_active (observe e (recompute t at why).0) ≡ any_visible t
unfolding recompute observe is_active
open_since-observe-recompute e t at why = ground arith

settled :
    (t : UsageTracker) (at : DateTime) (why : Option EndReason)
    → is_active t ≡ any_visible t
    → (recompute t at why).1 ≡ no_change
unfolding recompute is_active
settled t at why h = ground arith

-- The same event once more, at any later time, changes nothing: no session starts or ends twice.
pub apply_twice :
    (t : UsageTracker) (e : SessionEvent) (at later : DateTime)
    → (apply (apply t e at).0 e later).1 ≡ no_change
unfolding apply
apply_twice t e at later =
    settled (observe e (recompute (observe e t) at (reason_if_closing e)).0) later
      (reason_if_closing e)
      (cc (
        open_since-observe-recompute e (observe e t) at (reason_if_closing e),
        any_visible-observe-recompute e (observe e t) at (reason_if_closing e),
        ap any_visible (observe_idem e t),
      ))
