-- ===== src/Pipe/Upcoming.antt =====
-- What the notifier is told of, against what the agent enforces.
use mathlib.Core.Path.{subst}
use timelord.Prelude.{
  ◌+◌, ◌≤◌, ◌<◌, ◌≡◌, ap, ◌∙◌, Bool, true, none, some, List, [], ◌∷◌, ◌++◌, keep, any, All, ltb,
  ◌==◌, arith, Bool-cases, inl, inr, any-map,
}
use timelord.Prelude.Time.{DateTime, Uuid, from_secs}
use timelord.Schedule.{OffWindow, Schedule, active_window}
use timelord.Schedule.Windows.{Contains, IsFirst, IsActive, active_window_correct}
use timelord.Ipc.{horizon_seconds, Action}
use timelord.Pipe.{announced, is_upcoming, pending_action, upcoming_actions}

quiet-All :
    (s : Schedule) (now : DateTime)
    → active_window s now ≡ none
    → All (λ v. ¬ (Contains v now)) s.windows
quiet-All s now e = subst (IsActive s.windows now) e (active_window_correct s now)

active-IsFirst :
    (s : Schedule) (now : DateTime) (w : OffWindow)
    → active_window s now ≡ some w
    → IsFirst s.windows now w
active-IsFirst s now w e = subst (IsActive s.windows now) e (active_window_correct s now)

kept_any :
    (p q : OffWindow → Bool) (front back : List OffWindow) (w : OffWindow)
    → p w ≡ true
    → q w ≡ true
    → any q (keep p (front ++ w ∷ back)) ≡ true
kept_any p q [] back w h k = ground (arith, h, k)
kept_any p q (v ∷ front) back w h k = ground (arith, kept_any p q front back w h k)

All-middle :
    (P : OffWindow → Type 0) (front back : List OffWindow) (w : OffWindow)
    → All P (front ++ w ∷ back)
    → P w
All-middle P [] back w h = h.0
All-middle P (v ∷ front) back w h = All-middle P front back w h.1

-- While no window is active, every window that becomes active within the horizon is announced by now,
-- with the instant that it starts.
pub enforced_is_announced :
    (new_v5 : Action → DateTime → Uuid) (s : Schedule) (now u : DateTime) (w : OffWindow)
    → active_window s now ≡ none
    → now ≤ u
    → u ≤ now + from_secs horizon_seconds
    → active_window s u ≡ some w
    → any (λ a. a.at_utc == w.off_at) (upcoming_actions new_v5 (some s) now) ≡ true
unfolding upcoming_actions pending_action
enforced_is_announced new_v5 s now u w quiet le near e =
    let ((off, on), (front, back, split, before)) = active-IsFirst s u w e in
    let not_now : ¬ (Contains w now) =
      All-middle (λ v. ¬ (Contains v now)) front back w
        (subst (All (λ v. ¬ (Contains v now))) split (quiet-All s now quiet)) in
    let later : now < w.off_at = elim (Bool-cases (ltb now w.off_at)) [
      | inl ahead ↦ ground arith
      | inr behind ↦ absurd (not_now (ground arith, omega arith))
    ] in
    any-map (λ a. a.at_utc == w.off_at) (pending_action new_v5 (announced s.action))
      (keep (is_upcoming now) s.windows)
    ∙ ap (λ ws. any (λ v. v.off_at == w.off_at) (keep (is_upcoming now) ws)) split
    ∙ kept_any (is_upcoming now) (λ v. v.off_at == w.off_at) front back w (ground arith)
        (ground arith)
