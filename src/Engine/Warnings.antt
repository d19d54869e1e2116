-- ===== src/Engine/Warnings.antt =====
-- The warnings of `Engine::update`: how often.
use timelord.Prelude.{
  ℕ, ◌+◌, ◌≤◌, ◌≡◌, refl, ap, ◌∙◌, Bool, true, ◌&&◌, Option, none, some, List, [], ◌∷◌, ◌++◌, map,
  keep, any, length, All, arith, ◌||◌, Bool-cases, inl, inr, if◌then◌else◌, length-append,
  keep-append, any-map, ◌==◌,
}
use timelord.Prelude.Int.{ℤ}
use timelord.Prelude.Set.{member, add_all, member-add_all}
use timelord.Prelude.Time.{DateTime, Uuid, num_seconds}
use timelord.Ipc.{PendingAction}
use timelord.Engine.{
  ToastDue, Tick, Engine, Progress, is_pair, crossed, fire, sooner, visit, visit_all, at_start,
  update,
}
use timelord.Engine.Visit.{visit-toasts, visit-fired}

-- How often a list of toasts has one for an action's threshold.
abbrev pub is_toast : Uuid → ℕ → ToastDue → Bool
is_toast id threshold d = (d.action.id == id) && (d.threshold == threshold)

abbrev pub times : Uuid → ℕ → List ToastDue → ℕ
times id threshold ds = length (keep (is_toast id threshold) ds)

-- 1 if the pair has fired, and 0 if not.
abbrev pub fired_once : Uuid → ℕ → List (Uuid × ℕ) → ℕ
fired_once id threshold fired = if any (is_pair id threshold) fired then 1 else 0

times_one :
    (id : Uuid) (th : ℕ) (ds : List ToastDue) (d : ToastDue)
    → times id th (ds ++ d ∷ []) ≡ times id th ds + times id th (d ∷ [])
times_one id th ds d =
    ap length (keep-append (is_toast id th) ds (d ∷ []))
    ∙ length-append (keep (is_toast id th) ds) (keep (is_toast id th) (d ∷ []))

module _ (id : Uuid) (th : ℕ) where
  times-fire :
      (a : PendingAction) (r : ℤ) (m : Option ℕ) (p : Progress)
      → times id th (fire a r m p).toasts + fired_once id th p.fired
        ≡ times id th p.toasts + fired_once id th (fire a r m p).fired
  unfolding fire
  times-fire a r none p = refl
  times-fire a r (some t) p = elim (Bool-cases (any (is_pair a.id t) p.fired)) [
    | inl old ↦ rw old refl
    | inr new ↦ rw new (
        ground (
          arith,
          new,
          times_one id th p.toasts (record { action = a; threshold = t; remaining = r }),
        ))
  ]

  times-visit :
      (now : DateTime) (a : PendingAction) (p : Progress)
      → times id th (visit now a p).toasts + fired_once id th p.fired
        ≡ times id th p.toasts + fired_once id th (visit now a p).fired
  times-visit now a p =
      rw (visit-toasts now a p, visit-fired now a p)
        (times-fire a (num_seconds a.at_utc now) (crossed (num_seconds a.at_utc now))
          (record p { soonest = sooner (num_seconds a.at_utc now) p.soonest }))

  -- Each toast of the pair is a new firing of it.
  times-visit_all :
      (now : DateTime) (actions : List PendingAction) (p : Progress)
      → times id th (visit_all now actions p).toasts + fired_once id th p.fired
        ≡ times id th p.toasts + fired_once id th (visit_all now actions p).fired
  unfolding visit_all
  times-visit_all now [] p = refl
  times-visit_all now (a ∷ actions) p =
      omega (arith, times-visit now a p, times-visit_all now actions (visit now a p))

abbrev pub Reports : Uuid → List PendingAction → Type 0
Reports id actions = any (λ a. a.id == id) actions ≡ true

-- An engine polled once for each list of actions, at the times beside them.
abbrev pub Poll : Type 0
Poll = List PendingAction × DateTime

unfoldable pub poll_each : List Poll → Engine → List Tick × Engine
poll_each [] e = ([], e)
poll_each ((actions, now) ∷ polls) e =
    let (tick, e') = update actions now e in
    let (ticks, last) = poll_each polls e' in (tick ∷ ticks, last)

-- How often a run of ticks warns of an action's threshold.
abbrev pub total : Uuid → ℕ → List Tick → ℕ
total id th [] = 0
total id th (tick ∷ ticks) = times id th tick.toasts + total id th ticks

member-live :
    (id : Uuid) (actions : List PendingAction)
    → Reports id actions
    → member id (add_all (map (λ a. a.id) actions) []) ≡ true
member-live id actions h =
    member-add_all id (map (λ a. a.id) actions) [] ∙ any-map (λ x. x == id) (λ a. a.id) actions ∙ h

-- While an action is reported, `retain` keeps its pairs.
retained :
    (id : Uuid) (th : ℕ) (live : List Uuid) (fired : List (Uuid × ℕ))
    → member id live ≡ true
    → any (is_pair id th) (keep (λ p. member p.0 live) fired) ≡ any (is_pair id th) fired
retained id th live [] h = refl
retained id th live ((i, t) ∷ fired) h = elim (Bool-cases (i == id)) [
  | inl here ↦
      let e : i ≡ id = ground arith in
      rw (e, h) (ap (λ b. is_pair id th (id, t) || b) (retained id th live fired h))
  | inr away ↦ ground (arith, away, retained id th live fired h)
]

-- What an update warns of is what it fires, the old pairs of the reported action kept.
pub times-update :
    (id : Uuid) (th : ℕ) (actions : List PendingAction) (now : DateTime) (e : Engine)
    → Reports id actions
    → times id th (update actions now e).0.toasts + fired_once id th e.fired
      ≡ fired_once id th (update actions now e).1.fired
unfolding update at_start
times-update id th actions now e h =
    let kept =
      retained id th (add_all (map (λ a. a.id) actions) []) e.fired (member-live id actions h) in
    omega (
      arith,
      times-visit_all id th now actions (at_start actions e),
      ap {B = ℕ} (λ b. if b then 1 else 0) kept,
    )

-- While every poll reports an action, each of its thresholds is warned of at most once, and not at
-- all if the warning was given before the first of the polls.
pub warned_once :
    (id : Uuid) (th : ℕ) (polls : List Poll) (e : Engine)
    → All (λ p. Reports id p.0) polls
    → total id th (poll_each polls e).0 + fired_once id th e.fired ≤ 1
unfolding poll_each
warned_once id th [] e h = ground arith
warned_once id th ((actions, now) ∷ polls) e h = omega (
  arith,
  times-update id th actions now e h.0,
  warned_once id th polls (update actions now e).1 h.1,
)
