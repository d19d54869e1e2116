-- ===== src/Agent/Cooldown.antt =====
-- The pause between requests of a shutdown.
use mathlib.Core.Path.{subst}
use timelord.Prelude.{
  ◌+◌, ◌-◌, ◌≤◌, ◌≡◌, refl, sym, ◌∙◌, Bool, true, false, Option, none, some, List, [], ◌∷◌, ◌++◌,
  any, any-append, All, All-map, ltb, arith, Bool-cases, is_some, inl, inr, if◌then◌else◌,
}
use timelord.Schedule.{shutdown}
use timelord.Agent.{Agent, Instant}
use timelord.Agent.Enforcement.{Attempt, enforce, is_cooling_down, shutdown_cooldown}

-- The time that is kept of a shutdown request.
abbrev pub noted_at : Attempt → Instant
noted_at x = x.at + x.noted_after

-- Calls of `enforce` for a schedule that shuts down, each with the agent as it finds it: the times at
-- which the platform is asked, as they are kept.
unfoldable pub asked_at : List (Attempt × Agent) → Option Instant → List Instant
asked_at [] last = []
asked_at ((x, a) ∷ calls) last =
    let e = enforce x shutdown last a in
    let rest = asked_at calls e.last_shutdown_request in
    if is_some e.asked then noted_at x ∷ rest else rest

-- Each time is at least the cooldown after the one before it.
abbrev pub IsSpaced : Option Instant → List Instant → Type 0
IsSpaced last [] = Unit
IsSpaced none (t ∷ ts) = IsSpaced (some t) ts
IsSpaced (some u) (t ∷ ts) = (u + shutdown_cooldown ≤ t) × IsSpaced (some t) ts

abbrev pub times_of : Option Instant → List Instant
times_of none = []
times_of (some t) = t ∷ []

-- A call for which some time lies less than the cooldown back.
abbrev pub is_answered : List Instant → Attempt × Agent → Bool
is_answered ts (x, a) = any (λ t. ltb (x.at - t) shutdown_cooldown) ts

IsSpaced-after :
    (x : Attempt) (last : Option Instant) (ts : List Instant)
    → is_cooling_down x.at last ≡ false
    → IsSpaced (some (noted_at x)) ts
    → IsSpaced last (noted_at x ∷ ts)
unfolding is_cooling_down
IsSpaced-after x none ts h k = k
IsSpaced-after x (some t) ts h k = (ground (arith, h), k)

-- Shutdown requests are at least the cooldown apart, the last one before the run counted.
pub requests-IsSpaced :
    (calls : List (Attempt × Agent)) (last : Option Instant) → IsSpaced last (asked_at calls last)
unfolding asked_at enforce
requests-IsSpaced [] last = tt
requests-IsSpaced ((x, a) ∷ calls) last = elim (Bool-cases (is_cooling_down x.at last)) [
  | inl cool ↦ rw cool (requests-IsSpaced calls last)
  | inr ask ↦ rw ask (
      IsSpaced-after x last (asked_at calls (some (noted_at x))) ask
        (requests-IsSpaced calls (some (noted_at x))))
]

cooling-answered :
    (x : Attempt) (a : Agent) (last : Option Instant) (ts : List Instant)
    → is_cooling_down x.at last ≡ true
    → is_answered (times_of last ++ ts) (x, a) ≡ true
unfolding is_cooling_down
cooling-answered x a none ts h = absurd (ground (arith, h))
cooling-answered x a (some t) ts h = ground (arith, h)

just_answered :
    (x : Attempt) (a : Agent) (ts : List Instant) → is_answered (noted_at x ∷ ts) (x, a) ≡ true
just_answered x a ts = ground arith

more_answered :
    (c : Attempt × Agent) (ts us : List Instant)
    → is_answered us c ≡ true
    → is_answered (ts ++ us) c ≡ true
more_answered (x, a) ts us h =
    any-append (λ t. ltb (x.at - t) shutdown_cooldown) ts us ∙ ground (arith, h)

module _ (x : Attempt) (a : Agent) (calls : List (Attempt × Agent)) (last : Option Instant) where
  cooling_step :
      is_cooling_down x.at last ≡ true → asked_at ((x, a) ∷ calls) last ≡ asked_at calls last
  unfolding asked_at enforce
  cooling_step cool = rw cool refl

  asking_step :
      is_cooling_down x.at last ≡ false
      → asked_at ((x, a) ∷ calls) last ≡ noted_at x ∷ asked_at calls (some (noted_at x))
  unfolding asked_at enforce
  asking_step ask = rw ask refl

  -- Every call has a time among those of a list.
  abbrev AreAnswered : List Instant → Type 0
  AreAnswered ts = All (λ c. is_answered (times_of last ++ ts) c ≡ true) ((x, a) ∷ calls)

-- No call goes without a request for longer than the cooldown: each has one less than the cooldown
-- before it, if need be its own.
pub calls_answered :
    (calls : List (Attempt × Agent)) (last : Option Instant)
    → All (λ c. is_answered (times_of last ++ asked_at calls last) c ≡ true) calls
calls_answered [] last = tt
calls_answered ((x, a) ∷ calls) last = elim (Bool-cases (is_cooling_down x.at last)) [
  | inl cool ↦
      subst (AreAnswered x a calls last) (sym (cooling_step x a calls last cool))
        (cooling-answered x a last (asked_at calls last) cool, calls_answered calls last)
  | inr ask ↦
      let later = asked_at calls (some (noted_at x)) in
      subst (AreAnswered x a calls last) (sym (asking_step x a calls last ask)) (
        more_answered (x, a) (times_of last) (noted_at x ∷ later) (just_answered x a later),
        All-map (λ c h. more_answered c (times_of last) (noted_at x ∷ later) h) calls
            (calls_answered calls (some (noted_at x))),
      )
]
