-- ===== src/Schedule/Windows.antt =====
-- Which window is active, and what the agent may sleep through.
use timelord.Prelude.{
  ◌≤◌, ◌<◌, ◌≡◌, refl, sym, ap, ◌⊎◌, inl, inr, true, false, Option, none, some, List, [], ◌∷◌, ◌++◌,
  map, ltb, leb, find, keep, min, minimum, All, arith, leb, Bool-cases, Option-cases, All-map,
  All-both,
}
use mathlib.Core.Path.{subst}
use timelord.Prelude.Time.{DateTime}
use timelord.Schedule.{OffWindow, Schedule, is_within, active_window, next_off_at}

-- `now` lies in the window `[off_at, on_at)`.
abbrev pub Contains : OffWindow → DateTime → Type 0
Contains w now = (w.off_at ≤ now) × (now < w.on_at)

-- A window found in a list: it contains `now`, and none in front of it does.
abbrev pub IsFirst : List OffWindow → DateTime → OffWindow → Type 0
IsFirst ws now w =
    Contains w now
    × ((front : List OffWindow) × (back : List OffWindow) × (ws ≡ front ++ w ∷ back)
        × All (λ v. ¬ (Contains v now)) front)

within : (now : DateTime) (w : OffWindow) → is_within now w ≡ true → Contains w now
within now w h = ground arith

not_within : (now : DateTime) (w : OffWindow) → is_within now w ≡ false → ¬ (Contains w now)
not_within now w h c = ground arith

find-IsFirst :
    (now : DateTime) (ws : List OffWindow) (w : OffWindow)
    → find (is_within now) ws ≡ some w
    → IsFirst ws now w
find-IsFirst now [] w h = cc
find-IsFirst now (v ∷ ws) w h = elim (Bool-cases (is_within now v)) [
  | inl inside ↦
      let e : v ≡ w = ground (arith, inside) in rw (← e) (within now v inside, ([], ws, refl, tt))
  | inr outside ↦
      let (c, (front, back, split, before)) = find-IsFirst now ws w (ground (arith, outside)) in
      (c, (v ∷ front, back, ap (λ l. v ∷ l) split, (not_within now v outside, before)))
]

find-none :
    (now : DateTime) (ws : List OffWindow)
    → find (is_within now) ws ≡ none
    → All (λ v. ¬ (Contains v now)) ws
find-none now [] h = tt
find-none now (v ∷ ws) h = elim (Bool-cases (is_within now v)) [
  | inl inside ↦ absurd (ground (arith, inside))
  | inr outside ↦ (not_within now v outside, find-none now ws (ground (arith, outside)))
]

none_found :
    (now : DateTime) (ws : List OffWindow)
    → All (λ v. ¬ (Contains v now)) ws
    → find (is_within now) ws ≡ none
none_found now [] h = refl
none_found now (v ∷ ws) h = ground (arith, h.0, none_found now ws h.1)

abbrev pub IsActive : List OffWindow → DateTime → Option OffWindow → Type 0
IsActive ws now none = All (λ v. ¬ (Contains v now)) ws
IsActive ws now (some w) = IsFirst ws now w

-- The active window is the first that contains `now`; there is none only when no window does.
pub active_window_correct :
    (s : Schedule) (now : DateTime) → IsActive s.windows now (active_window s now)
unfolding active_window
active_window_correct s now = elim (Option-cases (find (is_within now) s.windows)) [
  | inl e ↦ rw e (find-none now s.windows e)
  | inr (w, e) ↦ rw e (find-IsFirst now s.windows w e)
]

-- The earliest of the starts after `now`, or none.
abbrev pub IsEarliest : List OffWindow → DateTime → Option DateTime → Type 0
IsEarliest ws now none = All (λ w. w.off_at ≤ now) ws
IsEarliest ws now (some t) =
    (now < t)
    × All (λ w. (w.off_at ≤ now) ⊎ (t ≤ w.off_at)) ws
    × ((w : OffWindow) × (front : List OffWindow) × (back : List OffWindow) × (ws
          ≡ front ++ w ∷ back)
        × (w.off_at ≡ t))

IsEarliest-skip :
    (now : DateTime) (w : OffWindow) (ws : List OffWindow) (m : Option DateTime)
    → IsEarliest ws now m
    → w.off_at ≤ now
    → IsEarliest (w ∷ ws) now m
IsEarliest-skip now w ws none h le = (le, h)
IsEarliest-skip now w ws (some u) (lt, all, (v, front, back, split, e)) le =
    (lt, (inl le, all), (v, w ∷ front, back, ap (λ l. w ∷ l) split, e))

IsEarliest-take :
    (now : DateTime) (w : OffWindow) (ws : List OffWindow) (m : Option DateTime)
    → IsEarliest ws now m
    → now < w.off_at
    → IsEarliest (w ∷ ws) now (elim m [ none ↦ some w.off_at | some u ↦ some (min w.off_at u) ])
IsEarliest-take now w ws none h lt =
    (lt, (inr (omega arith), All-map (λ v le. inl le) ws h), (w, [], ws, refl, refl))
IsEarliest-take now w ws (some u) (lu, all, (v, front, back, split, e)) lt =
    elim (Bool-cases (leb w.off_at u)) [
      | inl le ↦
          let m : min w.off_at u ≡ w.off_at = ground arith in
          subst (λ k. IsEarliest (w ∷ ws) now (some k)) (sym m)
            (lt, (inr (omega arith), All-map (λ x h. ground arith) ws all), (w, [], ws, refl, refl))
      | inr gt ↦
          let m : min w.off_at u ≡ u = ground arith in
          subst (λ k. IsEarliest (w ∷ ws) now (some k)) (sym m)
            (lu, (inr (ground arith), all), (v, w ∷ front, back, ap (λ l. w ∷ l) split, e))
    ]

minimum-IsEarliest :
    (now : DateTime) (ws : List OffWindow)
    → IsEarliest ws now (minimum (keep (λ t. ltb now t) (map (λ w. w.off_at) ws)))
minimum-IsEarliest now [] = tt
minimum-IsEarliest now (w ∷ ws) = elim (Bool-cases (ltb now w.off_at)) [
  | inl later ↦ rw later (IsEarliest-take now w ws _ (minimum-IsEarliest now ws) (ground arith))
  | inr past ↦ rw past (IsEarliest-skip now w ws _ (minimum-IsEarliest now ws) (ground arith))
]

-- The next start is that of a window, lies after `now`, and no window starts between; there is none
-- only when every window has started.
pub next_off_at_correct :
    (s : Schedule) (now : DateTime) → IsEarliest s.windows now (next_off_at s now)
unfolding next_off_at
next_off_at_correct s now = minimum-IsEarliest now s.windows

-- The times after `now` and before the next start, if there is one.
abbrev pub IsBefore : DateTime → Option DateTime → Type 0
IsBefore u none = Unit
IsBefore u (some t) = u < t

still_quiet :
    (now u : DateTime) (m : Option DateTime) (ws : List OffWindow)
    → All (λ v. ¬ (Contains v now)) ws
    → IsEarliest ws now m
    → now ≤ u
    → IsBefore u m
    → All (λ v. ¬ (Contains v u)) ws
still_quiet now u none ws q e le b = All-both (λ v n past c. n (omega arith)) ws q e
still_quiet now u (some t) ws q e le b =
    All-both
      (λ v n split c. elim split [ inl past ↦ n (omega arith) | inr later ↦ absurd (omega arith) ])
      ws q e.1

-- If no window is active now, none is active at any later time before the next start: the agent
-- misses nothing by waiting for it.
pub quiet_until_next :
    (s : Schedule) (now u : DateTime)
    → active_window s now ≡ none
    → now ≤ u
    → IsBefore u (next_off_at s now)
    → active_window s u ≡ none
unfolding active_window
quiet_until_next s now u idle le b = none_found u s.windows (
    still_quiet now u (next_off_at s now) s.windows (find-none now s.windows idle)
      (next_off_at_correct s now) le b)
