-- ===== src/Engine/Tightest.antt =====
-- Which threshold of `THRESHOLDS` a warning is for.
use timelord.Prelude.{
  ℕ, ◌≤◌, ◌≡◌, sym, true, false, Option, none, some, List, [], ◌∷◌, keep, any, minimum, min, leb,
  All, All-map, arith, Bool-cases, inl, inr, ◌⊎◌, ◌==◌,
}
use mathlib.Core.Path.{subst}
use timelord.Prelude.Int.{ℤ, pos, ◌≤ℤ◌, leb_ℤ}
use timelord.Engine.{thresholds, crossed}

-- The least of the thresholds that `remaining` has crossed; none only when it has crossed none.
abbrev pub IsTightest : ℤ → List ℕ → Option ℕ → Type 0
IsTightest remaining ts none = All (λ t. leb_ℤ remaining (pos t) ≡ false) ts
IsTightest remaining ts (some t) =
    (remaining ≤ℤ pos t)
    × All (λ u. (leb_ℤ remaining (pos u) ≡ false) ⊎ (t ≤ u)) ts
    × (any (λ u. u == t) ts ≡ true)

IsTightest-skip :
    (remaining : ℤ) (t : ℕ) (ts : List ℕ) (m : Option ℕ)
    → IsTightest remaining ts m
    → leb_ℤ remaining (pos t) ≡ false
    → IsTightest remaining (t ∷ ts) m
IsTightest-skip r t ts none h off = (off, h)
IsTightest-skip r t ts (some u) (le, all, e) off = (le, (inl off, all), ground (arith, e))

IsTightest-take :
    (remaining : ℤ) (t : ℕ) (ts : List ℕ) (m : Option ℕ)
    → IsTightest remaining ts m
    → leb_ℤ remaining (pos t) ≡ true
    → IsTightest remaining (t ∷ ts) (elim m [ none ↦ some t | some u ↦ some (min t u) ])
IsTightest-take r t ts none h on =
    (ground arith, (inr (omega arith), All-map (λ u off. inl off) ts h), ground arith)
IsTightest-take r t ts (some u) (le, all, e) on = elim (Bool-cases (leb t u)) [
  | inl below ↦
      let m : min t u ≡ t = ground arith in
      subst (λ k. IsTightest r (t ∷ ts) (some k)) (sym m)
        (ground arith, (inr (omega arith), All-map (λ x h. ground arith) ts all), ground arith)
  | inr above ↦
      let m : min t u ≡ u = ground arith in
      subst (λ k. IsTightest r (t ∷ ts) (some k)) (sym m)
        (le, (inr (ground arith), all), ground (arith, e))
]

tightest : (r : ℤ) (ts : List ℕ) → IsTightest r ts (minimum (keep (λ t. leb_ℤ r (pos t)) ts))
tightest r [] = tt
tightest r (t ∷ ts) = elim (Bool-cases (leb_ℤ r (pos t))) [
  | inl on ↦ rw on (IsTightest-take r t ts _ (tightest r ts) on)
  | inr off ↦ rw off (IsTightest-skip r t ts _ (tightest r ts) off)
]

-- The threshold that a warning is for.
pub crossed-IsTightest : (r : ℤ) → IsTightest r thresholds (crossed r)
unfolding crossed
crossed-IsTightest r = tightest r thresholds
