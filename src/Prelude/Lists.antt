-- ===== src/Prelude/Lists.antt =====
-- Lists measured by native numbers, and tests and predicates on their elements.
use Prim.Native.Nat.{ℕ, zero, suc, ◌+◌, ◌-◌, ◌≤◌, min}
use mathlib.Core.Path.{◌≡◌, refl, ap}
use mathlib.Core.Logic.{inl, inr}
use mathlib.Core.Bool.{Bool, true, false, ◌||◌}
use mathlib.Core.Option.{Option, none, some}
use mathlib.Core.List.{List, [], ◌∷◌, ◌++◌, map}
use native.Mathlib.Omega.{arith}
use timelord.Prelude.Tests.{if◌then◌else◌, Bool-cases, is_some}

module _ {ℓ} {A : Type ℓ} where
  abbrev pub length : List A → ℕ
  length [] = 0
  length (x ∷ xs) = suc (length xs)

  abbrev pub take : ℕ → List A → List A
  take zero xs = []
  take (suc n) [] = []
  take (suc n) (x ∷ xs) = x ∷ take n xs

  abbrev pub drop : ℕ → List A → List A
  drop zero xs = xs
  drop (suc n) [] = []
  drop (suc n) (x ∷ xs) = drop n xs

  abbrev pub get_or : List A → ℕ → A → A
  get_or [] i d = d
  get_or (x ∷ xs) zero d = x
  get_or (x ∷ xs) (suc i) d = get_or xs i d

  abbrev pub any : (A → Bool) → List A → Bool
  any p [] = false
  any p (x ∷ xs) = p x || any p xs

  -- `iter().filter(p)`, and `retain(p)`.
  abbrev pub keep : (A → Bool) → List A → List A
  keep p [] = []
  keep p (x ∷ xs) = let rest = keep p xs in if p x then x ∷ rest else rest

  -- `iter().find(p)`.
  abbrev pub find : (A → Bool) → List A → Option A
  find p [] = none
  find p (x ∷ xs) = if p x then some x else find p xs

  abbrev pub All {κ} : (A → Type κ) → List A → Type κ
  All P [] = Unit
  All P (x ∷ xs) = P x × All P xs

  -- `R` holds of each element and each one behind it.
  abbrev pub Pairwise {κ} : (A → A → Type κ) → List A → Type κ
  Pairwise R [] = Unit
  Pairwise R (x ∷ xs) = All (R x) xs × Pairwise R xs

-- `Iterator::min`.
abbrev pub minimum : List ℕ → Option ℕ
minimum [] = none
minimum (t ∷ ts) = elim (minimum ts) [ none ↦ some t | some u ↦ some (min t u) ]

module _ {ℓ} {A : Type ℓ} where
  pub length-append : (xs ys : List A) → length (xs ++ ys) ≡ length xs + length ys
  length-append [] ys = omega arith
  length-append (x ∷ xs) ys = omega (arith, length-append xs ys)

  pub length-keep : (p : A → Bool) (xs : List A) → length (keep p xs) ≤ length xs
  length-keep p [] = omega arith
  length-keep p (x ∷ xs) = ground (arith, length-keep p xs)

  pub length-take-le : (n : ℕ) (xs : List A) → length (take n xs) ≤ n
  length-take-le zero xs = omega arith
  length-take-le (suc n) [] = omega arith
  length-take-le (suc n) (x ∷ xs) = omega (arith, length-take-le n xs)

  pub length-take : (n : ℕ) (xs : List A) → length (take n xs) ≡ min n (length xs)
  length-take zero xs = omega arith
  length-take (suc n) [] = omega arith
  length-take (suc n) (x ∷ xs) = omega (arith, length-take n xs)

  pub length-drop : (n : ℕ) (xs : List A) → length (drop n xs) ≡ length xs - n
  length-drop zero xs = omega arith
  length-drop (suc n) [] = omega arith
  length-drop (suc n) (x ∷ xs) = omega (arith, length-drop n xs)

  pub take-append-drop : (n : ℕ) (xs : List A) → take n xs ++ drop n xs ≡ xs
  take-append-drop zero xs = refl
  take-append-drop (suc n) [] = refl
  take-append-drop (suc n) (x ∷ xs) = ap (λ l. x ∷ l) (take-append-drop n xs)

  pub All-append {κ} : (P : A → Type κ) (xs ys : List A) → All P xs → All P ys → All P (xs ++ ys)
  All-append P [] ys hx hy = hy
  All-append P (x ∷ xs) ys hx hy = (hx.0, All-append P xs ys hx.1 hy)

  pub All-drop {κ} : (P : A → Type κ) (n : ℕ) (xs : List A) → All P xs → All P (drop n xs)
  All-drop P zero xs h = h
  All-drop P (suc n) [] h = tt
  All-drop P (suc n) (x ∷ xs) h = All-drop P n xs h.1

  pub All-take {κ} : (P : A → Type κ) (n : ℕ) (xs : List A) → All P xs → All P (take n xs)
  All-take P zero xs h = tt
  All-take P (suc n) [] h = tt
  All-take P (suc n) (x ∷ xs) h = (h.0, All-take P n xs h.1)

  pub All-keep {κ} : (P : A → Type κ) (p : A → Bool) (xs : List A) → All P xs → All P (keep p xs)
  All-keep P p [] h = tt
  All-keep P p (x ∷ xs) h = elim (Bool-cases (p x)) [
    | inl kept ↦ rw kept (h.0, All-keep P p xs h.1)
    | inr dropped ↦ rw dropped (All-keep P p xs h.1)
  ]

  -- What a filter keeps passes its test.
  pub keep-All : (p : A → Bool) (xs : List A) → All (λ x. p x ≡ true) (keep p xs)
  keep-All p [] = tt
  keep-All p (x ∷ xs) = elim (Bool-cases (p x)) [
    | inl kept ↦ rw kept (kept, keep-All p xs)
    | inr dropped ↦ rw dropped (keep-All p xs)
  ]

  pub All-map {κ μ} :
      {P : A → Type κ} {Q : A → Type μ} (f : (x : A) → P x → Q x) (xs : List A)
      → All P xs
      → All Q xs
  All-map f [] h = tt
  All-map f (x ∷ xs) h = (f x h.0, All-map f xs h.1)

  pub All-take_drop {κ} :
      (P : A → Type κ) (n : ℕ) (xs : List A) → All P (take n xs) → All P (drop n xs) → All P xs
  All-take_drop P zero xs h k = k
  All-take_drop P (suc n) [] h k = tt
  All-take_drop P (suc n) (x ∷ xs) h k = (h.0, All-take_drop P n xs h.1 k)

  pub find-any : (p : A → Bool) (xs : List A) → is_some (find p xs) ≡ any p xs
  find-any p [] = refl
  find-any p (x ∷ xs) = elim (Bool-cases (p x)) [ inl h ↦ rw h refl | inr h ↦ rw h (find-any p xs) ]

  pub any-append : (p : A → Bool) (xs ys : List A) → any p (xs ++ ys) ≡ any p xs || any p ys
  any-append p [] ys = refl
  any-append p (x ∷ xs) ys = ground (arith, any-append p xs ys)

  pub keep-append : (p : A → Bool) (xs ys : List A) → keep p (xs ++ ys) ≡ keep p xs ++ keep p ys
  keep-append p [] ys = refl
  keep-append p (x ∷ xs) ys = ground (arith, keep-append p xs ys)

  pub keep_nothing : (p : A → Bool) (xs : List A) → All (λ x. p x ≡ false) xs → keep p xs ≡ []
  keep_nothing p [] h = refl
  keep_nothing p (x ∷ xs) h = ground (arith, keep_nothing p xs h.1)

  pub keep_everything : (p : A → Bool) (xs : List A) → All (λ x. p x ≡ true) xs → keep p xs ≡ xs
  keep_everything p [] h = refl
  keep_everything p (x ∷ xs) h = ground (arith, keep_everything p xs h.1)

  -- A statement about every pair, read from the other side.
  pub All-swap {κ} :
      (R : A → A → Type κ) (xs ys : List A)
      → All (λ x. All (R x) ys) xs
      → All (λ y. All (λ x. R x y) xs) ys
  All-swap R xs [] h = tt
  All-swap R xs (y ∷ ys) h =
      (All-map (λ x k. k.0) xs h, All-swap R xs ys (All-map (λ x k. k.1) xs h))

  module _ {κ} (R : A → A → Type κ) where
    pub Pairwise-keep : (p : A → Bool) (xs : List A) → Pairwise R xs → Pairwise R (keep p xs)
    Pairwise-keep p [] h = tt
    Pairwise-keep p (x ∷ xs) h = elim (Bool-cases (p x)) [
      | inl kept ↦ rw kept (All-keep (R x) p xs h.0, Pairwise-keep p xs h.1)
      | inr dropped ↦ rw dropped (Pairwise-keep p xs h.1)
    ]

    pub take-Pairwise : (n : ℕ) (xs : List A) → Pairwise R xs → Pairwise R (take n xs)
    take-Pairwise zero xs h = tt
    take-Pairwise (suc n) [] h = tt
    take-Pairwise (suc n) (x ∷ xs) h = (All-take (R x) n xs h.0, take-Pairwise n xs h.1)

    pub Pairwise-append :
        (xs ys : List A)
        → Pairwise R xs
        → Pairwise R ys
        → All (λ x. All (R x) ys) xs
        → Pairwise R (xs ++ ys)
    Pairwise-append [] ys h k c = k
    Pairwise-append (x ∷ xs) ys h k c =
        (All-append (R x) xs ys h.0 c.0, Pairwise-append xs ys h.1 k c.1)

    pub Pairwise-take :
        (n : ℕ) (xs : List A) → Pairwise R xs → All (λ x. All (R x) (drop n xs)) (take n xs)
    Pairwise-take zero xs h = tt
    Pairwise-take (suc n) [] h = tt
    Pairwise-take (suc n) (x ∷ xs) h = (All-drop (R x) n xs h.0, Pairwise-take n xs h.1)

module _ {ℓ} {A : Type ℓ} where
  pub All-both {κ μ ν} :
      {P : A → Type κ} {Q : A → Type μ} {S : A → Type ν} (f : (x : A) → P x → Q x → S x)
      (xs : List A)
      → All P xs
      → All Q xs
      → All S xs
  All-both f [] h k = tt
  All-both f (x ∷ xs) h k = (f x h.0 k.0, All-both f xs h.1 k.1)

  pub All-of_all {κ} : (P : A → Type κ) (f : (x : A) → P x) (xs : List A) → All P xs
  All-of_all P f [] = tt
  All-of_all P f (x ∷ xs) = (f x, All-of_all P f xs)

module _ {ℓ μ} {A : Type ℓ} {B : Type μ} where
  pub All-over-map {κ} :
      (P : B → Type κ) (f : A → B) (xs : List A) → All (λ x. P (f x)) xs → All P (map f xs)
  All-over-map P f [] h = tt
  All-over-map P f (x ∷ xs) h = (h.0, All-over-map P f xs h.1)

  pub map-All {κ} :
      (P : B → Type κ) (f : A → B) (xs : List A) → All P (map f xs) → All (λ x. P (f x)) xs
  map-All P f [] h = tt
  map-All P f (x ∷ xs) h = (h.0, map-All P f xs h.1)

  pub Pairwise-map {κ ν} :
      (R : A → A → Type κ) (S : B → B → Type ν) (f : A → B)
      → ((x y : A) → R x y → S (f x) (f y))
      → (xs : List A) → Pairwise R xs
      → Pairwise S (map f xs)
  Pairwise-map R S f g [] h = tt
  Pairwise-map R S f g (x ∷ xs) h =
      (All-over-map (S (f x)) f xs (All-map (g x) xs h.0), Pairwise-map R S f g xs h.1)

  pub length-map : (f : A → B) (xs : List A) → length (map f xs) ≡ length xs
  length-map f [] = refl
  length-map f (x ∷ xs) = ap suc (length-map f xs)

  pub any-map : (p : B → Bool) (f : A → B) (xs : List A) → any p (map f xs) ≡ any (λ x. p (f x)) xs
  any-map p f [] = refl
  any-map p f (x ∷ xs) = ap (λ b. p (f x) || b) (any-map p f xs)
