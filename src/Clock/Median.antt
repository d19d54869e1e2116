-- ===== src/Clock/Median.antt =====
-- The median of agent/src/clock.rs against servers that are wrong.
use timelord.Prelude.{
  ℕ, zero, suc, ◌+◌, ◌-◌, ◌*◌, ◌/◌, ◌%◌, ◌≤◌, ◌<◌, ◌≡◌, refl, ap, Bool, true, ◌&&◌, some, List, [],
  ◌∷◌, keep, length, All, All-map, Pairwise, keep_everything, arith, Bool-cases, inl, inr,
  if◌then◌else◌, ◌==◌,
}
use timelord.Prelude.Int.{
  ℤ, ◌≤ℤ◌, ◌+ℤ◌, ltb_ℤ, leb_ℤ, quot_ℤ, +ℤ_parts, sub_ℕ_parts, pos_part, neg_part,
}
use timelord.Clock.{insert_ℤ, sort_unstable, nth, median}

abbrev IsSorted : List ℤ → Type 0
IsSorted = Pairwise (λ a b. a ≤ℤ b)

keep-insert_ℤ :
    (p : ℤ → Bool) (a : ℤ) (xs : List ℤ)
    → length (keep p (insert_ℤ a xs)) ≡ length (keep p (a ∷ xs))
unfolding insert_ℤ
keep-insert_ℤ p a [] = refl
keep-insert_ℤ p a (x ∷ xs) = ground (arith, keep-insert_ℤ p a xs)

keep-sort_unstable :
    (p : ℤ → Bool) (xs : List ℤ) → length (keep p (sort_unstable xs)) ≡ length (keep p xs)
unfolding sort_unstable
keep-sort_unstable p [] = refl
keep-sort_unstable p (x ∷ xs) =
    ground (arith, keep-insert_ℤ p x (sort_unstable xs), keep-sort_unstable p xs)

length-insert_ℤ : (a : ℤ) (xs : List ℤ) → length (insert_ℤ a xs) ≡ suc (length xs)
unfolding insert_ℤ
length-insert_ℤ a [] = refl
length-insert_ℤ a (x ∷ xs) = ground (arith, length-insert_ℤ a xs)

length-sort_unstable : (xs : List ℤ) → length (sort_unstable xs) ≡ length xs
unfolding sort_unstable
length-sort_unstable [] = refl
length-sort_unstable (x ∷ xs) =
    ground (arith, length-insert_ℤ x (sort_unstable xs), length-sort_unstable xs)

All-insert_ℤ :
    (b a : ℤ) (xs : List ℤ) → b ≤ℤ a → All (λ y. b ≤ℤ y) xs → All (λ y. b ≤ℤ y) (insert_ℤ a xs)
unfolding insert_ℤ
All-insert_ℤ b a [] h k = (h, tt)
All-insert_ℤ b a (x ∷ xs) h k = elim (Bool-cases (leb_ℤ a x)) [
  | inl le ↦ rw le (h, k)
  | inr gt ↦ rw gt (k.0, All-insert_ℤ b a xs h k.1)
]

insert_ℤ-IsSorted : (a : ℤ) (xs : List ℤ) → IsSorted xs → IsSorted (insert_ℤ a xs)
unfolding insert_ℤ
insert_ℤ-IsSorted a [] h = (tt, tt)
insert_ℤ-IsSorted a (x ∷ xs) h = elim (Bool-cases (leb_ℤ a x)) [
  | inl le ↦
      let below : a ≤ℤ x = ground arith in rw le ((below, All-map (λ y k. omega arith) xs h.0), h)
  | inr gt ↦ rw gt (All-insert_ℤ x a xs (ground arith) h.0, insert_ℤ-IsSorted a xs h.1)
]

sort_unstable-IsSorted : (xs : List ℤ) → IsSorted (sort_unstable xs)
unfolding sort_unstable
sort_unstable-IsSorted [] = tt
sort_unstable-IsSorted (x ∷ xs) = insert_ℤ-IsSorted x (sort_unstable xs) (sort_unstable-IsSorted xs)

abbrev below : ℤ → List ℤ → ℕ
below lo xs = length (keep (λ x. ltb_ℤ x lo) xs)

abbrev above : ℤ → List ℤ → ℕ
above hi xs = length (keep (λ x. ltb_ℤ hi x) xs)

abbrev pub within : ℤ → ℤ → List ℤ → ℕ
within lo hi xs = length (keep (λ x. leb_ℤ lo x && leb_ℤ x hi) xs)

All-nth : (lo : ℤ) (xs : List ℤ) (i : ℕ) → All (λ y. lo ≤ℤ y) xs → i < length xs → lo ≤ℤ nth xs i
All-nth lo [] i h lt = absurd (omega arith)
All-nth lo (x ∷ xs) zero h lt = h.0
All-nth lo (x ∷ xs) (suc i) h lt = All-nth lo xs i h.1 (omega arith)

-- In a sorted list, what stands at or behind the number of the too small ones is not too small.
nth-low :
    (lo : ℤ) (xs : List ℤ) (i : ℕ) → IsSorted xs → below lo xs ≤ i → i < length xs → lo ≤ℤ nth xs i
nth-low lo [] i s h lt = absurd (omega arith)
nth-low lo (x ∷ xs) zero s h lt = ground arith
nth-low lo (x ∷ xs) (suc i) s h lt = elim (Bool-cases (ltb_ℤ x lo)) [
  | inl small ↦ nth-low lo xs i s.1 (ground arith) (omega arith)
  | inr fine ↦
      let le : lo ≤ℤ x = ground arith in
      All-nth lo xs i (All-map (λ y k. omega arith) xs s.0) (omega arith)
]

all_above :
    (hi x : ℤ) (xs : List ℤ) → ltb_ℤ hi x ≡ true → All (λ y. x ≤ℤ y) xs → above hi xs ≡ length xs
all_above hi x xs h k =
    ap length (keep_everything (λ y. ltb_ℤ hi y) xs (All-map (λ y le. ground arith) xs k))

nth-high :
    (hi : ℤ) (xs : List ℤ) (i : ℕ) → IsSorted xs → i + above hi xs < length xs → nth xs i ≤ℤ hi
nth-high hi [] i s lt = absurd (omega arith)
nth-high hi (x ∷ xs) zero s lt = elim (Bool-cases (ltb_ℤ hi x)) [
  | inl large ↦ absurd (ground (arith, all_above hi x xs large s.0))
  | inr fine ↦ ground arith
]
nth-high hi (x ∷ xs) (suc i) s lt = elim (Bool-cases (ltb_ℤ hi x)) [
  | inl large ↦ absurd (ground (arith, all_above hi x xs large s.0))
  | inr fine ↦ nth-high hi xs i s.1 (ground arith)
]

few_below : (lo hi : ℤ) (xs : List ℤ) → below lo xs + within lo hi xs ≤ length xs
few_below lo hi [] = omega arith
few_below lo hi (x ∷ xs) = ground (arith, few_below lo hi xs)

few_above : (lo hi : ℤ) (xs : List ℤ) → above hi xs + within lo hi xs ≤ length xs
few_above lo hi [] = omega arith
few_above lo hi (x ∷ xs) = ground (arith, few_above lo hi xs)

average :
    (lo hi x y : ℤ)
    → lo ≤ℤ x
    → lo ≤ℤ y
    → x ≤ℤ hi
    → y ≤ℤ hi
    → (lo ≤ℤ quot_ℤ (x +ℤ y) 2) × (quot_ℤ (x +ℤ y) 2 ≤ℤ hi)
average lo hi x y a b c d =
    let sum = +ℤ_parts x y in
    let half = sub_ℕ_parts (pos_part (x +ℤ y) / 2) (neg_part (x +ℤ y) / 2) in
    (omega (arith, sum, half), omega (arith, sum, half))

-- The choice of `median` from the sorted values.
middle : List ℤ → ℤ
middle values =
    if length values % 2 == 1
    then nth values (length values / 2)
    else quot_ℤ (nth values (length values / 2 - 1) +ℤ nth values (length values / 2)) 2

middle_within :
    (lo hi : ℤ) (values : List ℤ)
    → IsSorted values
    → 2 * below lo values < length values
    → 2 * above hi values < length values
    → (lo ≤ℤ middle values) × (middle values ≤ℤ hi)
unfolding middle
middle_within lo hi values s few many = elim (Bool-cases (length values % 2 == 1)) [
  | inl odd ↦ rw odd (
    nth-low lo values (length values / 2) s (omega arith) (omega arith),
    nth-high hi values (length values / 2) s (omega arith),
  )
  | inr even ↦
      let two : length values % 2 ≡ 0 = ground arith in
      rw even (
        average lo hi (nth values (length values / 2 - 1)) (nth values (length values / 2))
          (nth-low lo values (length values / 2 - 1) s (omega (arith, two)) (omega (arith, two)))
          (nth-low lo values (length values / 2) s (omega (arith, two)) (omega (arith, two)))
          (nth-high hi values (length values / 2 - 1) s (omega (arith, two)))
          (nth-high hi values (length values / 2) s (omega (arith, two))))
]

median-middle :
    (values : List ℤ) → 0 < length values → median values ≡ some (middle (sort_unstable values))
unfolding median middle
median-middle [] h = absurd (omega arith)
median-middle (v ∷ vs) h = refl

-- If more than half of the measured offsets lie between two bounds, the median does: no minority of
-- wrong servers moves the clock out of what the majority says.
pub median_robust :
    (lo hi : ℤ) (values : List ℤ)
    → length values < 2 * within lo hi values
    → (m : ℤ) × (median values ≡ some m) × (lo ≤ℤ m) × (m ≤ℤ hi)
median_robust lo hi values most =
    let n = length-sort_unstable values in
    let b = keep-sort_unstable (λ x. ltb_ℤ x lo) values in
    let c = keep-sort_unstable (λ x. ltb_ℤ hi x) values in
    let fb = few_below lo hi values in
    let fc = few_above lo hi values in
    let (low, high) =
      middle_within lo hi (sort_unstable values) (sort_unstable-IsSorted values)
        (omega (arith, n, b, fb)) (omega (arith, n, c, fc)) in
    (middle (sort_unstable values), median-middle values (omega (arith, fb)), low, high)
