-- ===== src/Prelude/Sort.antt =====
-- A stable sort by a numeric key: what `ORDER BY key ASC` and `sort_by_key` leave. Elements of
-- equal key keep their order.
use Prim.Native.Nat.{ℕ, suc, ◌≤◌}
use mathlib.Core.Logic.{inl, inr}
use mathlib.Core.Path.{◌≡◌, refl, ap, ◌∙◌}
use mathlib.Core.Bool.{Bool, ◌||◌}
use mathlib.Core.List.{List, [], ◌∷◌}
use native.Mathlib.Omega.{arith}
use timelord.Prelude.Tests.{leb, if◌then◌else◌, Bool-cases, leb→le}
use timelord.Prelude.Lists.{length, keep, any, All, Pairwise}

module _ {ℓ} {A : Type ℓ} (key : A → ℕ) where
  pub insert_sorted : A → List A → List A
  insert_sorted a [] = a ∷ []
  insert_sorted a (x ∷ xs) =
      let rest = insert_sorted a xs in if leb (key a) (key x) then a ∷ x ∷ xs else x ∷ rest

  unfoldable pub sort_by_key : List A → List A
  unfolding insert_sorted
  sort_by_key [] = []
  sort_by_key (x ∷ xs) = insert_sorted x (sort_by_key xs)

  -- Each element's key is at most those behind it.
  abbrev pub IsSorted : List A → Type 0
  IsSorted = Pairwise (λ x y. key x ≤ key y)

  module _ {κ} (P : A → Type κ) where
    All-insert_sorted : (a : A) (xs : List A) → P a → All P xs → All P (insert_sorted a xs)
    unfolding insert_sorted
    All-insert_sorted a [] h k = (h, tt)
    All-insert_sorted a (x ∷ xs) h k = elim (Bool-cases (leb (key a) (key x))) [
      | inl le ↦ rw le (h, k)
      | inr gt ↦ rw gt (k.0, All-insert_sorted a xs h k.1)
    ]

    pub All-sort_by_key : (xs : List A) → All P xs → All P (sort_by_key xs)
    unfolding sort_by_key
    All-sort_by_key [] h = tt
    All-sort_by_key (x ∷ xs) h = All-insert_sorted x (sort_by_key xs) h.0 (All-sort_by_key xs h.1)

    insert_sorted-All : (a : A) (xs : List A) → All P (insert_sorted a xs) → P a × All P xs
    unfolding insert_sorted
    insert_sorted-All a [] h = (h.0, tt)
    insert_sorted-All a (x ∷ xs) h = elim (Bool-cases (leb (key a) (key x))) [
      | inl le ↦ rw le at h
      | inr gt ↦
          let h' = rw gt at h in let rest = insert_sorted-All a xs h'.1 in (rest.0, (h'.0, rest.1))
    ]

    pub sort_by_key-All : (xs : List A) → All P (sort_by_key xs) → All P xs
    unfolding sort_by_key
    sort_by_key-All [] h = tt
    sort_by_key-All (x ∷ xs) h =
        let (hx, rest) = insert_sorted-All x (sort_by_key xs) h in (hx, sort_by_key-All xs rest)

  keep-insert_sorted :
      (p : A → Bool) (a : A) (xs : List A)
      → length (keep p (insert_sorted a xs)) ≡ length (keep p (a ∷ xs))
  unfolding insert_sorted
  keep-insert_sorted p a [] = refl
  keep-insert_sorted p a (x ∷ xs) = ground (arith, keep-insert_sorted p a xs)

  -- A filter keeps as many of the sorted list as of the list.
  pub length-keep-sort_by_key :
      (p : A → Bool) (xs : List A) → length (keep p (sort_by_key xs)) ≡ length (keep p xs)
  unfolding sort_by_key
  length-keep-sort_by_key p [] = refl
  length-keep-sort_by_key p (x ∷ xs) =
      ground (arith, keep-insert_sorted p x (sort_by_key xs), length-keep-sort_by_key p xs)

  any-insert_sorted :
      (p : A → Bool) (a : A) (xs : List A) → any p (insert_sorted a xs) ≡ any p (a ∷ xs)
  unfolding insert_sorted
  any-insert_sorted p a [] = refl
  any-insert_sorted p a (x ∷ xs) = ground (arith, any-insert_sorted p a xs)

  pub any-sort_by_key : (p : A → Bool) (xs : List A) → any p (sort_by_key xs) ≡ any p xs
  unfolding sort_by_key
  any-sort_by_key p [] = refl
  any-sort_by_key p (x ∷ xs) =
      any-insert_sorted p x (sort_by_key xs) ∙ ap (λ b. p x || b) (any-sort_by_key p xs)

  length-insert_sorted : (a : A) (xs : List A) → length (insert_sorted a xs) ≡ suc (length xs)
  unfolding insert_sorted
  length-insert_sorted a [] = refl
  length-insert_sorted a (x ∷ xs) = ground (arith, length-insert_sorted a xs)

  pub length-sort_by_key : (xs : List A) → length (sort_by_key xs) ≡ length xs
  unfolding sort_by_key
  length-sort_by_key [] = refl
  length-sort_by_key (x ∷ xs) =
      ground (arith, length-insert_sorted x (sort_by_key xs), length-sort_by_key xs)

  All-weaken :
      (a b : A) (xs : List A)
      → key a ≤ key b
      → All (λ y. key b ≤ key y) xs
      → All (λ y. key a ≤ key y) xs
  All-weaken a b [] le h = tt
  All-weaken a b (x ∷ xs) le h = (omega arith, All-weaken a b xs le h.1)

  insert_sorted-IsSorted : (a : A) (xs : List A) → IsSorted xs → IsSorted (insert_sorted a xs)
  unfolding insert_sorted
  insert_sorted-IsSorted a [] h = (tt, tt)
  insert_sorted-IsSorted a (x ∷ xs) h = elim (Bool-cases (leb (key a) (key x))) [
    | inl le ↦
        let below = leb→le (key a) (key x) le in rw le ((below, All-weaken a x xs below h.0), h)
    | inr gt ↦ rw gt (
      All-insert_sorted (λ y. key x ≤ key y) a xs (ground arith) h.0,
      insert_sorted-IsSorted a xs h.1,
    )
  ]

  pub sort_by_key-IsSorted : (xs : List A) → IsSorted (sort_by_key xs)
  unfolding sort_by_key
  sort_by_key-IsSorted [] = tt
  sort_by_key-IsSorted (x ∷ xs) =
      insert_sorted-IsSorted x (sort_by_key xs) (sort_by_key-IsSorted xs)

  -- A symmetric relation between every two elements does not mind the order.
  module _ {κ} (R : A → A → Type κ) (swap : (x y : A) → R x y → R y x) where
    insert_sorted-Pairwise :
        (a : A) (xs : List A) → All (R a) xs → Pairwise R xs → Pairwise R (insert_sorted a xs)
    unfolding insert_sorted
    insert_sorted-Pairwise a [] h k = (tt, tt)
    insert_sorted-Pairwise a (x ∷ xs) h k = elim (Bool-cases (leb (key a) (key x))) [
      | inl le ↦ rw le (h, k)
      | inr gt ↦
          rw gt
            (All-insert_sorted (R x) a xs (swap a x h.0) k.0, insert_sorted-Pairwise a xs h.1 k.1)
    ]

    pub sort_by_key-Pairwise : (xs : List A) → Pairwise R xs → Pairwise R (sort_by_key xs)
    unfolding sort_by_key
    sort_by_key-Pairwise [] h = tt
    sort_by_key-Pairwise (x ∷ xs) h =
        insert_sorted-Pairwise x (sort_by_key xs) (All-sort_by_key (R x) xs h.0)
          (sort_by_key-Pairwise xs h.1)
