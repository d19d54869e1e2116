-- ===== src/Prelude/Map.antt =====
-- `HashMap` with numeric keys, as an association list. Nothing here depends on the order of the
-- entries, which the source's maps leave open.
use timelord.Prelude.Tests.{◌==◌, if◌then◌else◌, is_some}
use Prim.Native.Nat.{ℕ}
use mathlib.Core.Path.{◌≡◌, refl}
use mathlib.Core.Bool.{Bool}
use mathlib.Core.Option.{Option, none, some}
use mathlib.Core.List.{List, [], ◌∷◌}
use native.Mathlib.Omega.{arith}

module _ {ℓ} {V : Type ℓ} where
  unfoldable pub lookup : ℕ → List (ℕ × V) → Option V
  lookup k [] = none
  lookup k ((j, v) ∷ m) = if j == k then some v else lookup k m

  unfoldable pub remove : ℕ → List (ℕ × V) → List (ℕ × V)
  remove k [] = []
  remove k ((j, v) ∷ m) = let rest = remove k m in if j == k then rest else (j, v) ∷ rest

  unfoldable pub insert : ℕ → V → List (ℕ × V) → List (ℕ × V)
  unfolding remove
  insert k v m = (k, v) ∷ remove k m

  abbrev pub contains_key : ℕ → List (ℕ × V) → Bool
  contains_key k m = is_some (lookup k m)

  pub lookup-remove :
      (k j : ℕ) (m : List (ℕ × V)) → lookup j (remove k m) ≡ (if k == j then none else lookup j m)
  unfolding lookup remove
  lookup-remove k j [] = ground arith
  lookup-remove k j ((i, v) ∷ m) = ground (arith, lookup-remove k j m)

  pub lookup-insert :
      (k j : ℕ) (v : V) (m : List (ℕ × V))
      → lookup j (insert k v m) ≡ (if k == j then some v else lookup j m)
  unfolding lookup insert
  lookup-insert k j v m = ground (arith, lookup-remove k j m)

  pub remove_idem : (k : ℕ) (m : List (ℕ × V)) → remove k (remove k m) ≡ remove k m
  unfolding remove
  remove_idem k [] = refl
  remove_idem k ((j, v) ∷ m) = ground (arith, remove_idem k m)

  pub insert_idem : (k : ℕ) (v : V) (m : List (ℕ × V)) → insert k v (insert k v m) ≡ insert k v m
  unfolding insert
  insert_idem k v m = ground (arith, remove_idem k m)

  -- Each key stands once.
  abbrev pub HasUniqueKeys : List (ℕ × V) → Type ℓ
  HasUniqueKeys [] = Unit
  HasUniqueKeys ((k, v) ∷ m) = (lookup k m ≡ none) × HasUniqueKeys m

  pub remove-HasUniqueKeys :
      (k : ℕ) (m : List (ℕ × V)) → HasUniqueKeys m → HasUniqueKeys (remove k m)
  unfolding remove
  remove-HasUniqueKeys k [] h = tt
  remove-HasUniqueKeys k ((j, v) ∷ m) h =
      ground (arith, remove-HasUniqueKeys k m h.1, lookup-remove k j m)

  pub insert-HasUniqueKeys :
      (k : ℕ) (v : V) (m : List (ℕ × V)) → HasUniqueKeys m → HasUniqueKeys (insert k v m)
  unfolding insert
  insert-HasUniqueKeys k v m h = ground (arith, remove-HasUniqueKeys k m h, lookup-remove k k m)

pub ruleset map_laws = (lookup-remove, lookup-insert)
