-- ===== src/Prelude/Set.antt =====
-- A `HashSet<Uuid>` as the list of its elements. The code never reads its order: it tests
-- membership, or sorts.
use timelord.Prelude.Time.{Uuid}
use mathlib.Core.Path.{◌≡◌, refl}
use mathlib.Core.Logic.{inl, inr}
use mathlib.Core.Bool.{Bool, true, not, ◌||◌, ◌&&◌}
use mathlib.Core.List.{List, [], ◌∷◌}
use native.Mathlib.Omega.{arith}
use timelord.Prelude.Tests.{◌==◌, if◌then◌else◌, Bool-cases}
use timelord.Prelude.Lists.{keep, any}

abbrev pub member : Uuid → List Uuid → Bool
member id s = any (λ x. x == id) s

-- `insert`.
abbrev pub add : Uuid → List Uuid → List Uuid
add id s = if member id s then s else id ∷ s

-- `extend`, and with `[]` the `collect` of an iterator.
abbrev pub add_all : List Uuid → List Uuid → List Uuid
add_all [] s = s
add_all (id ∷ ids) s = add_all ids (add id s)

-- `difference`.
abbrev pub difference : List Uuid → List Uuid → List Uuid
difference s t = keep (λ id. not (member id t)) s

pub member-add : (id x : Uuid) (s : List Uuid) → member id (add x s) ≡ member id s || (x == id)
member-add id x s = ground arith

pub member-add_all :
    (id : Uuid) (ids s : List Uuid) → member id (add_all ids s) ≡ member id s || member id ids
member-add_all id [] s = ground arith
member-add_all id (x ∷ ids) s = ground (arith, member-add_all id ids (add x s), member-add id x s)

refl_test : (id : Uuid) → (id == id) ≡ true
refl_test id = ground arith

-- A filter by a test on the element.
pub member-keep :
    (p : Uuid → Bool) (id : Uuid) (s : List Uuid) → member id (keep p s) ≡ member id s && p id
member-keep p id [] = refl
member-keep p id (x ∷ s) = elim (Bool-cases (x == id)) [
  | inl here ↦
      let e : x ≡ id = ground arith in rw e (ground (arith, member-keep p id s, refl_test id))
  | inr away ↦ ground (arith, member-keep p id s, away)
]
