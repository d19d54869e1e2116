-- ===== src/Prelude/Text.antt =====
-- Equality of texts and of optional values as Boolean tests.
use Prim.Native.Nat.{ℕ, Ordering, compare as compare_ℕ}
use Prim.Native.Char.{code}
use Prim.Native.String.{String, [], ◌∷◌, compare}
use Prim.Native.String.compare.{nil-nil, cons-cons}
use mathlib.Core.Path.{◌≡◌, refl, ◌∙◌}
use mathlib.Core.Bool.{Bool, true, false, ◌&&◌}
use mathlib.Core.Option.{Option, none, some}
use mathlib.Core.List.{List, [], ◌∷◌}
use native.Mathlib.Omega.{arith}

abbrev pub same_text : String → String → Bool
same_text s t = elim (compare s t) [ Ordering.eq ↦ true | _ ↦ false ]

module _ {ℓ} {A : Type ℓ} (same : A → A → Bool) where
  abbrev pub same_option : Option A → Option A → Bool
  same_option none none = true
  same_option none (some b) = false
  same_option (some a) none = false
  same_option (some a) (some b) = same a b

  abbrev pub same_list : List A → List A → Bool
  same_list [] [] = true
  same_list [] (y ∷ ys) = false
  same_list (x ∷ xs) [] = false
  same_list (x ∷ xs) (y ∷ ys) = same x y && same_list xs ys

  module _ (same_refl : (a : A) → same a a ≡ true) where
    pub same_option_refl : (o : Option A) → same_option o o ≡ true
    same_option_refl none = refl
    same_option_refl (some a) = same_refl a

    pub same_list_refl : (l : List A) → same_list l l ≡ true
    same_list_refl [] = refl
    same_list_refl (x ∷ xs) = rw (same_refl x) (same_list_refl xs)

same_code : (n : ℕ) → compare_ℕ n n ≡ Ordering.eq
same_code n = ground arith

compare_refl : (s : String) → compare s s ≡ Ordering.eq
compare_refl [] = nil-nil
compare_refl (c ∷ s) = cons-cons c c s s ∙ rw (same_code (code c)) (compare_refl s)

pub same_text_refl : (s : String) → same_text s s ≡ true
same_text_refl s = rw (compare_refl s, same_text) refl
