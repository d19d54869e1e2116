-- ===== src/Prelude/Show.antt =====
-- `format!` of texts and numbers.
use Prim.Native.Nat.{ℕ, zero, suc, ◌/◌, ◌%◌}
use Prim.Native.Char.{Char}
use Prim.Native.String
use Prim.Native.String.{String}
use mathlib.Core.List.{List, [], ◌∷◌}
use timelord.Prelude.Tests.{ltb, if◌then◌else◌}
use timelord.Prelude.Lists.{get_or}
use timelord.Prelude.Int.{ℤ, pos, negsuc}

abbrev pub concat : List String → String
concat [] = ""
concat (s ∷ rest) = String.◌++◌ s (concat rest)

abbrev decimal_digits : List Char
decimal_digits = "0" ∷ "1" ∷ "2" ∷ "3" ∷ "4" ∷ "5" ∷ "6" ∷ "7" ∷ "8" ∷ "9" ∷ []

-- The digits of `n` before `out`: fuel `n + 1` is enough, since each round divides by ten.
abbrev show_before : ℕ → ℕ → String → String
show_before zero n out = out
show_before (suc fuel) n out =
    let digit = String.◌∷◌ (get_or decimal_digits (n % 10) "0") out in
    let rest = show_before fuel (n / 10) digit in if ltb n 10 then digit else rest

abbrev pub show_ℕ : ℕ → String
show_ℕ n = show_before (suc n) n ""

abbrev pub show_ℤ : ℤ → String
show_ℤ (pos n) = show_ℕ n
show_ℤ (negsuc n) = String.◌++◌ "-" (show_ℕ (suc n))
