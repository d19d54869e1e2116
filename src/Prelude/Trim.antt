-- ===== src/Prelude/Trim.antt =====
-- `str::trim`, `trim_end_matches` and `to_ascii_lowercase`, with what a second `trim` does.
use Prim.Native.Nat.{ℕ, ◌+◌}
use Prim.Native.Char.{Char, code}
use Prim.Native.String.{String, [], ◌∷◌}
use mathlib.Core.Path.{◌≡◌, refl, ◌∙◌, ap}
use mathlib.Core.Logic.{inl, inr}
use mathlib.Core.Bool.{Bool, true, false, ◌&&◌, ◌||◌}
use mathlib.Core.List.{List}
use timelord.Prelude.Tests.{leb, ◌==◌, if◌then◌else◌, Bool-cases}

-- The code points of a text.
abbrev pub codes : String → List ℕ
codes [] = List.[]
codes (c ∷ s) = List.◌∷◌ (code c) (codes s)

-- Unicode's White_Space, as `char::is_whitespace`.
unfoldable pub is_whitespace : Char → Bool
is_whitespace c =
    let n = code c in
    (leb 9 n && leb n 13)
    || (n == 32)
    || (n == 0x85)
    || (n == 0xa0)
    || (n == 0x1680)
    || (leb 0x2000 n && leb n 0x200a)
    || (n == 0x2028)
    || (n == 0x2029)
    || (n == 0x202f)
    || (n == 0x205f)
    || (n == 0x3000)

abbrev pub is_empty : String → Bool
is_empty [] = true
is_empty (c ∷ s) = false

unfoldable pub trim_start : String → String
trim_start [] = []
trim_start (c ∷ s) = if is_whitespace c then trim_start s else c ∷ s

-- A character goes if it is white space and nothing is left behind it.
abbrev pub push_trimmed : Char → String → String
push_trimmed c [] = if is_whitespace c then [] else c ∷ []
push_trimmed c (d ∷ s) = c ∷ d ∷ s

unfoldable pub trim_end : String → String
trim_end [] = []
trim_end (c ∷ s) = push_trimmed c (trim_end s)

unfoldable pub trim : String → String
unfolding trim_start trim_end is_whitespace
trim s = trim_end (trim_start s)

-- `trim_end_matches` of one character.
abbrev pub push_unless_last : ℕ → Char → String → String
push_unless_last n c [] = if code c == n then [] else c ∷ []
push_unless_last n c (d ∷ s) = c ∷ d ∷ s

unfoldable pub trim_end_matches : ℕ → String → String
trim_end_matches n [] = []
trim_end_matches n (c ∷ s) = push_unless_last n c (trim_end_matches n s)

-- One code point in ASCII's lower case.
abbrev pub to_ascii_lowercase : ℕ → ℕ
to_ascii_lowercase n = if leb b'A' n && leb n b'Z' then n + 32 else n

push_again :
    (c : Char) (s : String) → trim_end s ≡ s → trim_end (push_trimmed c s) ≡ push_trimmed c s
unfolding trim_end
push_again c [] h = elim (Bool-cases (is_whitespace c)) [
  | inl white ↦ rw white refl
  | inr black ↦ rw black (rw black refl)
]
push_again c (d ∷ s) h = rw h refl

trim_end_again : (s : String) → trim_end (trim_end s) ≡ trim_end s
unfolding trim_end
trim_end_again [] = refl
trim_end_again (c ∷ s) = push_again c (trim_end s) (trim_end_again s)

-- The text is empty or starts with a character that `trim_start` keeps.
abbrev StartsBlack : String → Type 0
StartsBlack [] = Unit {0}
StartsBlack (c ∷ s) = is_whitespace c ≡ false

trim_start-StartsBlack : (s : String) → StartsBlack (trim_start s)
unfolding trim_start
trim_start-StartsBlack [] = tt
trim_start-StartsBlack (c ∷ s) = elim (Bool-cases (is_whitespace c)) [
  | inl white ↦ rw white (trim_start-StartsBlack s)
  | inr black ↦ rw black black
]

trim_start_black : (s : String) → StartsBlack s → trim_start s ≡ s
unfolding trim_start
trim_start_black [] h = refl
trim_start_black (c ∷ s) h = rw h refl

push-StartsBlack :
    (c : Char) (s : String) → is_whitespace c ≡ false → StartsBlack (push_trimmed c s)
push-StartsBlack c [] h = rw h h
push-StartsBlack c (d ∷ s) h = h

trim_end-StartsBlack : (s : String) → StartsBlack s → StartsBlack (trim_end s)
unfolding trim_end
trim_end-StartsBlack [] h = tt
trim_end-StartsBlack (c ∷ s) h = push-StartsBlack c (trim_end s) h

pub trim_again : (s : String) → trim (trim s) ≡ trim s
unfolding trim
trim_again s =
    ap trim_end (
      trim_start_black (trim_end (trim_start s))
        (trim_end-StartsBlack (trim_start s) (trim_start-StartsBlack s)))
    ∙ trim_end_again (trim_start s)
