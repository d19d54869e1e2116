-- ===== src/Notifier/Wording/Phrase.antt =====
-- What a reader takes from the wording of the time that is left.
use timelord.Prelude.{
  ℕ, zero, suc, ◌+◌, ◌-◌, ◌*◌, ◌/◌, ◌%◌, ◌≤◌, ◌<◌, ◌≡◌, ap, ◌∙◌, List, [], ◌∷◌, String, ltb, max,
  Bool-cases, inl, inr, arith, if◌then◌else◌, ◌==◌,
}
use timelord.Notifier.Wording.{digits, decimal}

-- A number in decimal, read digit by digit after `n`.
abbrev pub read_on : ℕ → List ℕ → ℕ
read_on n [] = n
read_on n (c ∷ s) = read_on (n * 10 + (c - b'0')) s

read_on-digits :
    (fuel n : ℕ) (out : List ℕ) → n < fuel → read_on 0 (digits fuel n out) ≡ read_on n out
unfolding digits
read_on-digits zero n out h = elim h [ ]
read_on-digits (suc fuel) n out h = elim (Bool-cases (ltb n 10)) [
  | inl last ↦ rw last (ap (λ m. read_on m out) (omega arith))
  | inr more ↦ rw more (
      read_on-digits fuel (n / 10) ((b'0' + n % 10) ∷ out) (ground arith)
      ∙ ap (λ m. read_on m out) (omega arith))
]

pub read_on-decimal : (n : ℕ) → read_on 0 (decimal n) ≡ n
unfolding decimal
read_on-decimal n = read_on-digits (suc n) n [] (omega arith)

pub data TimeUnit : Type 0 where
  minute second : TimeUnit

-- The unit after a number, in the singular for one.
abbrev pub unit_word : TimeUnit → ℕ → String
unit_word minute n = if n == 1 then " minute" else " minutes"
unit_word second n = if n == 1 then " second" else " seconds"

-- Seconds are exact, but one at least; minutes may be half a minute more, and less than one less.
abbrev pub IsHonest : TimeUnit → ℕ → ℕ → Type 0
IsHonest minute n left = (n * 60 ≤ left + 30) × (left < n * 60 + 60)
IsHonest second n left = n ≡ max 1 left
