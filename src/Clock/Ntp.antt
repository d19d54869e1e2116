-- ===== src/Clock/Ntp.antt =====
-- The NTP timestamps of agent/src/clock.rs, and what a measured offset says.
use timelord.Prelude.{
  ℕ, ◌+◌, ◌-◌, ◌*◌, ◌/◌, ◌%◌, ◌^◌, ◌≤◌, ◌<◌, ◌≡◌, refl, ◌∙◌, ltb, arith, if◌then◌else◌,
}
use timelord.Prelude.Int.{
  ℤ, pos, pos_part, neg_part, sub_ℕ, ◌+ℤ◌, ◌-ℤ◌, ◌≤ℤ◌, quot_ℤ, eq_of_parts, sub_ℕ_parts, +ℤ_parts,
  -ℤ_parts,
}
use timelord.Clock.{ntp_unix_delta, to_ntp, from_ntp, offset_ms, delay_ms}

-- Four bytes hold a 32-bit number.
be_bytes_back :
    (n : ℕ)
    → n < 2 ^ 32
    → n / 2 ^ 24 % 256 * 2 ^ 24 + n / 2 ^ 16 % 256 * 2 ^ 16 + n / 2 ^ 8 % 256 * 2 ^ 8 + n % 256 ≡ n
be_bytes_back n h = omega arith

milliseconds_back :
    (r : ℕ)
    → r < 1000
    → (r ≤ r * 2 ^ 32 / 1000 * 1000 / 2 ^ 32 + 1) × (r * 2 ^ 32 / 1000 * 1000 / 2 ^ 32 ≤ r)
milliseconds_back r h = (omega arith, omega arith)

fraction_small : (n : ℕ) → n % 1000 * 2 ^ 32 / 1000 % 2 ^ 32 ≡ n % 1000 * 2 ^ 32 / 1000
fraction_small n = omega arith

add_pos : (a b : ℕ) → pos a +ℤ pos b ≡ pos (a + b)
unfolding ◌+ℤ◌
add_pos a b = ground arith

-- The seconds of an instant until 2104, read back from their 32 bits.
abbrev era : ℕ → ℕ
era s = if ltb s (2 ^ 31) then s + 2 ^ 32 else s

seconds_back :
    (q : ℕ)
    → q + ntp_unix_delta < 2 ^ 32 + 2 ^ 31
    → era ((q + ntp_unix_delta) % 2 ^ 32) ≡ q + ntp_unix_delta
seconds_back q h = ground arith

from_to :
    (n : ℕ)
    → n / 1000 + ntp_unix_delta < 2 ^ 32 + 2 ^ 31
    → from_ntp (to_ntp (pos n))
      ≡ sub_ℕ
          ((n / 1000 + ntp_unix_delta) * 1000 + n % 1000 * 2 ^ 32 / 1000 * 1000 / 2 ^ 32)
          (ntp_unix_delta * 1000)
unfolding from_ntp to_ntp
from_to n h =
    rw
      (
        add_pos (n / 1000) ntp_unix_delta,
        be_bytes_back ((n / 1000 + ntp_unix_delta) % 2 ^ 32) (omega arith),
        be_bytes_back (n % 1000 * 2 ^ 32 / 1000 % 2 ^ 32) (omega arith),
        seconds_back (n / 1000) h,
      )
      (rw (fraction_small n) refl)

from_epoch :
    (q x : ℕ) → sub_ℕ ((q + ntp_unix_delta) * 1000 + x) (ntp_unix_delta * 1000) ≡ pos (q * 1000 + x)
from_epoch q x = ground arith

-- An instant from 1970 to 2104 that goes through an NTP timestamp comes back at most a millisecond
-- early, and never late.
pub from_ntp-to_ntp :
    (n : ℕ)
    → n < 1000 * (2 ^ 32 + 2 ^ 31 - ntp_unix_delta)
    → (m : ℕ) × (from_ntp (to_ntp (pos n)) ≡ pos m) × (m ≤ n) × (n ≤ m + 1)
from_ntp-to_ntp n h =
    let back = milliseconds_back (n % 1000) (omega arith) in
    (
      n / 1000 * 1000 + n % 1000 * 2 ^ 32 / 1000 * 1000 / 2 ^ 32,
      from_to n (omega arith) ∙ from_epoch (n / 1000) (n % 1000 * 2 ^ 32 / 1000 * 1000 / 2 ^ 32),
      omega (arith, back.1),
      omega (arith, back.0),
    )

pub halves :
    (s : ℤ)
    → (2 * pos_part (quot_ℤ s 2) + neg_part s ≤ 2 * neg_part (quot_ℤ s 2) + pos_part s + 1)
      × (2 * neg_part (quot_ℤ s 2) + pos_part s ≤ 2 * pos_part (quot_ℤ s 2) + neg_part s + 1)
halves s =
    let parts = sub_ℕ_parts (pos_part s / 2) (neg_part s / 2) in
    (omega (arith, parts), omega (arith, parts))

-- Twice `q` is near `s`, and `s` near twice `theta`.
near :
    (q s theta : ℤ) (there back : ℕ)
    → (2 * pos_part q + neg_part s ≤ 2 * neg_part q + pos_part s + 1)
    → (2 * neg_part q + pos_part s ≤ 2 * pos_part q + neg_part s + 1)
    → pos_part s + 2 * neg_part theta + back ≡ neg_part s + 2 * pos_part theta + there
    → (q +ℤ q ≤ℤ theta +ℤ theta +ℤ pos (there + back + 1))
      × (theta +ℤ theta ≤ℤ q +ℤ q +ℤ pos (there + back + 1))
near q s theta there back h k e =
    let qq = +ℤ_parts q q in
    let tt' = +ℤ_parts theta theta in
    let qk = +ℤ_parts (q +ℤ q) (pos (there + back + 1)) in
    let tk = +ℤ_parts (theta +ℤ theta) (pos (there + back + 1)) in
    (omega (arith, qq, tt', tk), omega (arith, qq, tt', qk))

-- The local clock is `theta` behind the server's, the request takes `there` and the answer `back`
-- milliseconds on the way, and the server answers `work` milliseconds after it was asked.
module _ (t1 theta : ℤ) (there work back : ℕ) where
  abbrev pub received_at : ℤ
  received_at = t1 +ℤ theta +ℤ pos there

  abbrev pub sent_at : ℤ
  sent_at = received_at +ℤ pos work

  abbrev pub answered_at : ℤ
  answered_at = sent_at -ℤ theta +ℤ pos back

  delay_exact : delay_ms t1 received_at sent_at answered_at ≡ pos (there + back)
  unfolding delay_ms
  delay_exact = eq_of_parts _ _ (
      omega (
        arith,
        -ℤ_parts (answered_at -ℤ t1) (sent_at -ℤ received_at),
        -ℤ_parts answered_at t1,
        -ℤ_parts sent_at received_at,
        +ℤ_parts (t1 +ℤ theta) (pos there),
        +ℤ_parts t1 theta,
        +ℤ_parts received_at (pos work),
        -ℤ_parts sent_at theta,
        +ℤ_parts (sent_at -ℤ theta) (pos back),
      ))

  abbrev sum : ℤ
  sum = (received_at -ℤ t1) +ℤ (sent_at -ℤ answered_at)

  sum_parts : pos_part sum + 2 * neg_part theta + back ≡ neg_part sum + 2 * pos_part theta + there
  sum_parts = omega (
    arith,
    +ℤ_parts (received_at -ℤ t1) (sent_at -ℤ answered_at),
    -ℤ_parts received_at t1,
    -ℤ_parts sent_at answered_at,
    +ℤ_parts (t1 +ℤ theta) (pos there),
    +ℤ_parts t1 theta,
    +ℤ_parts received_at (pos work),
    -ℤ_parts sent_at theta,
    +ℤ_parts (sent_at -ℤ theta) (pos back),
  )

  -- The delay is the time on the way, and twice the measured offset differs from twice the true one
  -- by at most the delay and one, however the time on the way is shared.
  pub offset_error :
      (delay_ms t1 received_at sent_at answered_at ≡ pos (there + back))
      × (offset_ms t1 received_at sent_at answered_at
            +ℤ offset_ms t1 received_at sent_at answered_at
          ≤ℤ theta +ℤ theta +ℤ pos (there + back + 1))
      × (theta +ℤ theta
          ≤ℤ offset_ms t1 received_at sent_at answered_at
            +ℤ offset_ms t1 received_at sent_at answered_at
            +ℤ pos (there + back + 1))
  unfolding offset_ms
  offset_error =
      let h = halves sum in
      let n = near (quot_ℤ sum 2) sum theta there back h.0 h.1 sum_parts in (delay_exact, n.0, n.1)
