-- ===== src/Prelude/Time.antt =====
-- Instants, durations and identifiers. An instant `DateTime<Utc>` is the number of nanoseconds
-- since the earliest instant that chrono represents, so that every instant is a natural number; a
-- `std::time::Duration` is a number of nanoseconds, and a `Uuid` its 128 bits read as a number.
use Prim.Native.Nat.{ℕ, ◌*◌, ◌^◌}
use timelord.Prelude.Int.{ℤ, sub_ℕ, quot_ℤ}

abbrev pub DateTime : Type 0
DateTime = ℕ

abbrev pub Duration : Type 0
Duration = ℕ

abbrev pub Uuid : Type 0
Uuid = ℕ

abbrev pub second : Duration
second = 10 ^ 9

abbrev pub from_secs : ℕ → Duration
from_secs n = n * second

abbrev pub from_millis : ℕ → Duration
from_millis n = n * 10 ^ 6

-- `(a - b).num_seconds()`: whole seconds, truncated towards zero.
abbrev pub num_seconds : DateTime → DateTime → ℤ
num_seconds a b = quot_ℤ (sub_ℕ a b) second
