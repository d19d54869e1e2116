-- ===== src/Clock.antt =====
-- agent/src/clock.rs: the clock corrected by NTP. Bytes are natural numbers below 256 and a packet
-- is the list of its bytes; the socket is a parameter.
pub mod Ntp
pub mod Median
pub mod Answer
pub mod Measured
use timelord.Prelude.{
  ℕ, zero, suc, ◌+◌, ◌-◌, ◌*◌, ◌/◌, ◌%◌, ◌^◌, Bool, true, false, not, ◌&&◌, ◌||◌, Option, none,
  some, List, [], ◌∷◌, ◌++◌, String, ltb, leb, ◌==◌, length, take, drop, get_or, any, if◌then◌else◌,
}
use timelord.Prelude.Int.{ℤ, pos, negsuc, pos_part, neg_part, sub_ℕ, ◌+ℤ◌, ◌-ℤ◌, leb_ℤ, quot_ℤ}
use timelord.Prelude.Result.{Result, ok, err}
use timelord.Prelude.Text.{same_list}
use timelord.Prelude.Time.{DateTime, from_millis}

abbrev pub default_ntp_servers : List String
default_ntp_servers = "time.cloudflare.com" ∷ "time.windows.com" ∷ "pool.ntp.org" ∷ []

abbrev pub max_round_trip_ms : ℕ
max_round_trip_ms = 3000

abbrev pub ntp_unix_delta : ℕ
ntp_unix_delta = 2208988800

pub record TrustedClock : Type 0 where
  pub enabled : Bool
  pub offset_ms : ℤ
  pub synced : Bool

unfoldable pub new : Bool → TrustedClock
new enabled = record { enabled = enabled; offset_ms = pos 0; synced = false }

-- `system` is the reading of `Utc::now()`.
unfoldable pub now : DateTime → TrustedClock → DateTime
now system c = system + from_millis (pos_part c.offset_ms) - from_millis (neg_part c.offset_ms)

unfoldable pub set_offset_ms : ℤ → TrustedClock → TrustedClock
set_offset_ms o c = record c { offset_ms = o; synced = true }

unfoldable pub is_ready : TrustedClock → Bool
is_ready c = not c.enabled || c.synced

unfoldable pub offset_ms : ℤ → ℤ → ℤ → ℤ → ℤ
offset_ms t1 t2 t3 t4 = quot_ℤ ((t2 -ℤ t1) +ℤ (t3 -ℤ t4)) 2

unfoldable pub delay_ms : ℤ → ℤ → ℤ → ℤ → ℤ
delay_ms t1 t2 t3 t4 = (t4 -ℤ t1) -ℤ (t3 -ℤ t2)

-- `div_euclid` and `rem_euclid` by a positive number, and `as u32`.
abbrev pub div_euclid : ℤ → ℕ → ℤ
div_euclid (pos a) n = pos (a / n)
div_euclid (negsuc a) n = negsuc (a / n)

abbrev pub rem_euclid : ℤ → ℕ → ℕ
rem_euclid (pos a) n = a % n
rem_euclid (negsuc a) n = n - 1 - a % n

abbrev pub as_u32 : ℤ → ℕ
as_u32 (pos a) = a % 2 ^ 32
as_u32 (negsuc a) = 2 ^ 32 - 1 - a % 2 ^ 32

abbrev pub to_be_bytes : ℕ → List ℕ
to_be_bytes n = n / 2 ^ 24 % 256 ∷ n / 2 ^ 16 % 256 ∷ n / 2 ^ 8 % 256 ∷ n % 256 ∷ []

abbrev pub byte : List ℕ → ℕ → ℕ
byte bytes i = get_or bytes i 0

-- The four bytes from position `i` on.
abbrev pub from_be_bytes : List ℕ → ℕ → ℕ
from_be_bytes bytes i =
    byte bytes i * 2 ^ 24
    + byte bytes (i + 1) * 2 ^ 16
    + byte bytes (i + 2) * 2 ^ 8
    + byte bytes (i + 3)

unfoldable pub to_ntp : ℤ → List ℕ
to_ntp unix_ms =
    let secs = as_u32 (div_euclid unix_ms 1000 +ℤ pos ntp_unix_delta) in
    let frac = rem_euclid unix_ms 1000 * 2 ^ 32 / 1000 in
    to_be_bytes secs ++ to_be_bytes (frac % 2 ^ 32)

-- The top bit of the seconds is clear below 2 ^ 31.
unfoldable pub from_ntp : List ℕ → ℤ
from_ntp bytes =
    let s = from_be_bytes bytes 0 in
    let frac = from_be_bytes bytes 4 in
    let secs = if ltb s (2 ^ 31) then s + 2 ^ 32 else s in
    sub_ℕ (secs * 1000 + frac * 1000 / 2 ^ 32) (ntp_unix_delta * 1000)

abbrev pub zeros : ℕ → List ℕ
zeros zero = []
zeros (suc n) = 0 ∷ zeros n

unfoldable pub request_packet : ℤ → List ℕ
unfolding to_ntp
request_packet t1_ms = 35 ∷ zeros 39 ++ to_ntp t1_ms

-- The bytes from `i` up to `j`.
abbrev pub slice : ℕ → ℕ → List ℕ → List ℕ
slice i j bytes = take (j - i) (drop i bytes)

-- The refusals of `parse_reply` and of `query`.
pub data NtpError : Type 0 where
  short_reply not_server_mode not_synchronised unusable_stratum : NtpError
  mismatched no_transmit_time wrong_sender too_slow io_error : NtpError

unfoldable pub parse_reply : List ℕ → List ℕ → Result NtpError (ℤ × ℤ)
unfolding from_ntp
parse_reply reply request =
    if ltb (length reply) 48
    then err NtpError.short_reply
    else if not (byte reply 0 % 8 == 4)
    then err NtpError.not_server_mode
    else if byte reply 0 / 64 == 3
    then err NtpError.not_synchronised
    else if not (leb 1 (byte reply 1) && leb (byte reply 1) 15)
    then err NtpError.unusable_stratum
    else if not (same_list (λ a b. a == b) (slice 24 32 reply) (slice 40 48 request))
    then err NtpError.mismatched
    else if not (any (λ b. not (b == 0)) (slice 40 48 reply))
    then err NtpError.no_transmit_time
    else ok (from_ntp (slice 32 40 reply), from_ntp (slice 40 48 reply))

-- What the socket gives `query`: the reply, whether it came from the server that was asked, and the
-- local times of sending and receiving.
pub record Exchange : Type 0 where
  pub t1 : ℤ
  pub reply : List ℕ
  pub from_server : Bool
  pub t4 : ℤ

unfoldable pub judge : Exchange → ℤ × ℤ → Result NtpError ℤ
unfolding delay_ms offset_ms
judge x (t2, t3) =
    let delay = delay_ms x.t1 t2 t3 x.t4 in
    if leb_ℤ (pos 0) delay && leb_ℤ delay (pos max_round_trip_ms)
    then ok (offset_ms x.t1 t2 t3 x.t4)
    else err NtpError.too_slow

-- `query`, from the answer of the socket on: `none` is an error of the socket.
unfoldable pub query : Option Exchange → Result NtpError ℤ
unfolding parse_reply request_packet judge
query none = err NtpError.io_error
query (some x) =
    if x.from_server
    then elim (parse_reply x.reply (request_packet x.t1)) [
      | err e ↦ err e
      | ok times ↦ judge x times
    ]
    else err NtpError.wrong_sender

unfoldable pub insert_ℤ : ℤ → List ℤ → List ℤ
insert_ℤ a [] = a ∷ []
insert_ℤ a (b ∷ bs) = let rest = insert_ℤ a bs in if leb_ℤ a b then a ∷ b ∷ bs else b ∷ rest

unfoldable pub sort_unstable : List ℤ → List ℤ
unfolding insert_ℤ
sort_unstable [] = []
sort_unstable (a ∷ rest) = insert_ℤ a (sort_unstable rest)

abbrev pub nth : List ℤ → ℕ → ℤ
nth values i = get_or values i (pos 0)

unfoldable pub median : List ℤ → Option ℤ
unfolding sort_unstable
median [] = none
median (v ∷ vs) =
    let values = sort_unstable (v ∷ vs) in
    let mid = length values / 2 in
    some (
      if length values % 2 == 1
      then nth values mid
      else quot_ℤ (nth values (mid - 1) +ℤ nth values mid) 2)

-- The answers that servers give, less the failures.
unfoldable pub offsets : (String → Option Exchange) → List String → List ℤ
unfolding query
offsets ask [] = []
offsets ask (server ∷ servers) =
    let rest = offsets ask servers in
    elim (query (ask server)) [ err e ↦ rest | ok offset ↦ offset ∷ rest ]

unfoldable pub measure : (String → Option Exchange) → List String → Option ℤ
unfolding offsets median
measure ask servers = median (offsets ask servers)
