-- ===== src/Agent/ClockLoop.antt =====
-- agent/src/agent.rs: `clock_sync_loop`, which measures the system clock against NTP, and watches it
-- for jumps between the measurements.
use timelord.Prelude.{
  ◌||◌, ◌+◌, ◌-◌, ◌≤◌, ◌≡◌, Bool, false, Option, none, some, List, [], ◌∷◌, All, ltb, leb, arith,
  Bool-cases, inl, inr, if◌then◌else◌,
}
use timelord.Prelude.Int.{ℤ, pos, pos_part, neg_part, sub_ℕ, ◌-ℤ◌}
use timelord.Prelude.Time.{DateTime, Duration, from_secs}
use timelord.Agent.{Agent, Instant}
use timelord.Agent.Enforcement.{clock_sync, clock_resync_interval}

abbrev pub clock_jump_threshold : Duration
clock_jump_threshold = from_secs 5

pub record ClockLoop : Type 0 where
  pub last_system : DateTime
  pub last_tick : Instant
  pub next_sync : Instant

-- The head of the loop: when it is reached, and for a measurement its result, the time when it is
-- there, and the readings of both clocks after it.
pub record Head : Type 0 where
  pub at : Instant
  pub measured : Option ℤ
  pub after : Instant
  pub system : DateTime
  pub tick : Instant

unfoldable pub measure_if_due : Head → ClockLoop → Agent → ClockLoop × Agent
measure_if_due h c a =
    if leb c.next_sync h.at
    then (
      record {
        last_system = h.system;
        last_tick = h.tick;
        next_sync = (clock_sync h.measured h.after a).0;
      },
      (clock_sync h.measured h.after a).1,
    )
    else (c, a)

-- A tick of the watch: the reading of the system clock, that of the monotonic clock, and the one that
-- is kept.
pub record Watch : Type 0 where
  pub system : DateTime
  pub at : Instant
  pub tick : Instant

-- How much more the system clock has advanced than the monotonic one.
unfoldable pub drift : Watch → ClockLoop → ℤ
drift w c = sub_ℕ w.system c.last_system -ℤ pos (w.at - c.last_tick)

unfoldable pub is_jump : ℤ → Bool
is_jump d = ltb clock_jump_threshold (pos_part d + neg_part d)

unfoldable pub watched : Watch → ClockLoop → ClockLoop
unfolding drift is_jump
watched w c = record {
  last_system = w.system;
  last_tick = w.tick;
  next_sync = if is_jump (drift w c) then w.at else c.next_sync;
}

-- What ends the wait of a round: the time of the next measurement, a request for one, or the watch.
pub data Woken : Type 0 where
  slept : Woken
  resynced : Instant → Woken
  ticked : Watch → Woken

unfoldable pub on_woken : Woken → ClockLoop → ClockLoop
unfolding watched
on_woken slept c = c
on_woken (resynced at) c = record c { next_sync = at }
on_woken (ticked w) c = watched w c

-- The request is the permit of `clock_resync`, which the wait takes.
unfoldable pub take_permit : Woken → Agent → Agent
take_permit (resynced at) a = record a { clock_resync = false }
take_permit slept a = a
take_permit (ticked w) a = a

unfoldable pub clock_round : Head → Woken → ClockLoop → Agent → ClockLoop × Agent
unfolding measure_if_due on_woken take_permit
clock_round h w c a = let (c', a') = measure_if_due h c a in (on_woken w c', take_permit w a')

-- The loop starts with a measurement.
unfoldable pub start : DateTime → Instant → ClockLoop
start system at = record { last_system = system; last_tick = at; next_sync = at }

-- After a tick of the watch, the loop measures at its head exactly if the two clocks have come more
-- than five seconds apart since the last reading, or the next measurement is due anyway.
pub jump_measured :
    (h : Head) (w : Watch) (c : ClockLoop) (a : Agent)
    → w.at ≤ h.at
    → (measure_if_due h (on_woken (ticked w) c) a).1 ≡ (
        if is_jump (drift w c) || leb c.next_sync h.at
        then (clock_sync h.measured h.after a).1
        else a)
unfolding measure_if_due on_woken
jump_measured h w c a later = elim (Bool-cases (is_jump (drift w c))) [
  | inl jump ↦ rw jump (ground (arith, later))
  | inr steady ↦ rw steady (ground arith)
]

unfoldable pub woken_each : List Woken → ClockLoop → ClockLoop
woken_each [] c = c
woken_each (w ∷ ws) c = woken_each ws (on_woken w c)

abbrev pub IsBefore : Instant → Woken → Type 0
IsBefore t slept = Unit {0}
IsBefore t (resynced at) = at ≤ t
IsBefore t (ticked w) = w.at ≤ t

on_woken-next_sync :
    (t : Instant) (w : Woken) (c : ClockLoop)
    → IsBefore t w
    → c.next_sync ≤ t
    → (on_woken w c).next_sync ≤ t
unfolding on_woken
on_woken-next_sync t slept c h k = k
on_woken-next_sync t (resynced at) c h k = h
on_woken-next_sync t (ticked w) c h k = elim (Bool-cases (is_jump (drift w c))) [
  | inl jump ↦ rw jump h
  | inr steady ↦ rw steady k
]

woken_each-next_sync :
    (t : Instant) (ws : List Woken) (c : ClockLoop)
    → All (IsBefore t) ws
    → c.next_sync ≤ t
    → (woken_each ws c).next_sync ≤ t
unfolding woken_each
woken_each-next_sync t [] c h k = k
woken_each-next_sync t (w ∷ ws) c h k =
    woken_each-next_sync t ws (on_woken w c) h.1 (on_woken-next_sync t w c h.0 k)

clock_sync-in_time :
    (m : Option ℤ) (at : Instant) (a : Agent) → (clock_sync m at a).0 ≤ at + clock_resync_interval
unfolding clock_sync
clock_sync-in_time (some offset) at a = omega arith
clock_sync-in_time none at a = ground arith

due-measured :
    (h : Head) (c : ClockLoop) (a : Agent)
    → c.next_sync ≤ h.at
    → (measure_if_due h c a).1 ≡ (clock_sync h.measured h.after a).1
unfolding measure_if_due
due-measured h c a k = ground arith

measured-next_sync :
    (h : Head) (c : ClockLoop) (a : Agent)
    → c.next_sync ≤ h.at
    → (measure_if_due h c a).0.next_sync ≡ (clock_sync h.measured h.after a).0
unfolding measure_if_due
measured-next_sync h c a k = ground arith

-- Whatever wakes the loop after a measurement, successful or not, at its head it measures again once
-- 15 minutes have gone by.
pub measures_again :
    (h h' : Head) (ws : List Woken) (c : ClockLoop) (a b : Agent)
    → c.next_sync ≤ h.at
    → All (IsBefore h'.at) ws
    → h.after + clock_resync_interval ≤ h'.at
    → (measure_if_due h' (woken_each ws (measure_if_due h c a).0) b).1
      ≡ (clock_sync h'.measured h'.after b).1
measures_again h h' ws c a b due before late =
    due-measured h' (woken_each ws (measure_if_due h c a).0) b (
      woken_each-next_sync h'.at ws (measure_if_due h c a).0 before
        (omega (arith, measured-next_sync h c a due, clock_sync-in_time h.measured h.after a)))
