-- ===== src/Clock/Measured.antt =====
-- What an answer that `query` of agent/src/clock.rs accepts says of the clock.
use timelord.Prelude.{
  ℕ, ◌+◌, ◌-◌, ◌*◌, ◌^◌, ◌≤◌, ◌<◌, ◌≡◌, refl, ap, ◌∙◌, true, ◌&&◌, some, List, arith,
}
use timelord.Prelude.Int.{
  ℤ, pos, pos_part, neg_part, ◌+ℤ◌, ◌-ℤ◌, ◌≤ℤ◌, leb_ℤ, quot_ℤ, +ℤ_parts, -ℤ_parts,
}
use timelord.Prelude.Result.{ok}
use timelord.Clock.{
  Exchange, max_round_trip_ms, ntp_unix_delta, to_ntp, from_ntp, judge, query, offset_ms, delay_ms,
}
use timelord.Clock.Ntp.{from_ntp-to_ntp, halves, received_at, sent_at, answered_at}
use timelord.Clock.Answer.{IsServing, answer, exchange, queried}

the_delay :
    (d : ℤ)
    → neg_part d ≤ pos_part d
    → pos_part d ≤ max_round_trip_ms + neg_part d
    → (leb_ℤ (pos 0) d && leb_ℤ d (pos max_round_trip_ms)) ≡ true
the_delay d h k = ground (arith, h, k)

-- The times `a` and `b` of the server as the client reads them: at most a millisecond early.
module _ (t1 theta : ℤ) (there work back a b a' b' : ℕ)
    (ra : received_at t1 theta there work back ≡ pos a)
    (sb : sent_at t1 theta there work back ≡ pos b) (a_late : a' ≤ a) (a_early : a ≤ a' + 1)
    (b_late : b' ≤ b) (b_early : b ≤ b' + 1) where
  abbrev received_ℤ : ℤ
  received_ℤ = received_at t1 theta there work back

  abbrev sent_ℤ : ℤ
  sent_ℤ = sent_at t1 theta there work back

  abbrev t4 : ℤ
  t4 = answered_at t1 theta there work back

  t4_parts :
      (pos_part t4 + neg_part t1 + a ≡ neg_part t4 + pos_part t1 + there + back + b)
      × (pos_part t4 + pos_part theta ≡ neg_part t4 + neg_part theta + back + b)
  t4_parts =
      let answered = +ℤ_parts (sent_ℤ -ℤ theta) (pos back) in
      let local = -ℤ_parts sent_ℤ theta in
      (
        omega (
          arith,
          answered,
          local,
          ap pos_part ra,
          ap neg_part ra,
          ap pos_part sb,
          ap neg_part sb,
          +ℤ_parts (t1 +ℤ theta) (pos there),
          +ℤ_parts t1 theta,
        ),
        omega (arith, answered, local, ap pos_part sb, ap neg_part sb),
      )

  delay_parts :
      pos_part (delay_ms t1 (pos a') (pos b') t4) + b' + a
      ≡ neg_part (delay_ms t1 (pos a') (pos b') t4) + there + back + b + a'
  unfolding delay_ms
  delay_parts = omega (
    arith,
    -ℤ_parts (t4 -ℤ t1) (pos b' -ℤ pos a'),
    -ℤ_parts t4 t1,
    -ℤ_parts (pos b') (pos a'),
    t4_parts,
  )

  abbrev sum : ℤ
  sum = (pos a' -ℤ t1) +ℤ (pos b' -ℤ t4)

  sum_parts :
      pos_part sum + 2 * neg_part theta + back + a + b
      ≡ neg_part sum + 2 * pos_part theta + there + a' + b'
  sum_parts = omega (
    arith,
    +ℤ_parts (pos a' -ℤ t1) (pos b' -ℤ t4),
    -ℤ_parts (pos a') t1,
    -ℤ_parts (pos b') t4,
    t4_parts,
  )

  close :
      (offset_ms t1 (pos a') (pos b') t4 +ℤ offset_ms t1 (pos a') (pos b') t4
        ≤ℤ theta +ℤ theta +ℤ pos (there + back + 3))
      × (theta +ℤ theta
          ≤ℤ offset_ms t1 (pos a') (pos b') t4
            +ℤ offset_ms t1 (pos a') (pos b') t4
            +ℤ pos (there + back + 3))
  unfolding offset_ms
  close =
      let q = quot_ℤ sum 2 in
      let h = halves sum in
      let qq = +ℤ_parts q q in
      let thetas = +ℤ_parts theta theta in
      (
        omega (arith, h, qq, thetas, sum_parts, +ℤ_parts (theta +ℤ theta) (pos (there + back + 3))),
        omega (arith, h, qq, thetas, sum_parts, +ℤ_parts (q +ℤ q) (pos (there + back + 3))),
      )

  judged :
      (x : Exchange)
      → x.t1 ≡ t1
      → x.t4 ≡ t4
      → 1 ≤ there + back
      → there + back < max_round_trip_ms
      → judge x (pos a', pos b') ≡ ok (offset_ms t1 (pos a') (pos b') t4)
  unfolding judge
  judged x e f some_time in_time =
      rw (e, f)
        (rw
          (the_delay (delay_ms t1 (pos a') (pos b') t4) (omega (arith, delay_parts))
            (omega (arith, delay_parts)))
          refl)

-- A server that follows the protocol, from 1970 to 2104, gets its answer accepted if the way there
-- and back takes at least a millisecond and less than three seconds, and then twice the measured
-- offset differs from twice the true one by at most the time on the way and three, however that time
-- is shared and whatever rounding the timestamps undergo.
pub accepted_and_close :
    (first stratum : ℕ) (header extra : List ℕ) (t1 theta : ℤ) (there work back a b : ℕ)
    → IsServing first stratum header (pos b)
    → received_at t1 theta there work back ≡ pos a
    → sent_at t1 theta there work back ≡ pos b
    → a < 1000 * (2 ^ 32 + 2 ^ 31 - ntp_unix_delta)
    → b < 1000 * (2 ^ 32 + 2 ^ 31 - ntp_unix_delta)
    → 1 ≤ there + back
    → there + back < max_round_trip_ms
    → (o : ℤ) × (query (
          some (
            exchange
              (answer first stratum header t1 (pos a) (pos b) extra)
              t1
              (answered_at t1 theta there work back)))
        ≡ ok o)
      × (o +ℤ o ≤ℤ theta +ℤ theta +ℤ pos (there + back + 3))
      × (theta +ℤ theta ≤ℤ o +ℤ o +ℤ pos (there + back + 3))
accepted_and_close first stratum header extra t1 theta there work back a b s ra sb small_a small_b
      some_time in_time =
    let (a', read_a, a_late, a_early) = from_ntp-to_ntp a small_a in
    let (b', read_b, b_late, b_early) = from_ntp-to_ntp b small_b in
    let t4 = answered_at t1 theta there work back in
    let x = exchange (answer first stratum header t1 (pos a) (pos b) extra) t1 t4 in
    let bounds = close t1 theta there work back a b a' b' ra sb a_late a_early b_late b_early in
    (
      offset_ms t1 (pos a') (pos b') t4,
      queried first stratum header t1 (pos a) (pos b) extra s t4
          ∙ ap (λ t. judge x (t, from_ntp (to_ntp (pos b)))) read_a
          ∙ ap (λ t. judge x (pos a', t)) read_b
          ∙ judged t1 theta there work back a b a' b' ra sb a_late a_early b_late b_early x refl
              refl some_time in_time,
      bounds.0,
      bounds.1,
    )
