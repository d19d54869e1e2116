-- ===== src/Clock/Answer.antt =====
-- The way of a request through `query` of agent/src/clock.rs and an NTP server that follows RFC 4330.
use mathlib.Core.List.{append_assoc}
use timelord.Prelude.{
  ℕ, ◌-◌, ◌/◌, ◌%◌, ◌≡◌, refl, sym, ap, ◌∙◌, true, false, not, ◌&&◌, some, List, [], ◌∷◌, ◌++◌, any,
  length, length-append, take, drop, ltb, leb, ◌==◌, arith,
}
use timelord.Prelude.Int.{ℤ}
use timelord.Prelude.Result.{ok}
use timelord.Prelude.Text.{same_list, same_list_refl}
use timelord.Clock.{Exchange, to_ntp, from_ntp, request_packet, slice, parse_reply, judge, query}

drop-append : (xs ys : List ℕ) → drop (length xs) (xs ++ ys) ≡ ys
drop-append [] ys = refl
drop-append (x ∷ xs) ys = drop-append xs ys

take-append : (xs ys : List ℕ) → take (length xs) (xs ++ ys) ≡ xs
take-append [] ys = refl
take-append (x ∷ xs) ys = ap (λ l. x ∷ l) (take-append xs ys)

slice-append :
    (i j : ℕ) (front mid back : List ℕ)
    → length front ≡ i
    → length mid ≡ j - i
    → slice i j (front ++ (mid ++ back)) ≡ mid
slice-append i j front mid back h k =
    ap (λ n. take (j - i) (drop n (front ++ (mid ++ back)))) (sym h)
    ∙ ap (take (j - i)) (drop-append front (mid ++ back))
    ∙ ap (λ n. take n (mid ++ back)) (sym k)
    ∙ take-append mid back

length-to_ntp : (t : ℤ) → length (to_ntp t) ≡ 8
unfolding to_ntp
length-to_ntp t = refl

requested : (t : ℤ) → slice 40 48 (request_packet t) ≡ to_ntp t
unfolding request_packet to_ntp
requested t = refl

-- The server's answer: its first two bytes, the 22 bytes up to the reference time, the request's time,
-- the times of receiving and of sending, and what an extension adds.
abbrev pub answer : ℕ → ℕ → List ℕ → ℤ → ℤ → ℤ → List ℕ → List ℕ
answer first stratum header t1 t2 t3 extra =
    (first ∷ stratum ∷ header) ++ (to_ntp t1 ++ (to_ntp t2 ++ (to_ntp t3 ++ extra)))

-- The exchange as the client sees it.
abbrev pub exchange : List ℕ → ℤ → ℤ → Exchange
exchange reply t1 t4 = record { t1 = t1; reply = reply; from_server = true; t4 = t4 }

-- What the client needs of the answer, besides the times: server mode, a synchronised clock, a
-- stratum in use, and a time of sending that is not all zeros.
pub record IsServing (first stratum : ℕ) (header : List ℕ) (t3 : ℤ) : Type 0 where
  pub mode : (first % 8 == 4) ≡ true
  pub synchronised : (first / 64 == 3) ≡ false
  pub in_use : (leb 1 stratum && leb stratum 15) ≡ true
  pub length_header : length header ≡ 22
  pub has_time : any (λ b. not (b == 0)) (to_ntp t3) ≡ true

module _ (first stratum : ℕ) (header : List ℕ) (t1 t2 t3 : ℤ) (extra : List ℕ)
    (s : IsServing first stratum header t3) where
  abbrev reply : List ℕ
  reply = answer first stratum header t1 t2 t3 extra

  abbrev front : List ℕ
  front = first ∷ stratum ∷ header

  length-front : length front ≡ 24
  length-front = omega (arith, s.length_header)

  echoed : slice 24 32 reply ≡ to_ntp t1
  echoed =
      slice-append 24 32 front (to_ntp t1) (to_ntp t2 ++ (to_ntp t3 ++ extra)) length-front
        (length-to_ntp t1)

  received : slice 32 40 reply ≡ to_ntp t2
  received =
      ap (slice 32 40) (sym (append_assoc front (to_ntp t1) _))
      ∙ slice-append 32 40 (front ++ to_ntp t1) (to_ntp t2) (to_ntp t3 ++ extra)
          (length-append front (to_ntp t1) ∙ omega (arith, length-front, length-to_ntp t1))
          (length-to_ntp t2)

  sent : slice 40 48 reply ≡ to_ntp t3
  sent =
      ap (slice 40 48) (
        sym (append_assoc front (to_ntp t1) _)
        ∙ sym (append_assoc (front ++ to_ntp t1) (to_ntp t2) (to_ntp t3 ++ extra)))
      ∙ slice-append 40 48 ((front ++ to_ntp t1) ++ to_ntp t2) (to_ntp t3) extra
          (length-append (front ++ to_ntp t1) (to_ntp t2)
            ∙ omega (
              arith,
              length-append front (to_ntp t1),
              length-front,
              length-to_ntp t1,
              length-to_ntp t2,
            ))
          (length-to_ntp t3)

  long_enough : ltb (length reply) 48 ≡ false
  long_enough = ground (
    arith,
    length-append front (to_ntp t1 ++ (to_ntp t2 ++ (to_ntp t3 ++ extra))),
    length-append (to_ntp t1) (to_ntp t2 ++ (to_ntp t3 ++ extra)),
    length-append (to_ntp t2) (to_ntp t3 ++ extra),
    length-append (to_ntp t3) extra,
    length-front,
    length-to_ntp t1,
    length-to_ntp t2,
    length-to_ntp t3,
  )

  matches : same_list (λ a b. a == b) (slice 24 32 reply) (slice 40 48 (request_packet t1)) ≡ true
  matches =
      rw (echoed, requested t1) (same_list_refl (λ a b. a == b) (λ a. ground arith) (to_ntp t1))

  parsed : parse_reply reply (request_packet t1) ≡ ok (from_ntp (to_ntp t2), from_ntp (to_ntp t3))
  unfolding parse_reply
  parsed = rw long_enough (
      rw s.mode
        (rw s.synchronised (rw s.in_use (rw matches (rw (sent, received) (rw s.has_time refl))))))

  pub queried :
      (t4 : ℤ)
      → query (some (exchange reply t1 t4))
        ≡ judge (exchange reply t1 t4) (from_ntp (to_ntp t2), from_ntp (to_ntp t3))
  unfolding query
  queried t4 = rw parsed refl
