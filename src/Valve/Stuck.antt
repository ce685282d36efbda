-- ===== src/Valve/Stuck.antt =====
-- src/CValveMonitor.cpp: an answer with a length of two bytes, whose announced length is never reached.
use concentrator.Common.{
  ℕ, zero, suc, ◌+◌, ◌*◌, ◌≤◌, ◌<◌, ◌≡◌, ◌%◌, ◌^◌, refl, inr, true, false, ◌∙◌, ap, some, none,
  List, [], ◌∷◌, append-nil, length, ltb, leb, ◌&&◌, u16, if◌then◌else◌, Bool-cases, inl, arith,
  get_or,
}
use native.Mathlib.Nat.{pow-suc}
use concentrator.Valve.Reading.{
  Reader, Ending, again, announced, cut_acks, adjust_read_packet, reading_turn, reading_turns,
  Event, brought, timed_out, poll_timed_out, time_outs,
}
use concentrator.Valve.Cutting.{recover-aligned}

-- The bytes of such an answer, with a length that is defined.
abbrev pub IsLong : (b : List ℕ) (len : ℕ) → Type 0
IsLong b len =
    (length b ≡ 512) × (get_or b 4 0 ≡ 15) × (get_or b 6 0 ≡ 255) × (announced b 0 ≡ some len)

power_1024 : (y : ℕ) → (q : ℕ) × (2 ^ (10 + y) ≡ 1024 * q)
power_1024 zero = (1, refl)
power_1024 (suc y) =
    let (q, e) = power_1024 y in
    let next : 10 + suc y ≡ suc (10 + y) = omega arith in
    (2 * q, rw next (omega (arith, pow-suc 2 (10 + y), e)))

-- So many times 1024, in 16 bits, is zero or above the buffer.
u16_1024 : (a y len : ℕ) → u16 (a * 2 ^ (10 + y)) ≡ len → (leb len 512 && ltb 0 len) ≡ false
u16_1024 a y len e =
    let (q, power) = power_1024 y in
    let product : a * (1024 * q) ≡ 1024 * (a * q) = grind arith in
    let many : (1024 * (a * q)) % 65536 ≡ len = rw (power, product) at e in
    multiple (a * q) len many
  where
    multiple : (n len : ℕ) → (1024 * n) % 65536 ≡ len → (leb len 512 && ltb 0 len) ≡ false
    multiple n len many = elim (Bool-cases (leb len 512)) [
      | inl small ↦
          let fits : len ≤ 512 = ground (arith, small) in
          let zero_left : len ≡ 0 = omega (arith, many, fits) in rw zero_left refl
      | inr large ↦ rw large refl
    ]

-- The announced length is too long, or zero.
announced-long :
    (b : List ℕ) (len rlen : ℕ)
    → IsLong b len
    → (announced b rlen ≡ some len) × ((leb len 512 && ltb 0 len) ≡ false)
unfolding announced
announced-long b len rlen (full, port, long, told) =
    let shifted = (9 + get_or b 7 0) * 2 ^ (10 + get_or b 8 0) in
    let known : (if leb (2 ^ 31) shifted then none else some (u16 shifted)) ≡ some len =
      rw (full, long) at told in
    elim (Bool-cases (leb (2 ^ 31) shifted)) [
      | inl over ↦ cc (rw over at known)
      | inr fits ↦
          let same : u16 shifted ≡ len = cc (rw fits at known) in
          (rw (full, long) known, u16_1024 (9 + get_or b 7 0) (get_or b 8 0) len same)
    ]

-- A reader with some bytes.
abbrev pub holding : (b : List ℕ) (last rc wc rlen retry : ℕ) → Reader
holding b last rc wc rlen retry = record {
  ack = b;
  rlen = rlen;
  last_readed = last;
  retry = retry;
  rc = rc;
  wc = wc;
}

module _ (b : List ℕ) (len last rc wc : ℕ) (stuck : IsLong b len) where
  cut_acks-stuck : (rlen fuel : ℕ) → 0 < fuel → cut_acks fuel b rlen ≡ some (b, len, [])
  unfolding cut_acks
  cut_acks-stuck rlen zero pos = absurd (omega arith)
  cut_acks-stuck rlen (suc fuel) pos =
      let (told, stops) = announced-long b len rlen stuck in rw (told, stuck.0, stops) refl

  reading_turn-stuck :
      (rlen retry : ℕ) (bytes : List ℕ) (ending : Ending)
      → reading_turn (holding b last rc wc rlen retry) bytes ending
        ≡ some (holding b last rc wc len retry, [])
  unfolding reading_turn adjust_read_packet
  reading_turn-stuck rlen retry bytes ending =
      let kept = recover-aligned b (inr stuck.1) in
      let full : leb 0 (length bytes) ≡ true = ground arith in
      rw (stuck.0, full, append-nil b, kept, stuck.0, cut_acks-stuck rlen 512 (omega arith)) refl

  timed_out-holding :
      (rlen retry : ℕ)
      → retry ≤ 5
      → poll_timed_out (holding b last rc wc rlen retry) ≡ holding b last rc wc rlen (retry + 1)
  unfolding poll_timed_out
  timed_out-holding rlen retry few =
      let little : ltb 5 retry ≡ false = ground (arith, few) in
      let next : (retry + 1) % 256 ≡ retry + 1 = omega (arith, few) in rw (little, next) refl

  -- When the buffer is full and begins with an answer whose length has two bytes, and the length that the code
  -- computes of them is defined, then whatever pieces come, with at most six turns whose time is over, those before
  -- that `retry` counts among them, no byte is read and no answer is passed on: the buffer stays as it is, and
  -- `retry` counts these turns.
  pub reading_turns-stuck :
      (rlen retry : ℕ) (events : List Event)
      → retry + time_outs events ≤ 6
      → (after : Reader) × (reading_turns (holding b last rc wc rlen retry) events
          ≡ some (after, []))
        × (after.ack ≡ b)
        × (after.retry ≡ retry + time_outs events)
  unfolding reading_turns poll_timed_out
  reading_turns-stuck rlen retry [] few = (holding b last rc wc rlen retry, refl, refl, omega arith)
  reading_turns-stuck rlen retry (brought piece ∷ events) few =
      let (after, rest, same, counts) = reading_turns-stuck len retry events few in
      (after, rw (reading_turn-stuck rlen retry piece again, rest) refl, same, counts)
  reading_turns-stuck rlen retry (timed_out ∷ events) few =
      let counted = timed_out-holding rlen retry (omega (arith, few)) in
      let (after, rest, same, counts) =
        reading_turns-stuck rlen (retry + 1) events (omega (arith, few)) in
      (
        after,
        ap (λ (r : Reader). reading_turns r events) counted ∙ rest,
        same,
        omega (arith, counts),
      )
