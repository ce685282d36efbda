-- ===== src/Valve/Recovered.antt =====
-- src/CValveMonitor.cpp: wrong bytes before an answer of a valve are skipped.
use concentrator.Common.{
  ℕ, zero, suc, ◌+◌, ◌≤◌, ◌<◌, ◌≡◌, ◌%◌, refl, sym, ap, ◌∙◌, inl, true, false, not, ◌&&◌, some,
  List, [], ◌∷◌, ◌++◌, append-nil, length, length-append, ltb, leb, ◌==◌, arith, take, get_or,
  drop-append,
}
use mathlib.Core.List.{flatten}
use concentrator.Common.File.{take_enough}
use concentrator.Common.Parts.{get_or-append}
use concentrator.Valve.Reading.{
  Reader, again, skip_wrong, recover, counted, adjust_read_packet, stalled, reading_turn,
}
use concentrator.Valve.Cutting.{IsAck, cut_acks-Cut}
use concentrator.Valve.Reassembled.{all_passed}

skip_wrong-found :
    (ack : List ℕ) (n m ptr : ℕ)
    → 5 < m
    → ptr + n < 256
    → ((k : ℕ) → k < n → (get_or ack (ptr + k + 4) 0 == 15) ≡ false)
    → get_or ack (ptr + n + 4) 0 ≡ 15
    → skip_wrong ack (n + m) ptr ≡ (m, ptr + n)
unfolding skip_wrong
skip_wrong-found ack zero zero ptr more small wrong here = absurd (omega arith)
skip_wrong-found ack zero (suc m) ptr more small wrong here =
    let same : ptr + 0 ≡ ptr = omega arith in
    let count : zero + suc m ≡ suc m = omega arith in
    let at : get_or ack (ptr + 4) 0 ≡ 15 = rw same at here in
    let stays : (ltb 5 (suc m) && not (get_or ack (ptr + 4) 0 == 15)) ≡ false =
      ground (arith, at) in
    rw (count, stays, same) refl
skip_wrong-found ack (suc n) m ptr more small wrong here =
    let next : (ptr + 1) % 256 ≡ ptr + 1 = omega arith in
    let first : ptr + 0 + 4 ≡ ptr + 4 = omega arith in
    let off : (get_or ack (ptr + 4) 0 == 15) ≡ false = rw first at (wrong 0 (omega arith)) in
    let skips : (ltb 5 (suc (n + m)) && not (get_or ack (ptr + 4) 0 == 15)) ≡ true =
      ground (arith, off) in
    let count : suc n + m ≡ suc (n + m) = omega arith in
    let at : ptr + suc n ≡ ptr + 1 + n = omega arith in
    rw (count, skips, next, at)
      (skip_wrong-found ack n m (ptr + 1) more (omega arith)
        (λ k h.
          let moved : ptr + 1 + k + 4 ≡ ptr + suc k + 4 = omega arith in
          rw moved (wrong (suc k) (omega arith)))
        (rw (← at) here))

leb_over : (m n : ℕ) → n < m → leb m n ≡ false
leb_over m n h = ground arith

recover-skips :
    (g f : List ℕ)
    → IsAck f
    → length g < 256
    → ((k : ℕ) → k < length g → (get_or (g ++ f) (k + 4) 0 == 15) ≡ false)
    → recover (g ++ f) ≡ f
unfolding recover
recover-skips g f ack small wrong =
    let plain_count : 0 + length g ≡ length g = omega arith in
    let here : get_or (g ++ f) (length g + 4) 0 ≡ 15 = get_or-append g f 4 0 ∙ ack.0 in
    rw
      (
        length-append g f,
        skip_wrong-found (g ++ f) (length g) (length f) 0 (omega (arith, ack)) (omega arith)
            (λ k h. let plain : 0 + k + 4 ≡ k + 4 = omega arith in rw plain (wrong k h))
            (let plain : 0 + length g + 4 ≡ length g + 4 = omega arith in rw plain here),
        plain_count,
        drop-append g f,
      )
      (take_enough f (length f) (omega arith))

counted-ack :
    (s : Reader) (ack : List ℕ) (rlen : ℕ) (frames : List (List ℕ))
    → (counted s ack rlen frames).ack ≡ ack
counted-ack s ack rlen [] = refl
counted-ack s ack rlen (f ∷ frames) = refl

-- The reader with nothing, in some state of its counters.
abbrev pub nothing_read : (rlen retry rc wc : ℕ) → Reader
nothing_read rlen retry rc wc = record {
  ack = [];
  rlen = rlen;
  last_readed = 0;
  retry = retry;
  rc = rc;
  wc = wc;
}

-- When nothing was kept, after at most ten retries, and up to 240 wrong bytes come before a whole answer with a
-- length of one byte, and at none of them the port number follows where it stands in an answer, then `Run` skips
-- them, passes the answer to `ParseAck`, and keeps nothing.
pub reading_turn-recovers :
    (g f : List ℕ) (rlen retry rc wc : ℕ)
    → retry ≤ 10
    → IsAck f
    → length g ≤ 240
    → ((k : ℕ) → k < length g → (get_or (g ++ f) (k + 4) 0 == 15) ≡ false)
    → (after : Reader) × (reading_turn (nothing_read rlen retry rc wc) (g ++ f) again
        ≡ some (after, f ∷ []))
      × (after.ack ≡ [])
unfolding reading_turn stalled adjust_read_packet flatten
reading_turn-recovers g f rlen retry rc wc patient ack small wrong =
    let size : length (g ++ f) ≡ length g + length f = length-append g f in
    let got : take 512 (g ++ f) ≡ g ++ f = take_enough (g ++ f) 512 (omega (arith, size, ack)) in
    let room : leb 512 (length (g ++ f)) ≡ false =
      leb_over 512 (length (g ++ f)) (omega (arith, size, ack)) in
    let waits : ltb 10 retry ≡ false = ground (arith, patient) in
    let more : (length (g ++ f) == 0) ≡ false = ground (arith, size, ack) in
    let kept : recover (g ++ f) ≡ f = recover-skips g f ack (omega arith) wrong in
    let c = cut_acks-Cut (length f) f [] (f ∷ []) 0 (omega arith) (ack, tt) refl (inl refl) in
    let (empty, passed) = all_passed c.left c.later c.kept c.part in
    let only : c.frames ≡ f ∷ [] =
      sym (append-nil c.frames) ∙ ap (λ l. c.frames ++ l) (sym passed) ∙ sym c.in_order in
    let s : Reader = record {
      ack = f;
      rlen = 0;
      last_readed = length (g ++ f);
      retry = retry;
      rc = rc;
      wc = wc;
    } in
    (
      counted s c.left c.rlen c.frames,
      rw (got, room, waits, more, kept, c.returns)
          (ap (λ l. some (counted s c.left c.rlen c.frames, l)) only),
      counted-ack s c.left c.rlen c.frames ∙ empty,
    )
