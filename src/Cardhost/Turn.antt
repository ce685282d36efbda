-- ===== src/Cardhost/Turn.antt =====
-- src/CCardHost.cpp: what one turn of `Run` that reads does to a frame with a one-byte length.
use concentrator.Common.{
  ℕ, ◌+◌, ◌-◌, ◌≤◌, ◌<◌, ◌≡◌, refl, ap, ◌∙◌, ◌⊎◌, inl, inr, false, Option, some, none, List, ◌++◌,
  length, length-take, length-drop, ltb, arith, Bool-cases, take, drop, drop-length, get_or, min,
  if◌then◌else◌, ◌==◌,
}
use concentrator.Common.File.{take_enough}
use concentrator.Common.Parts.{
  take_then_take, drop-drop, take_of_append, drop_of_append, get_or-take,
}
use concentrator.Cardhost.{Receiver, pktlen, set_rlen, short_length, read_turn}

-- A frame with a one-byte length, whole.
abbrev pub IsFrame : List ℕ → Type 0
IsFrame f = (get_or f 1 0 < 255) × (length f ≡ short_length (get_or f 1 0))

-- The value of `rlen` at a turn, when `n` bytes of the frame `f` are there.
abbrev pub wanted : List ℕ → ℕ → ℕ
wanted f n = if ltb 1 n then length f else 4

-- The receiver after the first `n` bytes of the frame `f`; before the first byte `rlen` is left over.
abbrev pub awaiting : List ℕ → (n rlen : ℕ) → Receiver
awaiting f n rlen = record { cmd = take n f; rlen = rlen }

abbrev pub Awaits : List ℕ → (n rlen : ℕ) → Type 0
Awaits f n rlen = (n < length f) × ((n ≡ 0) ⊎ (rlen ≡ wanted f n))

-- The bytes that a turn gets when there are enough.
abbrev pub turn_bytes : List ℕ → (n room : ℕ) → ℕ
turn_bytes f n room = min room (wanted f n - n)

-- The length that the first `n` bytes of a frame announce, for any `n` but none.
set_rlen-Awaits :
    (f : List ℕ) (n m : ℕ)
    → IsFrame f
    → 0 < m
    → n < m
    → m ≤ wanted f n
    → set_rlen (record { cmd = take m f; rlen = wanted f n })
      ≡ some (record { cmd = take m f; rlen = wanted f m })
unfolding set_rlen
set_rlen-Awaits f n m frame pos more small =
    let size : length (take m f) ≡ m = ground (arith, length-take m f) in
    elim (Bool-cases (ltb 1 m)) [
      | inl two ↦
          let len : get_or (take m f) 1 0 ≡ get_or f 1 0 = get_or-take m 1 f 0 (ground arith) in
          rw (two, size, len) (ground arith)
      | inr one ↦ rw (one, size) (ground arith)
    ]

-- What a turn does when the port has a byte and the first `m` bytes are there then.
abbrev pub after_bytes : (f tail : List ℕ) (m : ℕ) → Receiver × List ℕ × Option (List ℕ)
after_bytes f tail m =
    if m == length f
    then (awaiting f 0 (length f), tail, some f)
    else (awaiting f m (wanted f m), drop m f ++ tail, none)

module _ (f tail : List ℕ) (n rlen room : ℕ) (frame : IsFrame f) (a : Awaits f n rlen) where
  abbrev taken : ℕ
  taken = turn_bytes f n room

  bounds : (wanted f n ≤ length f) × (n < wanted f n) × (wanted f n ≤ pktlen)
  bounds = ground arith

  size : length (take n f) ≡ n
  size = omega (arith, length-take n f)

  rlen_is : (if n == 0 then 4 else rlen) ≡ wanted f n
  rlen_is = ground arith

  taken_fits : taken ≤ length (drop n f)
  taken_fits = omega (arith, length-drop n f, bounds)

  got : take taken (drop n f ++ tail) ≡ take taken (drop n f)
  got = take_of_append taken (drop n f) tail taken_fits

  left_over : drop taken (drop n f ++ tail) ≡ drop (n + taken) f ++ tail
  left_over =
      drop_of_append taken (drop n f) tail taken_fits ∙ ap (λ l. l ++ tail) (drop-drop n taken f)

  got_size : length (take taken (drop n f)) ≡ taken
  got_size = omega (arith, length-take taken (drop n f), taken_fits)

  pub read_turn-idle :
      taken ≡ 0
      → read_turn (awaiting f n rlen) (drop n f ++ tail) room
        ≡ some (awaiting f n (wanted f n), drop n f ++ tail, none)
  unfolding read_turn
  read_turn-idle z = rw (size, rlen_is, got, got_size, z) (ground (arith, bounds))

  pub read_turn-some :
      0 < taken
      → read_turn (awaiting f n rlen) (drop n f ++ tail) room
        ≡ some (after_bytes f tail (n + taken))
  unfolding read_turn
  read_turn-some pos =
      let whole : take n f ++ take taken (drop n f) ≡ take (n + taken) f =
        take_then_take n taken f in
      let m_size : length (take (n + taken) f) ≡ n + taken =
        omega (arith, length-take (n + taken) f, bounds) in
      let len =
        set_rlen-Awaits f n (n + taken) frame (omega arith) (omega arith) (omega (arith, bounds)) in
      rw
        (
          size, rlen_is, got, got_size, left_over, whole, len, m_size, guards.0, guards.1, guards.2,
          guards.3,
        )
        (elim (Bool-cases (n + taken == length f)) [
          | inl last ↦
              let e : n + taken ≡ length f = ground arith in
              rw (last, e, take_enough f (length f) (omega arith), drop-length f)
                (ground (arith, bounds))
          | inr more ↦ rw more refl
        ])
    where
      guards :
          (ltb (wanted f n) n ≡ false)
          × ((taken == 0) ≡ false)
          × (ltb pktlen (n + taken) ≡ false)
          × ((n + taken == wanted f (n + taken)) ≡ (n + taken == length f))
      guards = (
        ground (arith, bounds),
        ground (arith, pos),
        ground (arith, bounds),
        ground (arith, bounds),
      )
