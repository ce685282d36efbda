-- ===== src/Cbuffer/Queue.antt =====
-- src/cbuffer.c: a valid ring is a bounded first-in first-out queue of cells, and stays one
-- when its 32-bit counters wrap.
use native.Mathlib.Nat.{mod-mod_of_dvd}
use concentrator.Common.{
  ℕ, suc, ◌+◌, ◌-◌, ◌*◌, ◌^◌, ◌%◌, ◌≤◌, ◌<◌, ◌≡◌, ◌≢◌, refl, ap, ap₂, ◌∙◌, none, some, List, [],
  ◌∷◌, ◌++◌, true, false, arith, bit_and, length, u32, sub32, drop, ℕ_discrete, ==_iff,
}
use concentrator.Common.Bits.{bit_and-mask, pow_in_word}
use concentrator.Common.Memory.{store, load, load-store_self}
use concentrator.Cbuffer.{Cbuffer, cbuffer_count, insert_packet, take_packet}
use concentrator.Cbuffer.Fifo
use concentrator.Cbuffer.Window.{window, length-window, window_congr, window-store, window-snoc}

-- The number of cells is a power of two that divides the range of the counters.
pub record IsValid (buf : Cbuffer) : Type 0 where
  pub bits : ℕ
  pub narrow : bits < 32
  pub cells : buf.mask + 1 ≡ 2 ^ bits
  pub w_fits : buf.w < 2 ^ 32
  pub r_fits : buf.r < 2 ^ 32
  pub filled : sub32 buf.w buf.r ≤ buf.mask + 1

-- The queue that a ring holds, oldest cell first.
abbrev pub contents : Cbuffer → List (List ℕ)
contents buf = window buf.start (buf.mask + 1) buf.cellsize buf.r (sub32 buf.w buf.r)

-- The arithmetic of a valid ring's counters.
pub record Counters (buf : Cbuffer) : Type 0 where
  pub size_fits : buf.mask + 1 ≤ 2 ^ 31
  pub nonempty : 0 < buf.mask + 1
  pub read_slot : bit_and buf.r buf.mask ≡ buf.r % (buf.mask + 1)
  pub write_slot : bit_and buf.w buf.mask ≡ (buf.r + sub32 buf.w buf.r) % (buf.mask + 1)
  pub next_slot : u32 (buf.r + 1) % (buf.mask + 1) ≡ (buf.r + 1) % (buf.mask + 1)

pub counters : (buf : Cbuffer) → IsValid buf → Counters buf
counters buf v = record {
  size_fits = omega (arith, pow_in_word v.bits v.narrow);
  nonempty = omega arith;
  read_slot = masked buf.r;
  write_slot =
      masked buf.w ∙ ap (λ x. x % (buf.mask + 1)) unwrap ∙ wrapped (buf.r + sub32 buf.w buf.r);
  next_slot = wrapped (buf.r + 1);
}
  where
    masked : (a : ℕ) → bit_and a buf.mask ≡ a % (buf.mask + 1)
    masked a =
        let e : buf.mask ≡ 2 ^ v.bits - 1 = omega (arith, v.cells) in
        rw (e) (
          rw (bit_and-mask v.bits a) (ap (λ x. a % x) (omega (arith, pow_in_word v.bits v.narrow))))

    wrapped : (a : ℕ) → a % 2 ^ 32 % (buf.mask + 1) ≡ a % (buf.mask + 1)
    wrapped a = rw (v.cells) (mod-mod_of_dvd (2 ^ v.bits) a (pow_in_word v.bits v.narrow).2)

    unwrap : buf.w ≡ (buf.r + sub32 buf.w buf.r) % 2 ^ 32
    unwrap = omega (arith, v.w_fits, v.r_fits)

-- The cell that an insertion leaves behind: the packet, and the old bytes that it does not cover.
abbrev pub filled_cell : Cbuffer → List ℕ → List ℕ
filled_cell buf packet =
    packet
    ++ drop (length packet)
        (load buf.start ((buf.r + sub32 buf.w buf.r) % (buf.mask + 1) * buf.cellsize) buf.cellsize)

-- The two outcomes of an insertion.
abbrev after_insert : Cbuffer → List ℕ → Cbuffer
after_insert buf packet = record buf {
  start = store buf.start (bit_and buf.w buf.mask * buf.cellsize) packet;
  w = u32 (buf.w + 1);
}

insert-full :
    (buf : Cbuffer) (packet : List ℕ)
    → sub32 buf.w buf.r ≡ u32 (buf.mask + 1)
    → insert_packet buf packet ≡ (buf, false)
unfolding insert_packet cbuffer_count
insert-full buf packet e = ground arith

insert-room :
    (buf : Cbuffer) (packet : List ℕ)
    → sub32 buf.w buf.r ≢ u32 (buf.mask + 1)
    → insert_packet buf packet ≡ (after_insert buf packet, true)
unfolding insert_packet cbuffer_count
insert-room buf packet ne = ground arith

after_insert-IsValid :
    (buf : Cbuffer) (packet : List ℕ)
    → IsValid buf
    → sub32 buf.w buf.r < buf.mask + 1
    → IsValid (after_insert buf packet)
after_insert-IsValid buf packet v lt = record {
  bits = v.bits;
  narrow = v.narrow;
  cells = v.cells;
  w_fits = omega arith;
  r_fits = v.r_fits;
  filled = omega (arith, v.w_fits, v.r_fits, (counters buf v).size_fits);
}

contents-after_insert :
    (buf : Cbuffer) (packet : List ℕ)
    → IsValid buf
    → length packet ≤ buf.cellsize
    → sub32 buf.w buf.r < buf.mask + 1
    → contents (after_insert buf packet) ≡ contents buf ++ (filled_cell buf packet ∷ [])
contents-after_insert buf packet v fits lt =
    rw (grown, (counters buf v).write_slot)
      (window-snoc (store buf.start (slot * buf.cellsize) packet) cells buf.cellsize buf.r n
        ∙ ap₂ (λ q cell. q ++ (cell ∷ []))
            (rw kept at
              (window-store buf.start cells buf.cellsize buf.r n packet lt fits n (omega arith)))
            (load-store_self buf.start (slot * buf.cellsize) packet buf.cellsize fits))
  where
    cells : ℕ
    cells = buf.mask + 1

    n : ℕ
    n = sub32 buf.w buf.r

    slot : ℕ
    slot = (buf.r + n) % cells

    grown : sub32 (u32 (buf.w + 1)) buf.r ≡ n + 1
    grown = omega (arith, v.w_fits, v.r_fits, (counters buf v).size_fits)

    kept : buf.r + (n - n) ≡ buf.r
    kept = omega arith

-- Inserting a packet that fits a cell is a push on the bounded queue, with the same answer, and
-- keeps the ring valid.
pub insert_packet_refines :
    (buf : Cbuffer) (packet : List ℕ)
    → IsValid buf
    → length packet ≤ buf.cellsize
    → IsValid (insert_packet buf packet).0
      × ((contents (insert_packet buf packet).0, (insert_packet buf packet).1)
          ≡ Fifo.push (buf.mask + 1) (contents buf) (filled_cell buf packet))
insert_packet_refines buf packet v fits = elim (ℕ_discrete (sub32 buf.w buf.r) (buf.mask + 1)) [
  | yes e ↦
      rw (insert-full buf packet (omega (arith, (counters buf v).size_fits)))
        (v, rw (count, (==_iff (sub32 buf.w buf.r) (buf.mask + 1)).1 e) refl)
  | no ne ↦
      let lt : sub32 buf.w buf.r < buf.mask + 1 = omega (arith, v.filled) in
      rw (insert-room buf packet (omega (arith, (counters buf v).size_fits))) (
        after_insert-IsValid buf packet v lt,
        rw (count) (ground (arith, contents-after_insert buf packet v fits lt)),
      )
]
  where
    count : length (contents buf) ≡ sub32 buf.w buf.r
    count = length-window buf.start (buf.mask + 1) buf.cellsize buf.r (sub32 buf.w buf.r)

take-empty : (buf : Cbuffer) → buf.r ≡ buf.w → take_packet buf ≡ (buf, none)
unfolding take_packet
take-empty buf e = ground arith

abbrev after_take : Cbuffer → Cbuffer
after_take buf = record buf { r = u32 (buf.r + 1) }

take-some :
    (buf : Cbuffer)
    → buf.r ≢ buf.w
    → take_packet buf
      ≡ (after_take buf, some (load buf.start (bit_and buf.r buf.mask * buf.cellsize) buf.cellsize))
unfolding take_packet
take-some buf ne = ground arith

-- Taking a packet is a pop of the queue, with the same answer, and keeps the ring valid.
pub take_packet_refines :
    (buf : Cbuffer)
    → IsValid buf
    → IsValid (take_packet buf).0
      × ((contents (take_packet buf).0, (take_packet buf).1) ≡ Fifo.pop (contents buf))
take_packet_refines buf v = elim (ℕ_discrete buf.r buf.w) [
  | yes e ↦
      let z : sub32 buf.w buf.r ≡ 0 = omega (arith, v.w_fits) in
      rw (take-empty buf e) (v, rw z refl)
  | no ne ↦
      let some_left : sub32 buf.w buf.r ≡ suc (sub32 buf.w (u32 (buf.r + 1))) =
        omega (arith, v.w_fits, v.r_fits) in
      rw (take-some buf ne) (
        record {
          bits = v.bits;
          narrow = v.narrow;
          cells = v.cells;
          w_fits = v.w_fits;
          r_fits = omega arith;
          filled = omega (arith, v.filled);
        },
        rw (some_left, (counters buf v).read_slot)
            (ap₂ (λ q cell. (q, some cell))
              (window_congr buf.start (buf.mask + 1) buf.cellsize (u32 (buf.r + 1)) (buf.r + 1)
                (sub32 buf.w (u32 (buf.r + 1))) (counters buf v).next_slot)
              refl),
      )
]
