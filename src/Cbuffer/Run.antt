-- ===== src/Cbuffer/Run.antt =====
-- src/cbuffer.c: a new ring, the bounds of its cells, and any sequence of uses.
use concentrator.Common.{
  ℕ, zero, suc, ◌+◌, ◌-◌, ◌*◌, ◌^◌, ◌%◌, ◌≤◌, ◌<◌, ◌≡◌, refl, ap, ◌∙◌, ◌⊎◌, Option, none, some,
  List, [], ◌∷◌, ◌++◌, append-nil, Bool, true, arith, length, All, u32, sub32, drop, drop-length,
}
use mathlib.Core.Path.{subst}
use native.Mathlib.Nat.{mod-lt, pow-suc}
use concentrator.Common.Bits.{pow_in_word}
use concentrator.Common.Memory.{load, length-load}
use concentrator.Cbuffer.{
  Cbuffer, storage_size, cbuffer_create, cbuffer_read, cbuffer_write, insert_packet, take_packet,
}
use concentrator.Cbuffer.Fifo
use concentrator.Cbuffer.Queue.{
  IsValid, contents, filled_cell, counters, insert_packet_refines, take_packet_refines,
}

some_injective : (a b : Cbuffer) → some a ≡ some b → a ≡ b
some_injective a b e = cc

double_pow : (k : ℕ) → 0 < k → 2 * 2 ^ (k - 1) ≡ 2 ^ k
double_pow zero h = absurd (omega arith)
double_pow (suc k) h = let e : suc k - 1 ≡ k = omega arith in rw e (omega (arith, pow-suc 2 k))

slot_in_bounds :
    (slot cells cellsize : ℕ) → slot < cells → slot * cellsize + cellsize ≤ cellsize * cells
slot_in_bounds slot cells cellsize h = grind arith

-- A new ring of `2 ^ bitsize` cells is valid and empty, for every width that an `int` shift takes.
pub cbuffer_create-IsValid :
    (bitsize cellsize : ℕ) {buf : Cbuffer}
    → 0 < bitsize
    → bitsize < 31
    → cbuffer_create true bitsize cellsize ≡ some buf
    → IsValid buf × (contents buf ≡ []) × (buf.mask + 1 ≡ 2 ^ bitsize) × (buf.cellsize ≡ cellsize)
unfolding cbuffer_create
cbuffer_create-IsValid bitsize cellsize {buf} lo hi e =
    subst
      (λ (b : Cbuffer).
        IsValid b × (contents b ≡ []) × (b.mask + 1 ≡ 2 ^ bitsize) × (b.cellsize ≡ cellsize))
      (some_injective _ buf e) (fresh_valid, refl, cells, refl)
  where
    power : 2 * 2 ^ (bitsize - 1) ≡ 2 ^ bitsize
    power = double_pow bitsize lo

    small : 2 ^ bitsize ≤ 2 ^ 31
    small = (pow_in_word bitsize (omega arith)).1

    positive : 0 < 2 ^ bitsize
    positive = (pow_in_word bitsize (omega arith)).0

    cells : u32 (2 * 2 ^ (bitsize - 1) - 1) + 1 ≡ 2 ^ bitsize
    cells = omega (arith, power, small, positive)

    fresh_valid : IsValid (record {
      start = λ _. 0;
      w = 0;
      r = 0;
      mask = u32 (2 * 2 ^ (bitsize - 1) - 1);
      cellsize = cellsize;
    })
    fresh_valid = record {
      bits = bitsize;
      narrow = omega arith;
      cells = cells;
      w_fits = omega arith;
      r_fits = omega arith;
      filled = omega arith;
    }

-- When the size of all cells fits an `int`, which `cbuffer_create` does not test, the cells that a valid ring hands out
-- lie whole within the storage that is asked for.
pub cells_in_bounds :
    (buf : Cbuffer) (bitsize : ℕ) {cell : ℕ}
    → IsValid buf
    → 0 < bitsize
    → buf.mask + 1 ≡ 2 ^ bitsize
    → buf.cellsize * 2 ^ bitsize < 2 ^ 31
    → (cbuffer_read buf ≡ some cell) ⊎ (cbuffer_write buf ≡ some cell)
    → cell + buf.cellsize ≤ storage_size bitsize buf.cellsize
unfolding cbuffer_read cbuffer_write storage_size
cells_in_bounds buf bitsize v lo e fits h =
    let fits' : buf.cellsize * (buf.mask + 1) < 2 ^ 31 = rw e fits in
    let whole : u32 (buf.cellsize * (buf.mask + 1)) ≡ buf.cellsize * (buf.mask + 1) =
      omega (arith, fits') in
    rw (double_pow bitsize lo, ← e, whole)
      (ground (
        arith,
        (counters buf v).read_slot,
        (counters buf v).write_slot,
        slot_in_bounds (buf.r % (buf.mask + 1)) (buf.mask + 1) buf.cellsize
            (mod-lt buf.r (counters buf v).nonempty),
        slot_in_bounds ((buf.r + sub32 buf.w buf.r) % (buf.mask + 1)) (buf.mask + 1) buf.cellsize
            (mod-lt (buf.r + sub32 buf.w buf.r) (counters buf v).nonempty),
      ))

-- A client's uses of the ring, and what it sees of each.
pub data Use : Type 0 where
  put : List ℕ → Use
  get : Use

unfoldable pub run_uses : Cbuffer → List Use → List (Bool × Option (List ℕ))
run_uses buf [] = []
run_uses buf (put packet ∷ uses) =
    let (buf', taken) = insert_packet buf packet in (taken, none) ∷ run_uses buf' uses
run_uses buf (get ∷ uses) = let (buf', out) = take_packet buf in (true, out) ∷ run_uses buf' uses

-- The same uses of a bounded queue.
unfoldable pub run_fifo : ℕ → List (List ℕ) → List Use → List (Bool × Option (List ℕ))
run_fifo cap q [] = []
run_fifo cap q (put packet ∷ uses) =
    let (q', taken) = Fifo.push cap q packet in (taken, none) ∷ run_fifo cap q' uses
run_fifo cap q (get ∷ uses) = let (q', out) = Fifo.pop q in (true, out) ∷ run_fifo cap q' uses

-- A use whose packet fills its cell, so that no old bytes are left behind it.
abbrev pub Fills : ℕ → Use → Type 0
Fills cellsize (put packet) = length packet ≡ cellsize
Fills cellsize get = Unit {0}

mask-insert :
    (buf : Cbuffer) (packet : List ℕ)
    → ((insert_packet buf packet).0.mask ≡ buf.mask)
      × ((insert_packet buf packet).0.cellsize ≡ buf.cellsize)
unfolding insert_packet
mask-insert buf packet = ground arith

mask-take :
    (buf : Cbuffer)
    → ((take_packet buf).0.mask ≡ buf.mask) × ((take_packet buf).0.cellsize ≡ buf.cellsize)
unfolding take_packet
mask-take buf = ground arith

pub whole_cell :
    (buf : Cbuffer) (packet : List ℕ)
    → length packet ≡ buf.cellsize
    → filled_cell buf packet ≡ packet
whole_cell buf packet e =
    ap (λ l. packet ++ l)
      (rw e (
        all_covered buf.cellsize (load buf.start slot buf.cellsize)
          (length-load buf.start slot buf.cellsize)))
    ∙ append-nil packet
  where
    slot : ℕ
    slot = (buf.r + sub32 buf.w buf.r) % (buf.mask + 1) * buf.cellsize

    all_covered : (n : ℕ) (l : List ℕ) → length l ≡ n → drop n l ≡ []
    all_covered n l h = rw (← h) (drop-length l)

-- No sequence of uses with full cells tells a valid ring from the bounded queue of its contents.
pub run_uses_refines :
    (uses : List Use) (buf : Cbuffer)
    → IsValid buf
    → All (Fills buf.cellsize) uses
    → run_uses buf uses ≡ run_fifo (buf.mask + 1) (contents buf) uses
unfolding run_uses run_fifo
run_uses_refines [] buf v full = refl
run_uses_refines (put packet ∷ uses) buf v full =
    let step = insert_packet_refines buf packet v (omega (arith, full.0)) in
    let (same_mask, same_size) = mask-insert buf packet in
    let buf' = (insert_packet buf packet).0 in
    ap (λ l. ((insert_packet buf packet).1, none) ∷ l)
      (run_uses_refines uses buf' step.0 (rw same_size full.1)
        ∙ ap (λ (k : ℕ). run_fifo (k + 1) (contents buf') uses) same_mask)
    ∙ ap (λ (p : List (List ℕ) × Bool). (p.1, none) ∷ run_fifo (buf.mask + 1) p.0 uses)
        (step.1 ∙ ap (Fifo.push (buf.mask + 1) (contents buf)) (whole_cell buf packet full.0))
run_uses_refines (get ∷ uses) buf v full =
    let step = take_packet_refines buf v in
    let (same_mask, same_size) = mask-take buf in
    let buf' = (take_packet buf).0 in
    ap (λ l. (true, (take_packet buf).1) ∷ l)
      (run_uses_refines uses buf' step.0 (rw same_size full.1)
        ∙ ap (λ (k : ℕ). run_fifo (k + 1) (contents buf') uses) same_mask)
    ∙ ap (λ (p : List (List ℕ) × Option (List ℕ)). (true, p.1) ∷ run_fifo (buf.mask + 1) p.0 uses)
        step.1
