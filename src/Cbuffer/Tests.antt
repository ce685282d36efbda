-- ===== src/Cbuffer/Tests.antt =====
-- Runs of src/cbuffer.c on a ring of two cells of three bytes.
use concentrator.Common.{
  ℕ, ◌+◌, ◌-◌, ◌^◌, ◌≤◌, ◌≡◌, refl, inl, none, some, List, [], ◌∷◌, true, false, arith, All,
}
use concentrator.Common.Memory.{store}
use concentrator.Cbuffer.{
  Cbuffer, storage_size, cbuffer_count, cbuffer_read, cbuffer_write, cbuffer_read_done,
  cbuffer_write_done, insert_packet, take_packet,
}
use concentrator.Cbuffer.Queue.{IsValid, contents}
use concentrator.Cbuffer.Run.{
  Use, Fills, put, get, run_uses, run_fifo, cells_in_bounds, run_uses_refines,
}

abbrev fresh : Cbuffer
fresh = record { start = λ _. 0; w = 0; r = 0; mask = 15; cellsize = 80 }

-- One packet waits, and the counters are about to wrap.
abbrev ring : Cbuffer
ring = record { start = λ i. i; w = 0; r = 2 ^ 32 - 1; mask = 1; cellsize = 3 }

ring-IsValid : IsValid ring
ring-IsValid = record {
  bits = 1;
  narrow = omega arith;
  cells = refl;
  w_fits = omega arith;
  r_fits = omega arith;
  filled = omega arith;
}

abbrev packet : List ℕ
packet = 7 ∷ 8 ∷ 9 ∷ []

abbrev uses : List Use
uses = put packet ∷ put packet ∷ get ∷ get ∷ get ∷ []

uses-Fill : All (Fills 3) uses
uses-Fill = (refl, (refl, (tt, (tt, (tt, tt)))))

cells_in_bounds_example : 3 + 3 ≤ storage_size 1 3
unfolding cbuffer_read
cells_in_bounds_example =
    cells_in_bounds ring 1 ring-IsValid (omega arith) refl (omega arith) (inl refl)

-- A ring of 2 ^ 22 cells of 1024 bytes is asked for with no bytes at all.
size_lost : storage_size 22 1024 ≡ 0
unfolding storage_size
size_lost = refl

run_uses_refines_example : run_uses ring uses ≡ run_fifo 2 (contents ring) uses
run_uses_refines_example = run_uses_refines uses ring ring-IsValid uses-Fill

-- The second packet does not fit, and the oldest cell comes out first.
run_uses_answers :
    run_uses ring uses
    ≡ (true, none)
      ∷ (false, none)
      ∷ (true, some (3 ∷ 4 ∷ 5 ∷ []))
      ∷ (true, some packet)
      ∷ (true, none)
      ∷ []
unfolding run_uses insert_packet take_packet cbuffer_read cbuffer_write cbuffer_count
    cbuffer_read_done cbuffer_write_done store
run_uses_answers = refl
