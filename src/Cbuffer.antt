-- ===== src/Cbuffer.antt =====
-- src/cbuffer.c and src/cbuffer.h: a ring of fixed cells. The client gets the offset of a cell in
-- the storage, copies bytes in or out itself, and then moves the counter by the `_done` macro.
pub mod Window
pub mod Fifo
pub mod Queue
pub mod Run
mod Tests
use concentrator.Common.{
  ℕ, ◌+◌, ◌-◌, ◌*◌, ◌^◌, Bool, true, false, Option, none, some, List, bit_and, ◌==◌, if◌then◌else◌,
  u32, sub32,
}
use concentrator.Common.Memory.{Memory, store, load}

-- `struct _cbuffer`; `start` is the storage behind the header, by offset.
pub record Cbuffer : Type 0 where
  pub start : Memory
  pub w : ℕ
  pub r : ℕ
  pub mask : ℕ
  pub cellsize : ℕ

-- The bytes of storage that `cbuffer_create` asks `malloc` for, at a positive `bitsize`: a product of two `int`s, of
-- which 32 bits are left.
unfoldable pub storage_size : ℕ → ℕ → ℕ
storage_size bitsize cellsize = u32 (cellsize * (2 * 2 ^ (bitsize - 1)))

-- `none` stands for the write through NULL: `bzero` runs before the result of `malloc` is tested.
unfoldable pub cbuffer_create : (allocated : Bool) → ℕ → ℕ → Option Cbuffer
cbuffer_create false bitsize cellsize = none
cbuffer_create true bitsize cellsize = some (record {
  start = λ _. 0;
  w = 0;
  r = 0;
  mask = u32 (2 * 2 ^ (bitsize - 1) - 1);
  cellsize = cellsize;
})

unfoldable pub cbuffer_count : Cbuffer → ℕ
cbuffer_count buf = sub32 buf.w buf.r

-- The offset of the oldest cell; `none` is NULL.
unfoldable pub cbuffer_read : Cbuffer → Option ℕ
cbuffer_read buf = if buf.r == buf.w then none else some (bit_and buf.r buf.mask * buf.cellsize)

-- The offset of the cell to fill; `none` is NULL.
unfoldable pub cbuffer_write : Cbuffer → Option ℕ
unfolding cbuffer_count
cbuffer_write buf =
    if cbuffer_count buf == u32 (buf.mask + 1)
    then none
    else some (bit_and buf.w buf.mask * buf.cellsize)

unfoldable pub cbuffer_read_done : Cbuffer → Cbuffer
cbuffer_read_done buf = record buf { r = u32 (buf.r + 1) }

unfoldable pub cbuffer_write_done : Cbuffer → Cbuffer
cbuffer_write_done buf = record buf { w = u32 (buf.w + 1) }

unfoldable pub cbuffer_clear : Cbuffer → Cbuffer
cbuffer_clear buf = record buf { w = 0; r = 0 }

-- The producer's use, as in `CForwarderMonitor::QueryUser`: get a cell, copy a packet in, count it.
-- The flag says whether the packet was taken.
unfoldable pub insert_packet : Cbuffer → List ℕ → Cbuffer × Bool
unfolding cbuffer_write cbuffer_write_done
insert_packet buf packet = elim (cbuffer_write buf) [
  | none ↦ (buf, false)
  | some cell ↦ (cbuffer_write_done (record buf { start = store buf.start cell packet }), true)
]

-- The consumer's use, as in `CForwarderMonitor::SendCardHostCommand`: the bytes of the oldest cell,
-- which is then given back.
unfoldable pub take_packet : Cbuffer → Cbuffer × Option (List ℕ)
unfolding cbuffer_read cbuffer_read_done
take_packet buf = elim (cbuffer_read buf) [
  | none ↦ (buf, none)
  | some cell ↦ (cbuffer_read_done buf, some (load buf.start cell buf.cellsize))
]
