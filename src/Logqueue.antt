-- ===== src/Logqueue.antt =====
-- src/logqueue.c: a queue kept in three files. The data file holds the messages end to end, the
-- index file an offset and a length for each, and the last number of the pointer file says how much
-- of the index is used up. The target is little-endian with 32-bit `unsigned int`.
pub mod Contents
pub mod Append
pub mod Enqueue
pub mod Fifo
mod Tests
use concentrator.Common.{
  ℕ, ◌+◌, Bool, true, false, Option, none, some, List, [], ◌∷◌, ◌++◌, ◌==◌, if◌then◌else◌, length,
  drop, u32,
}
use concentrator.Common.Maybe.{◌>>=◌}
use concentrator.Common.File.{
  File, seek_set, seek_end, seek_back, read_bytes, after_read, write_bytes, written, le32, of_le32,
}

-- `LOGQUEUE`
pub record Logqueue : Type 0 where
  pub dfd : File
  pub ifd : File
  pub pfd : File

-- `LQIDX`
pub record Lqidx : Type 0 where
  pub offset : ℕ
  pub len : ℕ

abbrev pub lqidx_bytes : Lqidx → List ℕ
lqidx_bytes idx = le32 idx.offset ++ le32 idx.len

abbrev pub bytes_lqidx : List ℕ → Lqidx
bytes_lqidx bytes = record { offset = of_le32 bytes; len = of_le32 (drop 4 bytes) }

-- The last number of the pointer file, with the descriptor behind it; 0 if the file is too short.
-- `none` is a short `read` of that number.
unfoldable pub read_pointer : File → Option (ℕ × File)
read_pointer pfd = elim (seek_back pfd 4) [
  | none ↦ some (0, pfd)
  | some f ↦
      if length (read_bytes f 4) == 4 then some (of_le32 (read_bytes f 4), after_read f 4) else none
]

-- A short read counts as offset 0 here. The flag is true for an empty queue.
unfoldable pub lqempty : Logqueue → Logqueue × Bool
lqempty q =
    let (offset, pfd) = elim (read_pointer q.pfd) as (λ r. ℕ × File) [
      | none ↦ (0, q.pfd)
      | some p ↦ p
    ] in
    let at_end = seek_end q.ifd in
    if at_end.pos == offset then (record q { ifd = at_end; pfd = pfd }, true) else (
      record q { ifd = elim (seek_set at_end offset) [ none ↦ at_end | some f ↦ f ]; pfd = pfd },
      false,
    )

-- `room_d` and `room_i` are what the disk takes of the two writes.
unfoldable pub lqenqueue : Logqueue → List ℕ → (room_d room_i : ℕ) → Logqueue × Bool
lqenqueue q data' room_d room_i =
    let dfd = seek_end q.dfd in
    let idx : Lqidx = record { offset = u32 dfd.pos; len = length data' } in
    let dfd' = write_bytes dfd data' room_d in
    if written data' room_d == length data'
    then (
      record q { dfd = dfd'; ifd = write_bytes (seek_end q.ifd) (lqidx_bytes idx) room_i },
      written (lqidx_bytes idx) room_i == 8,
    )
    else (record q { dfd = dfd' }, false)

-- The steps that `lqdequeue` and `lqfront` share: the pointer, the index entry there, and the message
-- that it names, each with the descriptor behind what was read. `none` is a return of 0 on the way.
unfoldable pub read_entry : File → ℕ → Option (Lqidx × File)
read_entry ifd offset = do
  f ← seek_set ifd offset
  if length (read_bytes f 8) == 8 then some (bytes_lqidx (read_bytes f 8), after_read f 8) else none

unfoldable pub read_data : File → Lqidx → Option (List ℕ × File)
read_data dfd idx = do
  f ← seek_set dfd idx.offset
  let m = read_bytes f idx.len
  if length m == idx.len then some (m, after_read f idx.len) else none

unfoldable pub read_message : Logqueue → Option (List ℕ × Logqueue)
read_message q = do
  (offset, pfd) ← read_pointer q.pfd
  (idx, ifd) ← read_entry q.ifd offset
  (m, dfd) ← read_data q.dfd idx
  some (m, record { dfd = dfd; ifd = ifd; pfd = pfd })

-- `none` is a return of 0, where the positions that the call has moved are not kept: every operation
-- seeks before it reads or writes. On success the message and its length go to the caller.
unfoldable pub lqfront : Logqueue → Logqueue × Option (List ℕ)
lqfront q = elim (read_message q) [ none ↦ (q, none) | some (m, q') ↦ (q', some m) ]

unfoldable pub lqdequeue : Logqueue → (room : ℕ) → Logqueue × Option (List ℕ)
lqdequeue q room = elim (read_message q) [
  | none ↦ (q, none)
  | some (m, q') ↦
      let offset = u32 q'.ifd.pos in
      let q'' = record q' { pfd = write_bytes (seek_end q'.pfd) (le32 offset) room } in
      if written (le32 offset) room == 4 then (q'', some m) else (q'', none)
]
