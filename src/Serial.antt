-- ===== src/Serial.antt =====
-- src/CSerialComm.cpp: a frame between two flags is cut out of what a serial port brings.
pub mod Found
pub mod Framed
pub mod Whole
mod Tests
use concentrator.Common.{
  ℕ, zero, suc, ◌+◌, ◌-◌, Bool, true, false, ◌&&◌, Option, none, some, List, [], ◌∷◌, ◌++◌,
  if◌then◌else◌, ltb, leb, length, take, drop,
}
use concentrator.Cardhost.Command.{same_bytes}

-- What a `ReadBuf` of the port brings: bytes, which may be none, or an error.
pub data Chunk : Type 0 where
  arrived : List ℕ → Chunk
  broken : Chunk

-- `ECommError`, with the bytes that are copied; `outside` is a read behind the 1024 bytes of `ReadBuffer`.
pub data CommResult : Type 0 where
  comm_ok : List ℕ → CommResult
  comm_fail : CommResult
  comm_nodata : CommResult
  comm_memory_not_enough : CommResult
  outside : CommResult

-- `0 == memcmp(ReadBuffer + index, flag, length)`
abbrev pub flag_at : (buffer flag : List ℕ) (index : ℕ) → Bool
flag_at buffer flag index = same_bytes (take (length flag) (drop index buffer)) flag

-- The first place of a flag, on the number of places behind the index.
unfoldable pub find_begin : (buffer flag : List ℕ) (left index : ℕ) → Option ℕ
find_begin buffer flag zero index = if flag_at buffer flag index then some index else none
find_begin buffer flag (suc left) index =
    let rest = find_begin buffer flag left (index + 1) in
    if flag_at buffer flag index then some index else rest

-- The last place of a flag, on the number of steps down; the place below the last step is tested too.
unfoldable pub find_end : (buffer flag : List ℕ) (steps index : ℕ) → Option ℕ
find_end buffer flag zero index = if flag_at buffer flag index then some index else none
find_end buffer flag (suc steps) index =
    let rest = find_end buffer flag steps (index - 1) in
    if flag_at buffer flag index then some index else rest

module _ (begin_flag end_flag : List ℕ) (buffer_len : ℕ) where
  abbrev search_begin : (buffer : List ℕ) → Option ℕ
  search_begin buffer =
      if ltb (length buffer) (length begin_flag)
      then none
      else find_begin buffer begin_flag (length buffer - length begin_flag) 0

  abbrev search_end : (buffer : List ℕ) (begin : ℕ) → Option ℕ
  search_end buffer begin =
      if ltb (length buffer) (length end_flag)
      then none
      else find_end buffer end_flag
          (length buffer - length end_flag + 1 - (begin + length begin_flag))
          (length buffer - length end_flag)

  -- What is copied to the caller.
  unfoldable pub copy_frame : (buffer : List ℕ) (begin end : ℕ) → CommResult
  copy_frame buffer begin end =
      let count = end - begin + length end_flag in
      if ltb buffer_len count
      then comm_memory_not_enough
      else comm_ok (take count (drop begin buffer))

  -- The flag that begins a frame, and the number of reads: a flag that has just been found sets it to 0.
  abbrev progress : (i : ℕ) (buffer : List ℕ) (begin : Option ℕ) → Option ℕ × ℕ
  progress i buffer (some b) = (some b, i)
  progress i buffer none = elim (search_begin buffer) [ none ↦ (none, i) | some b ↦ (some b, 0) ]

  abbrev place : Option ℕ → ℕ
  place none = 0
  place (some b) = b

  -- The flag that ends it.
  abbrev finished : (buffer : List ℕ) (begin : Option ℕ) → Option ℕ
  finished buffer none = none
  finished buffer (some b) = search_end buffer b

  -- The loop of `ReadBuf`. Behind the last chunk nothing comes.
  unfoldable pub read_loop : (i : ℕ) (buffer : List ℕ) (begin : Option ℕ) → List Chunk → CommResult
  read_loop i buffer begin [] = comm_nodata
  read_loop i buffer begin (broken ∷ chunks) = if leb 3 i then comm_nodata else comm_fail
  read_loop i buffer begin (arrived bytes ∷ chunks) =
      let buffer' = buffer ++ bytes in
      let (begin', i') = progress i buffer' begin in
      let next = read_loop (i' + 1) buffer' begin' chunks in
      let result : CommResult = elim (finished buffer' begin') [
        | none ↦ next
        | some e ↦ copy_frame buffer' (place begin') e
      ] in
      if leb 3 i then comm_nodata else if ltb 1024 (length buffer') then outside else result

  -- `ReadBuf` with two flags.
  unfoldable pub read_buf : List Chunk → CommResult
  read_buf chunks = read_loop 0 [] none chunks
