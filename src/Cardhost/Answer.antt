-- ===== src/Cardhost/Answer.antt =====
-- src/CCardHost.cpp: the acknowledgements, put together in a cell of the ring, and the turns of `Run`
-- that write the cells to the port.
use concentrator.Common.{
  ℕ, ◌+◌, ◌-◌, ◌/◌, ◌%◌, Bool, Option, none, some, List, [], ◌∷◌, ◌++◌, if◌then◌else◌, ◌==◌, ltb,
  min, u16, length, get_or, take, drop, replicate,
}
use concentrator.Common.Maybe.{◌>>=◌}
use concentrator.Common.Memory.{load}
use concentrator.Common.File.{splice, le32}
use concentrator.Cbuffer.{Cbuffer, cbuffer_read, cbuffer_write, cbuffer_read_done, insert_packet}
use concentrator.Utils.Crc.{generate_crc}
use concentrator.Cardhost.{short_length, long_length, pktlen}

-- The members of `CCardHost`; `info` are the addresses that the terminal has sent.
pub record CardHost : Type 0 where
  pub cmdbuf : Cbuffer
  pub info : List (List ℕ)
  pub info_gotten : Bool

-- A `uint16` on the line, high byte first.
abbrev pub be16 : ℕ → List ℕ
be16 n = (n / 256 % 256) ∷ (n % 256) ∷ []

-- The length field, at offset 1.
abbrev pub length_field : ℕ → List ℕ
length_field cmdlen = if ltb cmdlen 255 then cmdlen ∷ [] else 255 ∷ be16 cmdlen

-- An acknowledgement but for its checksum: the room for the length field is chosen by `len`, the field is
-- filled in by `cmdlen`.
unfoldable pub fill_ack : (len cmdlen status : ℕ) (payload : List ℕ) → List ℕ
fill_ack len cmdlen status payload =
    let skip = if ltb len 255 then 1 else 3 in
    splice (170 ∷ (replicate skip 0 ++ (replicate 6 255 ++ (replicate 6 0 ++ (status ∷ payload)))))
      1 (length_field cmdlen)

-- The whole of it; `none` is a write behind the cell, or a read outside the checksum's tables.
unfoldable pub create_ack : (len cmdlen status : ℕ) (payload : List ℕ) → Option (List ℕ)
create_ack len cmdlen status payload =
    let filled = fill_ack len cmdlen status payload in
    if ltb pktlen (length filled + 2)
    then none
    else (do crc ← generate_crc filled; some (filled ++ be16 crc))

-- The bytes that a `memcpy` of `len` bytes from a pointer reads; `none` is a read outside.
abbrev pub copy_of : Option (List ℕ) → ℕ → Option (List ℕ)
copy_of none len = if len == 0 then some [] else none
copy_of (some bytes) len = if ltb (length bytes) len then none else some (take len bytes)

-- `cbuffer_write` came before, and gives the cell that the frame is written to.
unfoldable pub put_ack : CardHost → Option (List ℕ) → Option CardHost
put_ack host made = elim (cbuffer_write host.cmdbuf) [
  | none ↦ some host
  | some cell ↦ (do
    frame ← made
    some (record host { cmdbuf = (insert_packet host.cmdbuf frame).0 }))
]

unfoldable pub ack_query_user :
    CardHost → (uid : List ℕ) (data' : Option (List ℕ)) (len : ℕ) → Option CardHost
ack_query_user host uid data' len = put_ack host (do
  copied ← copy_of data' len
  let status : ℕ = elim data' [ none ↦ if len == 0 then 129 else 1 | some bytes ↦ 1 ]
  create_ack len (u16 (11 + len)) status (uid ++ copied))

unfoldable pub ack_recharge :
    CardHost → (uid : List ℕ) (data' : Option (List ℕ)) (len : ℕ) → Option CardHost
ack_recharge host uid data' len = put_ack host (do
  copied ← copy_of data' len
  create_ack len (u16 (11 + len)) (if len == 0 then 130 else 2) (uid ++ copied))

-- `now` is the answer of `GetLocalTimeStamp`; `none` is its failure.
unfoldable pub ack_time_or_remove :
    CardHost → (now : Option ℕ) (data' : Option (List ℕ)) (len : ℕ) → Option CardHost
ack_time_or_remove host now data' len =
    if len == 0
    then elim now [
      | none ↦ some host
      | some time ↦
          put_ack host (create_ack 0 7 (if length host.info == 0 then 245 else 5) (le32 time))
    ]
    else put_ack host (do copied ← copy_of data' len; create_ack len (u16 (3 + len)) 133 copied)

-- The local variables of `Run` for writing.
pub record Sender : Type 0 where
  pub wrote : ℕ
  pub wlen : ℕ

-- The bytes of a cell that are a frame.
unfoldable pub set_wlen : Sender → (cell : List ℕ) → Option ℕ
set_wlen s cell =
    if s.wrote == 0
    then if get_or cell 1 0 == 255
      then long_length (get_or cell 2 0) (get_or cell 3 0)
      else some (short_length (get_or cell 1 0))
    else some s.wlen

-- One turn when the port takes `room` bytes, and the bytes on the line. `none` is a `write` of a
-- negative number of bytes or of bytes behind the cell, or a length that is not defined.
unfoldable pub write_turn : Cbuffer → Sender → (room : ℕ) → Option (Cbuffer × Sender × List ℕ)
write_turn buf s room = elim (cbuffer_read buf) [
  | none ↦ some (buf, s, [])
  | some cell ↦ (do
    wlen ← set_wlen s (load buf.start cell buf.cellsize)
    let out = take (min room (wlen - s.wrote)) (drop s.wrote (load buf.start cell buf.cellsize))
    if ltb wlen s.wrote
        then none
        else if ltb buf.cellsize wlen
        then none
        else if length out == 0
        then some (buf, record { wrote = s.wrote; wlen = wlen }, [])
        else if s.wrote + length out == wlen
        then some (cbuffer_read_done buf, record { wrote = 0; wlen = wlen }, out)
        else some (buf, record { wrote = s.wrote + length out; wlen = wlen }, out))
]

-- The turns in which the port takes bytes, and all bytes on the line.
unfoldable pub transmit : Cbuffer → Sender → (rooms : List ℕ) → Option (Cbuffer × Sender × List ℕ)
transmit buf s [] = some (buf, s, [])
transmit buf s (room ∷ rooms) = (do
  (buf₁, s₁, out₁) ← write_turn buf s room
  (buf₂, s₂, out₂) ← transmit buf₁ s₁ rooms
  some (buf₂, s₂, out₁ ++ out₂))
