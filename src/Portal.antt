-- ===== src/Portal.antt =====
-- src/CPortal.cpp: the packets that carry the queued messages to the server, and the loops of
-- `SendGeneralHeatData`, `SendValveData`, `SendChargeData` and `SendConsumeData`.
pub mod Drain
pub mod Exchange
pub mod Taken
pub mod Waiting
pub mod Control
pub mod Commands
pub mod Registering
mod Tests
use concentrator.Common.{
  ℕ, ◌+◌, ◌-◌, ◌/◌, ◌%◌, Bool, true, false, not, Option, none, some, List, [], ◌∷◌, ◌++◌,
  if◌then◌else◌, ltb, u16, length,
}
use concentrator.Common.Maybe.{◌>>=◌}
use concentrator.Common.File.{splice, le32}
use concentrator.Logqueue.{Logqueue, lqempty, lqfront, lqdequeue}
use concentrator.Utils.Crc.{generate_crc}

-- A `uint16` in memory.
abbrev pub le16 : ℕ → List ℕ
le16 n = (n % 256) ∷ (n / 256 % 256) ∷ []

-- What the packets of one loop have in common: `jzqid`, the function code, `m_SerialIndex` as it is, and
-- whether there is a count of nodes, as in all loops but the one for heat data.
pub record Kind : Type 0 where
  pub id : ℕ
  pub fun_code : ℕ
  pub serial_index : ℕ
  pub counted : Bool

-- The length, at offset 2, is still 0.
unfoldable pub create_packet_header : Kind → List ℕ
create_packet_header k = 240 ∷ 240 ∷ 0 ∷ 0 ∷ (le32 k.id ++ (le16 k.fun_code ++ le16 k.serial_index))

-- A packet but for the checksum: the count of nodes and the length are filled in behind the data.
unfoldable pub fill_packet : Kind → (message : List ℕ) (utc_time : ℕ) → List ℕ
fill_packet k message utc_time =
    let header = create_packet_header k in
    let filled =
      if k.counted then splice (header ++ (0 ∷ 0 ∷ message)) 12 (le16 1) else header ++ message in
    let timed = filled ++ le32 utc_time in splice timed 2 (le16 (u16 (length timed - 2)))

-- One packet; `none` is a write behind the 1024 bytes of `buf`, since nothing compares the length of
-- the message with them, or a read outside the checksum's tables.
unfoldable pub create_packet : Kind → (message : List ℕ) (utc_time : ℕ) → Option (List ℕ)
create_packet k message utc_time =
    let filled = fill_packet k message utc_time in
    if ltb 1024 (length filled + 2)
    then none
    else (do crc ← generate_crc filled; some (filled ++ le16 crc))

-- `IncSerialIndex`, which `GPRS_Send` calls when it has talked to the server.
unfoldable pub inc_serial_index : Kind → Kind
inc_serial_index k =
    let next = u16 (k.serial_index + 1) in
    record k { serial_index = if ltb 19999 next then 0 else next }

-- What the environment does in one turn of a loop: the time, the answer of `GPRS_Send`, and the bytes
-- that the disk takes of the pointer.
pub record Turn : Type 0 where
  pub utc_time : ℕ
  pub sent : Bool
  pub room : ℕ

-- The loop, as far as there are turns, and the packets that were sent.
unfoldable pub send_data : Kind → List Turn → Logqueue → Option (Logqueue × List (List ℕ))
send_data k [] q = some (q, [])
send_data k (turn ∷ turns) q =
    let (q₁, is_empty) = lqempty q in
    let (q₂, front) = lqfront q₁ in
    elim is_empty [
      | true ↦ some (q₁, [])
      | false ↦ elim front [
        | none ↦ some (q₂, [])
        | some message ↦ (do
          packet ← create_packet k message turn.utc_time
          let next = send_data (inc_serial_index k) turns (lqdequeue q₂ turn.room).0
          if not turn.sent
              then some (q₂, [])
              else (do (q', packets) ← next; some (q', packet ∷ packets)))
      ]
    ]
