-- ===== src/Cardhost.antt =====
-- src/CCardHost.cpp and src/CCardHost.h: the line to the card terminal. `Run` cuts the incoming bytes
-- into frames and sends the acknowledgements of the ring `cmdbuf`; the children model the commands.
pub mod Turn
pub mod Received
pub mod Receive
pub mod Answer
pub mod Oldest
pub mod Write
pub mod Sent
pub mod Transmit
pub mod Response
pub mod EndToEnd
pub mod Info
pub mod Acks
pub mod Queued
pub mod Command
pub mod Checks
pub mod Request
pub mod Only
mod Tests
use concentrator.Common.{
  ℕ, ◌+◌, ◌-◌, ◌*◌, ◌^◌, Bool, true, false, not, ◌&&◌, Option, none, some, List, [], ◌∷◌, ◌++◌,
  if◌then◌else◌, ◌==◌, ltb, leb, min, u16, length, get_or, take, drop,
}
use concentrator.Common.Maybe.{◌>>=◌}

-- The bytes of a frame behind its length, for the one-byte length and for the length of two bytes
-- behind 0xFF: there `1 + 3 + 6 + 6 + hi << 8 + lo` shifts the sum with `hi` by the sum with `lo`.
-- `none` is a shift that leaves the range of `int`.
abbrev pub short_length : ℕ → ℕ
short_length len = 14 + len

unfoldable pub long_length : (hi lo : ℕ) → Option ℕ
long_length hi lo =
    let shifted = (16 + hi) * 2 ^ (8 + lo) in
    if leb (2 ^ 31) shifted then none else some (u16 shifted)

-- The local variables of `Run` for reading: the first `readed` bytes of `cmd`, whose others are zero,
-- and `rlen`.
pub record Receiver : Type 0 where
  pub cmd : List ℕ
  pub rlen : ℕ

abbrev pub readed : Receiver → ℕ
readed s = length s.cmd

-- `PKTLEN`, the size of `cmd` and of a cell of the ring.
abbrev pub pktlen : ℕ
pktlen = 512

-- The length that the first bytes announce.
unfoldable pub set_rlen : Receiver → Option Receiver
set_rlen s =
    if (s.rlen == 4) && (ltb 1 (readed s) && not (get_or s.cmd 1 0 == 255))
    then some (record s { rlen = short_length (get_or s.cmd 1 0) })
    else if (s.rlen == 4) && (ltb 3 (readed s) && (get_or s.cmd 1 0 == 255))
    then (do n ← long_length (get_or s.cmd 2 0) (get_or s.cmd 3 0); some (record s { rlen = n }))
    else some s

-- One turn of the loop when the port is readable and has `room` bytes of the incoming ones: the bytes
-- that stay, and the frame that is passed to `ParseAndExecute`. `none` is a `read` of a negative
-- number of bytes, a byte behind `cmd`, or a length that is not defined.
unfoldable pub read_turn :
    Receiver → (incoming : List ℕ) (room : ℕ) → Option (Receiver × List ℕ × Option (List ℕ))
read_turn s incoming room =
    let rlen = if readed s == 0 then 4 else s.rlen in
    let got = take (min room (rlen - readed s)) incoming in
    let rest = drop (min room (rlen - readed s)) incoming in
    if ltb rlen (readed s)
    then none
    else if length got == 0
    then some (record { cmd = s.cmd; rlen = rlen }, incoming, none)
    else if ltb pktlen (readed s + length got)
    then none
    else (do
      s' ← set_rlen (record { cmd = s.cmd ++ got; rlen = rlen })
      if readed s' == s'.rlen
          then some (record { cmd = []; rlen = s'.rlen }, rest, some s'.cmd)
          else some (s', rest, none))

abbrev pub add_frame : Option (List ℕ) → List (List ℕ) → List (List ℕ)
add_frame none frames = frames
add_frame (some frame) frames = frame ∷ frames

-- The turns in which the port is readable, and the frames passed on.
unfoldable pub receive :
    Receiver → (rooms : List ℕ) (incoming : List ℕ) → Option (Receiver × List ℕ × List (List ℕ))
receive s [] incoming = some (s, incoming, [])
receive s (room ∷ rooms) incoming = (do
  (s₁, incoming₁, frame) ← read_turn s incoming room
  (s₂, incoming₂, frames) ← receive s₁ rooms incoming₁
  some (s₂, incoming₂, add_frame frame frames))
