-- ===== src/Valve/Reading.antt =====
-- src/CValveMonitor.cpp: what `Run` reads of the port of the valves, and the answers that it cuts out of it.
use concentrator.Common.{
  ℕ, zero, suc, ◌+◌, ◌-◌, ◌*◌, ◌%◌, ◌^◌, not, ◌&&◌, Option, none, some, List, [], ◌∷◌, ◌++◌,
  if◌then◌else◌, ◌==◌, ltb, leb, u16, u32, length, get_or, take, drop,
}
use concentrator.Common.Maybe.{◌>>=◌}
use concentrator.Cardhost.{pktlen}

-- The local variables of `Run` for reading; `ack` is its first `readed` bytes.
pub record Reader : Type 0 where
  pub ack : List ℕ
  pub rlen : ℕ
  pub last_readed : ℕ
  pub retry : ℕ
  pub rc : ℕ
  pub wc : ℕ

-- At the start of `Run`.
abbrev pub started : Reader
started = record { ack = []; rlen = 0; last_readed = 0; retry = 0; rc = 0; wc = 0 }

-- How the last `read` of a turn ends: there is no more for now (`EAGAIN`), another error, or no byte.
pub data Ending : Type 0 where
  again : Ending
  failed : Ending
  closed : Ending

-- The search for the port number `0x0F` behind an address, with `readed` and `ptr`, which has 8 bits.
unfoldable pub skip_wrong : (ack : List ℕ) (readed ptr : ℕ) → ℕ × ℕ
skip_wrong ack zero ptr = (zero, ptr)
skip_wrong ack (suc readed) ptr =
    let rest = skip_wrong ack readed ((ptr + 1) % 256) in
    if ltb 5 (suc readed) && not (get_or ack (ptr + 4) 0 == 15) then rest else (suc readed, ptr)

unfoldable pub recover : List ℕ → List ℕ
recover ack = let found = skip_wrong ack (length ack) 0 in take found.0 (drop found.1 ack)

-- `rlen`, as far as the bytes tell. The length in two bytes is `4 + 1 + 1 + 3 + ack[7] << 8 + ack[8] + 2`, a shift
-- of one sum by the other; `none` is a shift out of an `int`.
unfoldable pub announced : (ack : List ℕ) (rlen : ℕ) → Option ℕ
announced ack rlen =
    let shifted = (9 + get_or ack 7 0) * 2 ^ (10 + get_or ack 8 0) in
    if ltb 6 (length ack) && not (get_or ack 6 0 == 255)
    then some (u16 (9 + get_or ack 6 0))
    else if ltb 8 (length ack) && (get_or ack 6 0 == 255)
    then (if leb (2 ^ 31) shifted then none else some (u16 shifted))
    else some rlen

-- The loop that passes the answers to `ParseAck`, with what is left; it takes some bytes in each turn, so their
-- number is fuel enough.
unfoldable pub cut_acks : (fuel : ℕ) (ack : List ℕ) (rlen : ℕ) → Option (List ℕ × ℕ × List (List ℕ))
cut_acks zero ack rlen = some (ack, rlen, [])
cut_acks (suc fuel) ack rlen = (do
  len ← announced ack rlen
  let rest = cut_acks fuel (drop len ack) 0
  if leb len (length ack) && ltb 0 len
      then (do (left, rlen', frames) ← rest; some (left, rlen', take len ack ∷ frames))
      else some (ack, len, []))

abbrev pub counted : Reader → (ack : List ℕ) (rlen : ℕ) (frames : List (List ℕ)) → Reader
counted s ack rlen [] = record s { ack = ack; rlen = rlen }
counted s ack rlen (frame ∷ frames) = record s {
  ack = ack;
  rlen = rlen;
  last_readed = length ack;
  retry = 0;
  rc = u32 (s.rc + length (frame ∷ frames));
}

-- From `adjust_read_packet` on.
unfoldable pub adjust_read_packet : Reader → Option (Reader × List (List ℕ))
adjust_read_packet s = (do
  (left, rlen, frames) ← cut_acks (length s.ack) s.ack s.rlen
  some (counted s left rlen frames, frames))

-- After too many turns without an answer: what is not a whole one is dropped.
unfoldable pub give_up : Reader → Option (Reader × List (List ℕ))
give_up s = (do
  let ack = recover s.ack
  len ← announced ack 0
  if leb len (length ack)
      then adjust_read_packet (record s { ack = ack; rlen = len })
      else some (
        record s {
          ack = [];
          rlen = 0;
          retry = 0;
          rc = if ltb s.wc s.rc then s.rc else s.wc;
          wc = if ltb s.wc s.rc then s.rc else s.wc;
        },
        [],
      ))

-- The bytes are there, and the port has no more for now.
unfoldable pub stalled : Reader → Option (Reader × List (List ℕ))
stalled s =
    let s' = record s {
      retry = if length s.ack == s.last_readed then (s.retry + 1) % 256 else s.retry;
    } in
    if ltb 10 s.retry
    then give_up s
    else if length s.ack == 0
    then some (s', [])
    else adjust_read_packet (record s' { ack = recover s.ack; last_readed = length s.ack })

-- A turn in which the port is readable, with its bytes, and the answers that are passed to `ParseAck`. When they
-- fill the buffer, the last `read` is of no byte, and what does not fit stays with the port.
unfoldable pub reading_turn : Reader → (bytes : List ℕ) → Ending → Option (Reader × List (List ℕ))
reading_turn s bytes ending =
    let room = pktlen - length s.ack in
    let s' = record s {
      ack = s.ack ++ take room bytes;
      rlen = if length s.ack == 0 then 0 else s.rlen;
    } in
    if leb room (length bytes)
    then adjust_read_packet (record s' { ack = recover s'.ack })
    else elim ending [
      | again ↦ stalled s'
      | failed ↦ some (s', [])
      | closed ↦ adjust_read_packet (record s' { ack = recover s'.ack })
    ]

-- What `epoll_wait` comes back for in a turn: bytes to read, or that its time is over.
pub data Event : Type 0 where
  brought : List ℕ → Event
  timed_out : Event

-- A turn whose time is over: after more than five of them what has been read is dropped.
unfoldable pub poll_timed_out : Reader → Reader
poll_timed_out s =
    if ltb 5 s.retry
    then record s {
      ack = [];
      rlen = 0;
      retry = 0;
      rc = if ltb s.wc s.rc then s.rc else s.wc;
      wc = if ltb s.wc s.rc then s.rc else s.wc;
    }
    else record s { retry = (s.retry + 1) % 256 }

-- The turns, but for those in which the port takes bytes.
unfoldable pub reading_turns : Reader → List Event → Option (Reader × List (List ℕ))
reading_turns s [] = some (s, [])
reading_turns s (brought piece ∷ events) = (do
  (s₁, frames₁) ← reading_turn s piece again
  (s₂, frames₂) ← reading_turns s₁ events
  some (s₂, frames₁ ++ frames₂))
reading_turns s (timed_out ∷ events) = reading_turns (poll_timed_out s) events

-- The bytes that are brought, and how often the time is over.
abbrev pub bytes_brought : List Event → List ℕ
bytes_brought [] = []
bytes_brought (brought piece ∷ events) = piece ++ bytes_brought events
bytes_brought (timed_out ∷ events) = bytes_brought events

abbrev pub time_outs : List Event → ℕ
time_outs [] = 0
time_outs (brought piece ∷ events) = time_outs events
time_outs (timed_out ∷ events) = suc (time_outs events)
