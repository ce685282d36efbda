-- ===== src/Valve.antt =====
-- src/CValveMonitor.cpp: the commands of the card terminal on their way to the valves, and the answers on
-- their way back.
pub mod Commands
pub mod Answers
pub mod Register
pub mod Registered
pub mod Reading
pub mod Cutting
pub mod Reassembled
pub mod Recovered
pub mod Stuck
mod Tests
use concentrator.Common.{
  ℕ, ◌+◌, ◌-◌, ◌*◌, ◌/◌, ◌%◌, ◌^◌, Bool, true, false, not, ◌&&◌, Option, none, some, List, [], ◌∷◌,
  ◌++◌, if◌then◌else◌, ◌==◌, ltb, leb, u16, u32, length, get_or, take, drop,
}
use concentrator.Common.Maybe.{◌>>=◌}
use concentrator.Common.File.{le32, of_le32}
use concentrator.Cbuffer.{Cbuffer, cbuffer_write, insert_packet}
use concentrator.Utils.Crc.{generate_crc}
use concentrator.Cardhost.{pktlen}
use concentrator.Cardhost.Answer.{CardHost, be16, copy_of, ack_query_user, ack_recharge}
use concentrator.Cardhost.Command.{buffer_of, same_bytes}

-- The members of `CValveMonitor` on these ways: the users by the address of their valve, in its order, the two rings
-- of commands with their locks, the times at which a recharge expires, and for the registration the ring of
-- valves to answer, the session, whether the users are to be saved, and the count of unregistered valves.
pub record Valves : Type 0 where
  pub users : List (ℕ × List ℕ)
  pub tx : Cbuffer
  pub tx_locked : Bool
  pub htx : Cbuffer
  pub htx_locked : Bool
  pub expires : List (ℕ × ℕ)
  pub rx : Cbuffer
  pub sid : ℕ
  pub sync_users : Bool
  pub unregistered_counter : ℕ

-- How a call ends: it returns, it waits for a lock that nobody releases, or it leaves its memory.
pub data Call {ℓ} (A : Type ℓ) : Type ℓ where
  returned : A → Call A
  waits : Call A
  outside : Call A

-- The loops over `users`: the valve of the first user with a number, and the number at a valve.
unfoldable pub find_valve : List (ℕ × List ℕ) → (uid : List ℕ) → Option ℕ
find_valve [] uid = none
find_valve (user ∷ users) uid = if same_bytes user.1 uid then some user.0 else find_valve users uid

unfoldable pub find_uid : List (ℕ × List ℕ) → (mac : ℕ) → Option (List ℕ)
find_uid [] mac = none
find_uid (user ∷ users) mac = if user.0 == mac then some user.1 else find_uid users mac

-- A command to a valve: its address, `PORT`, `RAND`, the length of code and data, the code and the data.
unfoldable pub command_packet : (mac code : ℕ) (data' : List ℕ) → List ℕ
command_packet mac code data' =
    let len = 1 + length data' in
    le32 mac ++ (15 ∷ 251 ∷ ((if ltb len 255 then len ∷ [] else 255 ∷ be16 len) ++ code ∷ data'))

-- The use of a ring by `QueryUser` and `Recharge`; the flag says whether there was a cell. `none` is a read behind
-- the data, or a write behind the cell.
unfoldable pub put_command :
    Cbuffer → (mac code : ℕ) (data' : List ℕ) (len : ℕ) → Option (Cbuffer × Bool)
put_command buf mac code data' len = elim (cbuffer_write buf) [
  | none ↦ some (buf, false)
  | some cell ↦ elim (copy_of (some data') len) [
    | none ↦ none
    | some copied ↦
        let packet = command_packet mac code copied in
        if ltb pktlen (length packet)
        then none
        else some ((insert_packet buf (buffer_of packet)).0, true)
  ]
]

-- `QueryUser`: without a cell it returns with `txlock` held.
unfoldable pub query_user : Valves → (uid data' : List ℕ) (len : ℕ) → Call Valves
query_user m uid data' len = elim (find_valve m.users uid) [
  | none ↦ returned m
  | some mac ↦ if m.tx_locked then waits else elim (put_command m.tx mac 24 data' len) [
    | none ↦ outside
    | some put ↦ returned (record m { tx = put.0; tx_locked = not put.1 })
  ]
]

-- `expires[mac] = expire`, and `erase`.
unfoldable pub forget_expiry : List (ℕ × ℕ) → (mac : ℕ) → List (ℕ × ℕ)
forget_expiry [] mac = []
forget_expiry (e ∷ expires) mac =
    let rest = forget_expiry expires mac in if e.0 == mac then rest else e ∷ rest

-- `Recharge`; the flag says that the terminal gets a refusal, `AckRecharge(uid, NULL, 0)`.
unfoldable pub recharge : Valves → (now : ℕ) (uid data' : List ℕ) (len : ℕ) → Call (Valves × Bool)
recharge m now uid data' len = elim (find_valve m.users uid) [
  | none ↦ returned (m, false)
  | some mac ↦ if m.htx_locked then waits else elim (put_command m.htx mac 25 data' len) [
    | none ↦ outside
    | some put ↦
        if put.1
        then returned (
          record m { htx = put.0; expires = (mac, u32 (now + 5)) ∷ forget_expiry m.expires mac },
          false,
        )
        else returned (record m { htx_locked = true }, true)
  ]
]

-- What `ParseAck` makes of an answer: nothing, or the valve, the code, the buffer from the data on and the length of
-- the data for the `switch`.
pub data AckVerdict : Type 0 where
  refused : AckVerdict
  dispatched : (mac code : ℕ) (data' : List ℕ) (dlen : ℕ) → AckVerdict
  unreadable : AckVerdict

-- The checks and the fields. A checksum is refused when both of its bytes are wrong. The length in two bytes is
-- `ack[7] << 8 + ack[8] - 1`, a shift by the whole sum.
unfoldable pub parse_ack : (ack : List ℕ) (len : ℕ) → AckVerdict
parse_ack ack len = elim (generate_crc (take (len - 2) ack)) [
  | none ↦ unreadable
  | some gcrc ↦
      let shifted = get_or ack 7 0 * 2 ^ (7 + get_or ack 8 0) in
      let mac = of_le32 ack in
      if not (gcrc % 256 == get_or ack (len - 1) 0)
        && not (gcrc / 256 % 256 == get_or ack (len - 2) 0)
      then refused
      else if not (get_or ack 6 0 == 255)
      then dispatched mac (get_or ack 7 0) (drop 8 ack) (u16 (get_or ack 6 0 + 65535))
      else if leb (2 ^ 31) shifted
      then unreadable
      else dispatched mac (get_or ack 9 0) (drop 10 ack) (u16 shifted)
]

-- `ParseQueryUser` and `ParseRecharge`: the answer goes to the terminal when the valve has a user. `none` is an
-- outcome `none` of the acknowledgement.
unfoldable pub parse_query_user :
    Valves → CardHost → (mac : ℕ) (data' : List ℕ) (len : ℕ) → Option CardHost
parse_query_user m host mac data' len = elim (find_uid m.users mac) [
  | none ↦ some host
  | some uid ↦ ack_query_user host uid (some data') len
]

unfoldable pub parse_recharge :
    Valves → CardHost → (mac : ℕ) (data' : List ℕ) (len : ℕ) → Option (Valves × CardHost)
parse_recharge m host mac data' len = elim (find_uid m.users mac) [
  | none ↦ some (m, host)
  | some uid ↦ (do
    host' ← ack_recharge host uid (some data') len
    some (record m { expires = forget_expiry m.expires mac }, host'))
]

-- The `switch` of `ParseAck` for the answers that concern the terminal; the other codes are left out.
unfoldable pub answer_terminal :
    Valves → CardHost → (ack : List ℕ) (len : ℕ) → Option (Valves × CardHost)
answer_terminal m host ack len = elim (parse_ack ack len) [
  | refused ↦ some (m, host)
  | unreadable ↦ none
  | dispatched mac code data' dlen ↦
      if code == 24
      then (do host' ← parse_query_user m host mac data' dlen; some (m, host'))
      else if code == 25
      then parse_recharge m host mac data' dlen
      else some (m, host)
]
