-- ===== src/Forwarder.antt =====
-- src/CForwarderMonitor.cpp and src/CForwarderMonitor.h: the forwarders, which are asked for their valves over a
-- serial port of Serial.
pub mod Roster
pub mod Answer
pub mod InfoTask
mod Tests
use concentrator.Common.{
  ℕ, zero, suc, ◌+◌, ◌-◌, ◌*◌, ◌^◌, ◌/◌, ◌%◌, Bool, true, false, not, ◌&&◌, Option, none, some,
  List, [], ◌∷◌, ◌++◌, if◌then◌else◌, ◌==◌, ltb, leb, u32, length, get_or, take, drop, replicate,
}
use concentrator.Common.Maybe.{◌>>=◌}
use concentrator.Common.File.{le32, of_le32}
use concentrator.Common.Table.{lookup, put}
use concentrator.Utils.Bytes.{generate_xor_parity}
use concentrator.Serial.{
  Chunk, CommResult, comm_ok, comm_fail, comm_nodata, comm_memory_not_enough, outside, read_buf,
}

-- `ValveElemT`: the flags, and the bytes of the union `ValveData`, whose two members begin with the address.
pub record ValveElem : Type 0 where
  pub is_active : Bool
  pub is_data_missing : Bool
  pub valve_data : List ℕ

-- `memset` with zeros
abbrev pub blank : ValveElem
blank = record { is_active = false; is_data_missing = false; valve_data = replicate 45 0 }

-- `ForwarderElementT`; the first `A1ResponseStrLen` bytes of `A1ResponseStr`.
pub record ForwarderElement : Type 0 where
  pub is_offline : Bool
  pub a1_response : List ℕ
  pub valve_list : List (ℕ × ValveElem)

-- `AddForwareder`
unfoldable pub add_forwarder :
    List (ℕ × ForwarderElement) → (id : ℕ) → List (ℕ × ForwarderElement) × Bool
add_forwarder forwarders id = elim (lookup forwarders id) [
  | some old ↦ (forwarders, false)
  | none ↦
      (put forwarders id (record { is_offline = true; a1_response = []; valve_list = [] }), true)
]

-- A valve of an answer: it is entered when it is new, it is active, and its address has the first two bytes of the
-- forwarder's and its own.
abbrev pub or_blank : Option ValveElem → ValveElem
or_blank none = blank
or_blank (some valve) = valve

abbrev pub activate : (f₀ f₁ v₀ v₁ : ℕ) → ValveElem → ValveElem
activate f₀ f₁ v₀ v₁ valve = record valve {
  is_active = true;
  valve_data = f₀ ∷ f₁ ∷ v₀ ∷ v₁ ∷ drop 4 valve.valve_data;
}

unfoldable pub touch_valve : (buf : List ℕ) (pos : ℕ) → List (ℕ × ValveElem) → List (ℕ × ValveElem)
touch_valve buf pos valves =
    let v₀ = get_or buf pos 0 in
    let v₁ = get_or buf (pos + 1) 0 in
    let id = v₀ + 256 * v₁ in
    put valves id (activate (get_or buf 1 0) (get_or buf 2 0) v₀ v₁ (or_blank (lookup valves id)))

-- The loops of `ParseA1Ack`: the inner one does not look at the length of the answer. `none` is a read behind the
-- buffer.
unfoldable pub parse_children :
    (buf : List ℕ) (left pos : ℕ) → List (ℕ × ValveElem) → Option (ℕ × List (ℕ × ValveElem))
parse_children buf zero pos valves = some (pos, valves)
parse_children buf (suc left) pos valves =
    let rest = parse_children buf left (pos + 2) (touch_valve buf pos valves) in
    if ltb (length buf) (pos + 2) then none else rest

unfoldable pub parse_composites :
    (buf : List ℕ) (len left pos : ℕ) → List (ℕ × ValveElem) → Option (ℕ × List (ℕ × ValveElem))
parse_composites buf len zero pos valves = some (pos, valves)
parse_composites buf len (suc left) pos valves =
    let rest = (do
      (pos', valves') ←
          parse_children buf (get_or buf (pos + 2) 0) (pos + 3) (touch_valve buf pos valves)
      parse_composites buf len left pos' valves') in
    if not (ltb pos len)
    then some (pos, valves)
    else if ltb (length buf) (pos + 3)
    then none
    else rest

abbrev pub begin_flag : List ℕ
begin_flag = 170 ∷ 128 ∷ []

abbrev pub end_flag : List ℕ
end_flag = 238 ∷ 221 ∷ []

-- A command or an answer between the flags, with its parity behind. `none`: the parity of more than 255 bytes is
-- counted by 8 bits, and does not end.
unfoldable pub with_flags : List ℕ → Option (List ℕ)
with_flags content = (do
  let framed = begin_flag ++ (content ++ end_flag)
  parity ← generate_xor_parity framed
  some (framed ++ parity ∷ []))

-- `ParseA1Ack`, on the buffer from the answer on. `none` is also a response that does not fit its 1024 bytes.
unfoldable pub parse_a1_ack :
    ForwarderElement → (buf : List ℕ) (len : ℕ) → Option (ForwarderElement × Bool)
parse_a1_ack element buf len =
    if len == 0 then some (element, false) else if ltb (length buf) 6 then none else (do
      (pos, valves) ← parse_composites buf len (get_or buf 5 0) 6 element.valve_list
      let element' = record element { valve_list = valves }
      if not (pos == len)
          then some (element', false)
          else if not (ltb len 1024)
          then some (element', true)
          else if ltb 1024 (len + 5)
          then none
          else (do
            response ← with_flags (take len buf)
            some (record element' { a1_response = response }, true)))

-- `ParseData` for the answers to A1 and A2; `none` is as above, and `other` an answer to A3.
pub data Parsed : Type 0 where
  parsed : ForwarderElement → Bool → Parsed
  other : Parsed

unfoldable pub parse_answer :
    ForwarderElement → (buf : List ℕ) (len : ℕ) (sent : List ℕ) → Option Parsed
parse_answer element buf len sent =
    if len == 0
    then some (parsed element false)
    else if not (get_or buf 0 0 == get_or sent 0 0)
    then some (parsed element false)
    else if get_or buf 0 0 == 161
    then (do (element', ok) ← parse_a1_ack element buf len; some (parsed element' ok))
    else if get_or buf 0 0 == 162
    then some (parsed element (len == 5))
    else if get_or buf 0 0 == 163
    then some other
    else some (parsed element false)

-- `SendCommand`: whether the port takes the command, and what it brings then. The answer is read into 1024 bytes that
-- are zero, and parsed without its flags.
pub record Attempt : Type 0 where
  pub taken : Bool
  pub chunks : List Chunk

unfoldable pub exchange_command :
    ForwarderElement → (command : List ℕ) → Attempt → Option (List ℕ × Parsed)
exchange_command element command attempt = (do
  sent ← with_flags command
  if not attempt.taken then some ([], parsed element false) else (do
    answer ← (elim (read_buf begin_flag end_flag 1024 attempt.chunks) as (λ _. Option Parsed) [
      | comm_ok frame ↦
          parse_answer element (drop 2 (frame ++ replicate (1024 - length frame) 0))
            (u32 (length frame + 2 ^ 32 - 4)) command
      | outside ↦ none
      | _ ↦ some (parsed element false)
    ])
    some (sent, answer)))

-- `SendA1` for one forwarder: it is online when its answer is taken.
unfoldable pub send_a1 : (id : ℕ) → ForwarderElement → Attempt → Option ForwarderElement
send_a1 id element attempt = elim (exchange_command element (161 ∷ le32 id) attempt) [
  | some (sent, parsed element' ok) ↦ some (record element' { is_offline = not ok })
  | some (sent, other) ↦ none
  | none ↦ none
]
