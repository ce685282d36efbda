-- ===== src/Portal/Exchange.antt =====
-- src/CPortal.cpp: `GPRS_Send`, which sends a packet and waits for its acknowledgement, and
-- `GPRS_Receive`, which executes the server's commands. Packets are the bytes that the modem gives; the
-- buffer behind them is zero.
use concentrator.Common.{
  ℕ, zero, suc, ◌+◌, ◌-◌, ◌*◌, Bool, true, false, not, ◌&&◌, Option, none, some, List, [], ◌∷◌,
  if◌then◌else◌, ◌==◌, ltb, u16, length, get_or,
}
use concentrator.Common.Maybe.{◌>>=◌}

-- The fields of a packet, by `PACKET_IMEI_POS`, `PACKET_FUNCTION_CODE_POS`, `PACKET_SERIAL_POS` and
-- `PACKET_DOWN_UTC_POS`, low byte first.
abbrev pub packet_id : List ℕ → ℕ
packet_id p = get_or p 4 0 + 256 * get_or p 5 0 + 65536 * get_or p 6 0 + 16777216 * get_or p 7 0

abbrev pub packet_fun_code : List ℕ → ℕ
packet_fun_code p = get_or p 8 0 + 256 * get_or p 9 0

abbrev pub packet_serial : List ℕ → ℕ
packet_serial p = get_or p 10 0 + 256 * get_or p 11 0

abbrev pub packet_utc : List ℕ → ℕ
packet_utc p =
    get_or p 12 0 + 256 * get_or p 13 0 + 65536 * get_or p 14 0 + 16777216 * get_or p 15 0

-- The members of `CPortal` that an exchange changes; `received` is the map from function codes.
pub record Portal : Type 0 where
  pub is_registered : Bool
  pub serial_index : ℕ
  pub time_ready : Bool
  pub received : List (ℕ × List ℕ)

-- `find` and `insert` of the map; an entry that is there stays.
unfoldable pub find_packet : List (ℕ × List ℕ) → (code : ℕ) → Option (List ℕ)
find_packet [] code = none
find_packet (entry ∷ entries) code =
    if entry.0 == code then some entry.1 else find_packet entries code

unfoldable pub insert_received :
    List (ℕ × List ℕ) → (code : ℕ) (packet : List ℕ) → List (ℕ × List ℕ)
insert_received entries code packet = elim (find_packet entries code) [
  | none ↦ (code, packet) ∷ entries
  | some old ↦ entries
]

-- What the environment does at one call of `ReceiveData`: the packet, or its failure; and the clock, should
-- the packet be passed to `ParseData`: the time, and whether `SetDateTime` succeeds.
pub record Answer : Type 0 where
  pub packet : Option (List ℕ)
  pub clock : ℕ
  pub set_works : Bool

unfoldable pub parse_data : Portal → (packet : List ℕ) (clock : ℕ) (set_works : Bool) → Portal
parse_data portal packet clock set_works =
    let utc = packet_utc packet in
    let difference = if ltb utc clock then clock - utc else utc - clock in
    if ltb 1800 difference && set_works then record portal { time_ready = true } else portal

-- How an answer is taken: not at all, stored for later, or as the acknowledgement.
pub data Taken : Type 0 where
  ignored : Taken
  stored : Taken
  acknowledged : Taken

unfoldable pub take_packet_as : (sent packet : List ℕ) → Taken
take_packet_as sent packet =
    if length packet == 0
    then ignored
    else if not (packet_id sent == packet_id packet)
    then ignored
    else if not (packet_fun_code sent + 1 == packet_fun_code packet)
    then stored
    else if not (packet_serial sent == packet_serial packet)
    then ignored
    else acknowledged

unfoldable pub take_answer_as : (sent : List ℕ) → Answer → Taken
take_answer_as sent a = elim a.packet [ none ↦ ignored | some packet ↦ take_packet_as sent packet ]

abbrev pub packet_of : Answer → List ℕ
packet_of a = elim a.packet [ none ↦ [] | some packet ↦ packet ]

unfoldable pub store_answer : Portal → Answer → Portal
store_answer portal a = record portal {
  received = insert_received portal.received (packet_fun_code (packet_of a)) (packet_of a);
}

-- The inner loop, with `left` rounds: a stored packet sets the counter back to 0, and the round's end makes it
-- 1. `none` is the end of the given answers.
unfoldable pub await_ack :
    (sent : List ℕ) (left : ℕ) → List Answer → Portal → Option (Bool × List Answer × Portal)
await_ack sent zero answers portal = some (false, answers, portal)
await_ack sent (suc left) [] portal = none
await_ack sent (suc left) (a ∷ answers) portal =
    let next = await_ack sent left answers portal in
    let again = await_ack sent 2 answers (store_answer portal a) in
    elim (take_answer_as sent a) [
      | ignored ↦ next
      | stored ↦ again
      | acknowledged ↦ some (true, answers, parse_data portal (packet_of a) a.clock a.set_works)
    ]

-- The outer loop; `sends` are the answers of `SendData`.
unfoldable pub try_send :
    (sent : List ℕ) (left : ℕ) (sends : List Bool)
    → List Answer
    → Portal
    → Option (Bool × List Answer × Portal)
try_send sent zero sends answers portal = some (false, answers, portal)
try_send sent (suc left) [] answers portal = none
try_send sent (suc left) (works ∷ sends) answers portal =
    if not works then try_send sent left sends answers portal else (do
      (ret, answers', portal') ← await_ack sent 3 answers portal
      if ret then some (true, answers', portal') else try_send sent left sends answers' portal')

unfoldable pub next_serial : Portal → Portal
next_serial portal =
    let next = u16 (portal.serial_index + 1) in
    record portal { serial_index = if ltb 19999 next then 0 else next }

-- The result, with true for a modem that is there.
unfoldable pub gprs_send :
    (has_modem : Bool) (sent : List ℕ) (sends : List Bool)
    → List Answer
    → Portal
    → Option (Bool × Portal)
gprs_send has_modem sent sends answers portal =
    if not portal.is_registered && not (packet_fun_code sent == 1)
    then some (false, portal)
    else if length sent == 0
    then some (false, portal)
    else if not has_modem
    then some (false, next_serial portal)
    else (do
      (ret, answers', portal') ← try_send sent 3 sends answers portal
      some (ret, next_serial portal'))
