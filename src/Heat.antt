-- ===== src/Heat.antt =====
-- src/CHeatMonitor.cpp and src/CHeatMonitor.h: the heat meters, which are asked in turn over one port, and
-- what is told of them.
pub mod Port
pub mod Exchanges
pub mod Told
pub mod Round
pub mod Upload
pub mod Packet
pub mod Fields
pub mod Info
pub mod Readings
mod Tests
use concentrator.Common.{
  ℕ, ◌+◌, ◌-◌, ◌*◌, ◌/◌, ◌%◌, ◌^◌, Bool, true, false, not, ◌&&◌, Option, none, some, List, [], ◌∷◌,
  ◌++◌, if◌then◌else◌, ◌==◌, ltb, leb, u8, length, get_elem?, get_or, take, drop, replicate,
}
use concentrator.Common.Maybe.{◌>>=◌}
use concentrator.Timers.{Timer, start_timer, timer_done}
use concentrator.Utils.Bytes.{get_check_sum}
use concentrator.Heat.Port.{PortTurn, send_command, wait_cmd_ack}

-- `HeatNodeDataT`
pub record HeatNode : Type 0 where
  pub is_offline : Bool
  pub node_type : ℕ
  pub mac_address : List ℕ
  pub supply_water_temperature : List ℕ
  pub supply_water_temperature_dif : ℕ
  pub return_water_temperature : List ℕ
  pub return_water_temperature_dif : ℕ
  pub current_flow_velocity : List ℕ
  pub current_flow_velocity_dif : ℕ
  pub current_heat_velocity : List ℕ
  pub current_heat_velocity_dif : ℕ
  pub total_flow : List ℕ
  pub total_flow_dif : ℕ
  pub total_heat : List ℕ
  pub total_heat_dif : ℕ
  pub total_work_hours : List ℕ
  pub current_time : ℕ

-- `AddGeneralHeat`; no address is a null pointer.
unfoldable pub add_general_heat :
    List HeatNode → (type' : ℕ) (address : Option (List ℕ)) (len : ℕ) → List HeatNode
add_general_heat nodes type' none len = nodes
add_general_heat nodes type' (some address) len =
    if leb len 0
    then nodes
    else if ltb 6 len
    then nodes
    else nodes
      ++ (record {
        is_offline = true;
        node_type = type';
        mac_address = take len address ++ replicate (6 - len) 0;
        supply_water_temperature = replicate 4 0;
        supply_water_temperature_dif = 0;
        return_water_temperature = replicate 4 0;
        return_water_temperature_dif = 0;
        current_flow_velocity = replicate 4 0;
        current_flow_velocity_dif = 0;
        current_heat_velocity = replicate 4 0;
        current_heat_velocity_dif = 0;
        total_flow = replicate 4 0;
        total_flow_dif = 0;
        total_heat = replicate 4 0;
        total_heat_dif = 0;
        total_work_hours = replicate 4 0;
        current_time = 0;
      }
          ∷ [])

-- `indexes` and `pktlen`, by the type of the meter.
abbrev pub indexes : List (List ℕ)
indexes =
    (56 ∷ 0 ∷ 60 ∷ 0 ∷ 51 ∷ 0 ∷ 45 ∷ 0 ∷ 39 ∷ 0 ∷ 19 ∷ 0 ∷ [])
    ∷ (45 ∷ 43 ∷ 51 ∷ 49 ∷ 75 ∷ 73 ∷ 63 ∷ 61 ∷ 33 ∷ 31 ∷ 27 ∷ 25 ∷ [])
    ∷ (56 ∷ 0 ∷ 60 ∷ 0 ∷ 51 ∷ 0 ∷ 45 ∷ 0 ∷ 39 ∷ 0 ∷ 19 ∷ 0 ∷ [])
    ∷ []

abbrev pub pktlens : List ℕ
pktlens = 154 ∷ 253 ∷ 154 ∷ []

-- The bytes of a field, and the byte in front of it, which a table has or not.
abbrev pub bytes_at : (buf row : List ℕ) (column n : ℕ) → List ℕ
bytes_at buf row column n = take n (drop (get_or row column 0) buf)

abbrev pub dif_at : (buf row : List ℕ) (column : ℕ) → ℕ
dif_at buf row column = if get_or row column 0 == 0 then 0 else get_or buf (get_or row column 0) 0

-- `ParseData`: the flow has three bytes, and the last of its field stays.
unfoldable pub parse_data : (row buf : List ℕ) → HeatNode → HeatNode
parse_data row buf node = record node {
  supply_water_temperature = bytes_at buf row 0 4;
  supply_water_temperature_dif = dif_at buf row 1;
  return_water_temperature = bytes_at buf row 2 4;
  return_water_temperature_dif = dif_at buf row 3;
  current_flow_velocity = bytes_at buf row 4 3 ++ drop 3 node.current_flow_velocity;
  current_flow_velocity_dif = dif_at buf row 5;
  current_heat_velocity = bytes_at buf row 6 4;
  current_heat_velocity_dif = dif_at buf row 7;
  total_flow = bytes_at buf row 8 4;
  total_flow_dif = dif_at buf row 9;
  total_heat = bytes_at buf row 10 4;
  total_heat_dif = dif_at buf row 11;
  total_work_hours = replicate 4 0;
  current_time = 0;
}

-- The question to a meter.
unfoldable pub question : HeatNode → List ℕ
question node =
    let address = get_or node.mac_address 0 0 in
    16 ∷ 91 ∷ address ∷ get_check_sum (91 ∷ address ∷ []) ∷ 22 ∷ []

-- What the port does while a meter is asked: at the question, and at the answer; and what arrives between them.
pub record Exchange : Type 0 where
  pub writing : List PortTurn
  pub arriving : List ℕ
  pub reading : List PortTurn

-- The meters after the loop of `GetHeatData`, what still waits in the port, the bytes that it has taken, and
-- whether the loop has come to its end.
pub record Polled : Type 0 where
  pub nodes : List HeatNode
  pub waiting : List ℕ
  pub asked : List (List ℕ)
  pub ended : Bool

-- An answer is read into 256 bytes that are zero. `none` is a read outside the tables. Behind the last exchange
-- the port takes nothing.
unfoldable pub ask_node : HeatNode → Exchange → (waiting : List ℕ) → Option (HeatNode × List ℕ)
ask_node node e waiting = (do
  row ← get_elem? indexes node.node_type
  len ← get_elem? pktlens node.node_type
  let got = wait_cmd_ack e.reading len (waiting ++ e.arriving)
  let buf = got.ack ++ replicate (256 - length got.ack) 0
  some (
    (if got.complete then record (parse_data row buf node) { is_offline = false } else node),
    got.waiting,
  ))

unfoldable pub ask_nodes : List HeatNode → List Exchange → (waiting : List ℕ) → Option Polled
ask_nodes [] exchanges waiting =
    some (record { nodes = []; waiting = waiting; asked = []; ended = true })
ask_nodes (node ∷ nodes) [] waiting =
    some (record { nodes = node ∷ nodes; waiting = waiting; asked = []; ended = false })
ask_nodes (node ∷ nodes) (e ∷ exchanges) waiting =
    let sent = send_command e.writing (question node) in
    let rest = (do
      (node', waiting') ← ask_node node e waiting
      polled ← ask_nodes nodes exchanges waiting'
      some (record polled { nodes = node' ∷ polled.nodes; asked = sent.bytes ∷ polled.asked })) in
    if sent.complete
    then rest
    else some
        (record { nodes = node ∷ nodes; waiting = waiting; asked = sent.bytes ∷ []; ended = false })

-- The members of `CHeatMonitor` that change.
pub record HeatMonitor : Type 0 where
  pub heat_nodes : List HeatNode
  pub task_active : Bool
  pub info_ready : Bool
  pub time_out : Timer

-- `GetHeatData`: what the meters tell is ready when all have been asked.
unfoldable pub get_heat_data :
    HeatMonitor
    → List Exchange
    → (waiting : List ℕ) (clock : Option ℕ) → Option (HeatMonitor × Polled)
get_heat_data m exchanges waiting clock = (do
  polled ← ask_nodes m.heat_nodes exchanges waiting
  if polled.ended
      then some (
        record m {
          heat_nodes = polled.nodes;
          info_ready = true;
          time_out = (start_timer m.time_out 300 clock).0;
        },
        polled,
      )
      else some (record m { heat_nodes = polled.nodes }, polled))

-- `GetHeatInfoTask`, with the clock as it is read for the start of the timer and for its end.
unfoldable pub get_heat_info_task :
    HeatMonitor → List Exchange → (waiting : List ℕ) (clock clock' : Option ℕ) → Option HeatMonitor
get_heat_info_task m exchanges waiting clock clock' = (do
  m₁ ←
      (if m.task_active && not m.info_ready
        then (do (m', polled) ← get_heat_data m exchanges waiting clock; some m')
        else some m)
  let m₂ = (if m₁.task_active && m₁.info_ready then record m₁ { task_active = false } else m₁)
  let (timer, over) = timer_done m₂.time_out clock'
  some (record m₂ { time_out = timer; info_ready = not over && m₂.info_ready }))

-- `GetStatus`: the status if there is one. Without the lock nothing happens.
pub data Status : Type 0 where
  status_ok : Status
  status_offline : Status
  status_error : Status

unfoldable pub any_online : List HeatNode → Bool
any_online [] = false
any_online (node ∷ nodes) = if node.is_offline then any_online nodes else true

unfoldable pub get_status : HeatMonitor → (lock_free started : Bool) → HeatMonitor × Option Status
get_status m lock_free started =
    if not lock_free
    then (m, none)
    else if not started
    then (m, some status_error)
    else if m.info_ready
    then (m, some (if any_online m.heat_nodes then status_ok else status_offline))
    else (record m { task_active = true }, none)
