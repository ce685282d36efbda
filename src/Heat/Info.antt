-- ===== src/Heat/Info.antt =====
-- src/CHeatMonitor.cpp: `GetHeatNodeInfoList`, the readings of the meters as they are shown.
use concentrator.Common.{
  ℕ, ◌+◌, ◌*◌, ◌/◌, ◌%◌, Bool, true, not, ◌&&◌, Option, none, some, List, map, if◌then◌else◌, ◌==◌,
  get_or,
}
use concentrator.Heat.{HeatNode, HeatMonitor}

-- A text: "Err", or the two numbers that "%d.%d" prints.
pub data Reading : Type 0 where
  err : Reading
  number : (whole fraction : ℕ) → Reading

-- Two digits in a byte.
abbrev pub bcd : ℕ → ℕ
bcd b = 10 * (b / 16 % 16) + b % 16

-- `memcmp` with `ERROR_FLAG`.
abbrev pub is_error : List ℕ → Bool
is_error bytes = (get_or bytes 0 0 == 189) && (get_or bytes 1 0 == 235)

unfoldable pub temperature_reading : List ℕ → Reading
temperature_reading bytes =
    let t = 100 * bcd (get_or bytes 3 0) + bcd (get_or bytes 2 0) in
    if is_error bytes then err else number (t / 10) (t % 10)

unfoldable pub flow_velocity_reading : List ℕ → Reading
flow_velocity_reading bytes =
    let v =
      100 * (100 * bcd (get_or bytes 3 0) + bcd (get_or bytes 2 0)) + bcd (get_or bytes 1 0) in
    if is_error bytes then err else number (v / 1000) (v % 1000)

-- All four bytes.
unfoldable pub digits : List ℕ → ℕ
digits bytes =
    100 * (100 * (100 * bcd (get_or bytes 3 0) + bcd (get_or bytes 2 0)) + bcd (get_or bytes 1 0))
    + bcd (get_or bytes 0 0)

unfoldable pub heat_velocity_reading : List ℕ → Reading
heat_velocity_reading bytes =
    let v = digits bytes in if is_error bytes then err else number (v / 1000) (v % 1000)

unfoldable pub total_reading : List ℕ → Reading
total_reading bytes =
    let v = digits bytes in if is_error bytes then err else number (v / 100) (v % 100)

-- `HeatNodeInfoT`
pub record HeatNodeInfo : Type 0 where
  pub offline : Bool
  pub address : List ℕ
  pub supply_water : Reading
  pub return_water : Reading
  pub flow_velocity : Reading
  pub heat_velocity : Reading
  pub flow : Reading
  pub heat : Reading

unfoldable pub node_info : HeatNode → HeatNodeInfo
node_info node = record {
  offline = node.is_offline;
  address = node.mac_address;
  supply_water = temperature_reading node.supply_water_temperature;
  return_water = temperature_reading node.return_water_temperature;
  flow_velocity = flow_velocity_reading node.current_flow_velocity;
  heat_velocity = heat_velocity_reading node.current_heat_velocity;
  flow = total_reading node.total_flow;
  heat = total_reading node.total_heat;
}

unfoldable pub get_heat_node_info_list :
    HeatMonitor → (lock_free : Bool) → HeatMonitor × Option (List HeatNodeInfo)
get_heat_node_info_list m lock_free =
    if not lock_free
    then (m, none)
    else if m.info_ready
    then (m, some (map node_info m.heat_nodes))
    else (record m { task_active = true }, none)
