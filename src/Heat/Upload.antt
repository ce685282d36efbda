-- ===== src/Heat/Upload.antt =====
-- src/CHeatMonitor.cpp: `SendHeatData`, the packet for the server with what the meters tell.
use concentrator.Common.{
  ℕ, ◌+◌, ◌/◌, ◌%◌, Option, none, some, List, [], ◌∷◌, ◌++◌, if◌then◌else◌, ltb, u8, u16, length,
  get_or, take, drop, replicate,
}
use concentrator.Heat.{HeatNode}

-- What is written for one meter, piece by piece.
unfoldable pub node_chunks : HeatNode → List (List ℕ)
node_chunks node =
    (241 ∷ [])
    ∷ (35 ∷ [])
    ∷ drop 2 node.mac_address
    ∷ (get_or node.mac_address 1 0 ∷ [])
    ∷ node.supply_water_temperature
    ∷ (node.supply_water_temperature_dif ∷ [])
    ∷ node.return_water_temperature
    ∷ (node.return_water_temperature_dif ∷ [])
    ∷ node.current_flow_velocity
    ∷ (node.current_flow_velocity_dif ∷ [])
    ∷ node.current_heat_velocity
    ∷ (node.current_heat_velocity_dif ∷ [])
    ∷ node.total_flow
    ∷ (node.total_flow_dif ∷ [])
    ∷ node.total_heat
    ∷ (node.total_heat_dif ∷ [])
    ∷ []

-- Pieces written one after the other into `data`; `ptr` has 8 bits.
unfoldable pub put_chunks : (data' : List ℕ) (ptr : ℕ) → List (List ℕ) → List ℕ × ℕ
put_chunks data' ptr [] = (data', ptr)
put_chunks data' ptr (chunk ∷ chunks) =
    put_chunks (take ptr data' ++ (chunk ++ drop (ptr + length chunk) data'))
      (u8 (ptr + length chunk)) chunks

-- The loop over the meters, which leaves out those that are offline.
unfoldable pub put_nodes : List HeatNode → (data' : List ℕ) (ptr count : ℕ) → List ℕ × ℕ × ℕ
put_nodes [] data' ptr count = (data', ptr, count)
put_nodes (node ∷ nodes) data' ptr count =
    let skipped = put_nodes nodes data' ptr count in
    let (data'', ptr') = put_chunks data' ptr (node_chunks node) in
    let taken = put_nodes nodes data'' ptr' (u16 (count + 1)) in
    if node.is_offline then skipped else taken

-- `SendHeatData`: what is given to `InsertGeneralHeatData`.
unfoldable pub counted_packet : (data' : List ℕ) (ptr count : ℕ) → Option (List ℕ)
counted_packet data' ptr count =
    if ltb 2 ptr then some (take ptr ((count % 256) ∷ (count / 256 % 256) ∷ drop 2 data')) else none

unfoldable pub send_heat_data : List HeatNode → Option (List ℕ)
send_heat_data nodes =
    let (data', ptr, count) = put_nodes nodes (replicate 1024 0) 2 0 in
    if ltb 0 (length nodes) then counted_packet data' ptr count else none

-- The meters that are not left out.
unfoldable pub online : List HeatNode → List HeatNode
online [] = []
online (node ∷ nodes) = if node.is_offline then online nodes else node ∷ online nodes
