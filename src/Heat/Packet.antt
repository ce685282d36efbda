-- ===== src/Heat/Packet.antt =====
-- src/CHeatMonitor.cpp: the packet of `SendHeatData` for up to six meters, which is as long as an index of 8 bits
-- allows.
use concentrator.Common.{
  ℕ, suc, if-true, if-false, ◌+◌, ◌*◌, ◌/◌, ◌%◌, ◌^◌, ◌≤◌, ◌<◌, ◌≡◌, refl, true, false, some, List,
  [], ◌∷◌, ◌++◌, append-nil, append_assoc, ltb, u8, u16, length, length-append, length-drop, drop,
  get_or, ap, All, take-append, replicate, arith, Bool-cases, inl, inr,
}
use mathlib.Core.List.{flatten}
use concentrator.Common.Parts.{drop_of_length, drop-drop}
use concentrator.Heat.{HeatNode}
use concentrator.Heat.Upload.{
  node_chunks, put_chunks, put_nodes, counted_packet, send_heat_data, online,
}

-- The fields have the sizes of `HeatNodeDataT`.
pub record IsNode (node : HeatNode) : Type 0 where
  pub mac_size : length node.mac_address ≡ 6
  pub supply_size : length node.supply_water_temperature ≡ 4
  pub return_size : length node.return_water_temperature ≡ 4
  pub flow_size : length node.current_flow_velocity ≡ 4
  pub heat_size : length node.current_heat_velocity ≡ 4
  pub total_flow_size : length node.total_flow ≡ 4
  pub total_heat_size : length node.total_heat ≡ 4

-- The bytes of a meter: two marks, the address but for its first byte with the second byte last, and each reading in
-- four bytes with its byte for the difference; and those of several.
unfoldable pub node_bytes : HeatNode → List ℕ
node_bytes node =
    241
    ∷ 35
    ∷ (drop 2 node.mac_address
        ++ (get_or node.mac_address 1 0
            ∷ (node.supply_water_temperature
                ++ (node.supply_water_temperature_dif
                    ∷ (node.return_water_temperature
                        ++ (node.return_water_temperature_dif
                            ∷ (node.current_flow_velocity
                                ++ (node.current_flow_velocity_dif
                                    ∷ (node.current_heat_velocity
                                        ++ (node.current_heat_velocity_dif
                                            ∷ (node.total_flow
                                                ++ (node.total_flow_dif
                                                    ∷ (node.total_heat
                                                        ++ (node.total_heat_dif ∷ []))))))))))))))

flatten-node_chunks : (node : HeatNode) → flatten (node_chunks node) ≡ node_bytes node
unfolding node_chunks flatten node_bytes
flatten-node_chunks node = refl

abbrev pub nodes_bytes : List HeatNode → List ℕ
nodes_bytes [] = []
nodes_bytes (node ∷ nodes) = node_bytes node ++ nodes_bytes nodes

-- Pieces that fit in front of the 256th byte stand behind one another.
put_chunks-room :
    (pre rest : List ℕ) (chunks : List (List ℕ))
    → length pre + length (flatten chunks) < 256
    → put_chunks (pre ++ rest) (length pre) chunks ≡ (
      (pre ++ flatten chunks) ++ drop (length (flatten chunks)) rest,
      length (pre ++ flatten chunks),
    )
unfolding put_chunks flatten
put_chunks-room pre rest [] room = rw (append-nil pre) refl
put_chunks-room pre rest (chunk ∷ chunks) room =
    let n = length chunk in
    let size : length (pre ++ chunk) ≡ length pre + n = length-append pre chunk in
    let fits : u8 (length pre + n) ≡ length (pre ++ chunk) =
      omega (arith, size, length-append {0} chunk (flatten chunks)) in
    rw
      (
        take-append pre rest,
        drop_of_length pre n rest,
        fits,
        length-append chunk (flatten chunks),
        ← append_assoc pre chunk (drop n rest),
        ← append_assoc pre chunk (flatten chunks),
        ← drop-drop n (length (flatten chunks)) rest,
      )
      (put_chunks-room (pre ++ chunk) (drop n rest) chunks
        (omega (arith, size, length-append {0} chunk (flatten chunks))))

length-node_bytes : (node : HeatNode) → IsNode node → length (node_bytes node) ≡ 37
unfolding node_bytes
length-node_bytes node is = omega (arith, length-append {0}, length-drop {0} 2 node.mac_address, is)

length-nodes_bytes :
    (nodes : List HeatNode) → All IsNode nodes → length (nodes_bytes nodes) ≡ 37 * length nodes
length-nodes_bytes [] is = refl
length-nodes_bytes (node ∷ nodes) is = omega (
  arith,
  length-append {0} (node_bytes node) (nodes_bytes nodes),
  length-node_bytes node is.0,
  length-nodes_bytes nodes is.1,
)

online_step :
    (node : HeatNode) (nodes : List HeatNode)
    → node.is_offline ≡ false
    → online (node ∷ nodes) ≡ node ∷ online nodes
unfolding online
online_step node nodes on = if-false node.is_offline (online nodes) (node ∷ online nodes) on

offline_step :
    (node : HeatNode) (nodes : List HeatNode)
    → node.is_offline ≡ true
    → online (node ∷ nodes) ≡ online nodes
unfolding online
offline_step node nodes off = if-true node.is_offline (online nodes) (node ∷ online nodes) off

put_step :
    (node : HeatNode) (nodes : List HeatNode) (data' : List ℕ) (ptr count : ℕ)
    → node.is_offline ≡ false
    → put_nodes (node ∷ nodes) data' ptr count ≡ (
        let (data'', ptr') = put_chunks data' ptr (node_chunks node) in
        put_nodes nodes data'' ptr' (u16 (count + 1)))
unfolding put_nodes
put_step node nodes data' ptr count on = if-false node.is_offline _ _ on

skip_step :
    (node : HeatNode) (nodes : List HeatNode) (data' : List ℕ) (ptr count : ℕ)
    → node.is_offline ≡ true
    → put_nodes (node ∷ nodes) data' ptr count ≡ put_nodes nodes data' ptr count
unfolding put_nodes
skip_step node nodes data' ptr count off = if-true node.is_offline _ _ off

-- The meters that are online, behind one another.
put_nodes-room :
    (nodes : List HeatNode) (pre rest : List ℕ) (count : ℕ)
    → All IsNode nodes
    → length pre + 37 * length (online nodes) < 256
    → count + length (online nodes) < 2 ^ 16
    → put_nodes nodes (pre ++ rest) (length pre) count ≡ (
      (pre ++ nodes_bytes (online nodes)) ++ drop (length (nodes_bytes (online nodes))) rest,
      length (pre ++ nodes_bytes (online nodes)),
      count + length (online nodes),
    )
put_nodes-room [] pre rest count is room few =
    let e : count + 0 ≡ count = omega arith in
    unfold put_nodes online in rw (append-nil pre, e) refl
put_nodes-room (node ∷ nodes) pre rest count is room few = elim (Bool-cases node.is_offline) [
  | inl off ↦
      let same = offline_step node nodes off in
      rw (skip_step node nodes (pre ++ rest) (length pre) count off, same)
        (put_nodes-room nodes pre rest count is.1 (rw same at room) (rw same at few))
  | inr on ↦
      let more = online_step node nodes on in
      let own : length (node_bytes node) ≡ 37 = length-node_bytes node is.0 in
      let room' : length pre + 37 * suc (length (online nodes)) < 256 = rw more at room in
      let few' : count + suc (length (online nodes)) < 2 ^ 16 = rw more at few in
      let counted : u16 (count + 1) ≡ count + 1 = omega arith in
      let summed : count + suc (length (online nodes)) ≡ (count + 1) + length (online nodes) =
        omega arith in
      rw
        (
          put_step node nodes (pre ++ rest) (length pre) count on,
          more,
          put_chunks-room pre rest (node_chunks node)
              (omega (arith, own, ap length (flatten-node_chunks node))),
          flatten-node_chunks node,
          counted,
          summed,
          length-append (node_bytes node) (nodes_bytes (online nodes)),
          ← append_assoc pre (node_bytes node) (nodes_bytes (online nodes)),
          ← drop-drop (length (node_bytes node)) (length (nodes_bytes (online nodes))) rest,
        )
        (put_nodes-room nodes (pre ++ node_bytes node) (drop (length (node_bytes node)) rest)
          (count + 1) is.1 (omega (arith, own, length-append {0} pre (node_bytes node)))
          (omega arith))
]

counted_packet-bytes :
    (bytes rest : List ℕ) (k : ℕ)
    → 0 < length bytes
    → k ≤ 6
    → counted_packet ((0 ∷ 0 ∷ bytes) ++ rest) (length (0 ∷ 0 ∷ bytes)) (0 + k)
      ≡ some (k ∷ 0 ∷ bytes)
unfolding counted_packet
counted_packet-bytes bytes rest k some_bytes few =
    let long : ltb 2 (length (0 ∷ 0 ∷ bytes)) ≡ true = ground arith in
    let low : (0 + k) % 256 ≡ k = omega arith in
    let high : (0 + k) / 256 % 256 ≡ 0 = omega arith in
    rw (long, low, high, take-append bytes rest) refl

nodes_pos : (nodes : List HeatNode) → 0 < length (online nodes) → ltb 0 (length nodes) ≡ true
unfolding online
nodes_pos [] h = absurd (omega arith)
nodes_pos (node ∷ nodes) h = ground arith

online-All : (nodes : List HeatNode) → All IsNode nodes → All IsNode (online nodes)
online-All [] is = unfold online in tt
online-All (node ∷ nodes) is = elim (Bool-cases node.is_offline) [
  | inl off ↦ rw (offline_step node nodes off) (online-All nodes is.1)
  | inr on ↦ rw (online_step node nodes on) (is.0, online-All nodes is.1)
]

-- With one to six meters online, the server is given their number in two bytes, low byte first, and for
-- each, in their order, its bytes: marks, address and readings; those that are offline are left out.
pub send_heat_data-online :
    (nodes : List HeatNode)
    → All IsNode nodes
    → 0 < length (online nodes)
    → length (online nodes) ≤ 6
    → send_heat_data nodes ≡ some (length (online nodes) ∷ 0 ∷ nodes_bytes (online nodes))
unfolding send_heat_data
send_heat_data-online nodes is some_online few =
    let put =
      put_nodes-room nodes (0 ∷ 0 ∷ []) (replicate 1022 0) 0 is (omega arith) (omega arith) in
    rw (nodes_pos nodes some_online, put)
      (counted_packet-bytes (nodes_bytes (online nodes)) _ (length (online nodes))
        (omega (arith, length-nodes_bytes (online nodes) (online-All nodes is))) few)
