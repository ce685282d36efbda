-- ===== src/Heat/Fields.antt =====
-- src/CHeatMonitor.cpp: the sizes of a meter's fields, whatever the port does.
use concentrator.Common.{
  ℕ, zero, suc, ◌-◌, ◌≤◌, ◌≡◌, refl, sym, ap, ◌∙◌, Bool, true, false, Option, none, some, List, [],
  ◌∷◌, ◌++◌, if◌then◌else◌, length, length-append, length-replicate, length-drop, length-take,
  get_or, drop, get_elem?, replicate, All, arith, Bool-cases, Option-cases, inl, inr,
}
use concentrator.Heat.Port.{send_command, wait_cmd_ack}
use concentrator.Heat.Packet.{IsNode}
use concentrator.Heat.{
  HeatNode, indexes, pktlens, parse_data, bytes_at, question, Exchange, Polled, ask_node, ask_nodes,
  HeatMonitor, get_heat_data,
}

-- The places in a row of the table.
abbrev Places : List ℕ → Type 0
Places row =
    (get_or row 0 0 ≤ 75)
    × (get_or row 2 0 ≤ 75)
    × (get_or row 4 0 ≤ 75)
    × (get_or row 6 0 ≤ 75)
    × (get_or row 8 0 ≤ 75)
    × (get_or row 10 0 ≤ 75)

indexes-Places : (t : ℕ) (row : List ℕ) → get_elem? indexes t ≡ some row → Places row
indexes-Places zero row e = ground arith
indexes-Places (suc zero) row e = ground arith
indexes-Places (suc (suc zero)) row e = ground arith
indexes-Places (suc (suc (suc t))) row e = cc

length-bytes_at :
    (buf row : List ℕ) (column n : ℕ)
    → get_or row column 0 ≤ 75
    → n ≤ 4
    → 256 ≤ length buf
    → length (bytes_at buf row column n) ≡ n
length-bytes_at buf row column n place small long =
    omega
      (arith, length-take n (drop (get_or row column 0) buf), length-drop (get_or row column 0) buf)

parse_data-IsNode :
    (row buf : List ℕ) (node : HeatNode)
    → Places row
    → 256 ≤ length buf
    → IsNode node
    → IsNode (record (parse_data row buf node) { is_offline = false })
unfolding parse_data
parse_data-IsNode row buf node (p₀, p₂, p₄, p₆, p₈, p₁₀) long is = record {
  mac_size = is.mac_size;
  supply_size = length-bytes_at buf row 0 4 p₀ (omega arith) long;
  return_size = length-bytes_at buf row 2 4 p₂ (omega arith) long;
  flow_size = omega (
    arith,
    length-append {0} (bytes_at buf row 4 3) (drop 3 node.current_flow_velocity),
    length-bytes_at buf row 4 3 p₄ (omega arith) long,
    length-drop 3 node.current_flow_velocity,
    is.flow_size,
  );
  heat_size = length-bytes_at buf row 6 4 p₆ (omega arith) long;
  total_flow_size = length-bytes_at buf row 8 4 p₈ (omega arith) long;
  total_heat_size = length-bytes_at buf row 10 4 p₁₀ (omega arith) long;
}

either_IsNode :
    (complete : Bool) (node' told' node : HeatNode) (waiting' left : List ℕ)
    → IsNode told'
    → IsNode node
    → ◌≡◌ {A = Option (HeatNode × List ℕ)}
        (some ((if complete then told' else node), left))
        (some (node', waiting'))
    → IsNode node'
either_IsNode true node' told' node waiting' left new old e =
    let same : told' ≡ node' = cc in rw same at new
either_IsNode false node' told' node waiting' left new old e =
    let same : node ≡ node' = cc in rw same at old

-- A meter that has been asked.
ask_node-IsNode :
    (node node' : HeatNode) (e : Exchange) (waiting waiting' : List ℕ)
    → ask_node node e waiting ≡ some (node', waiting')
    → IsNode node
    → IsNode node'
unfolding ask_node
ask_node-IsNode node node' e waiting waiting' asked is =
    elim (Option-cases (get_elem? indexes node.node_type)) [
      | inl off ↦ cc (rw off at asked)
      | inr (row, at) ↦ elim (Option-cases (get_elem? pktlens node.node_type)) [
        | inl off ↦ cc (rw (at, off) at asked)
        | inr (len, size) ↦
            let got = wait_cmd_ack e.reading len (waiting ++ e.arriving) in
            let buf = got.ack ++ replicate (256 - length got.ack) 0 in
            let long : 256 ≤ length buf = omega (
              arith,
              length-append {0} got.ack (replicate (256 - length got.ack) 0),
              length-replicate {A = ℕ} (256 - length got.ack) 0,
            ) in
            let kept =
              parse_data-IsNode row buf node (indexes-Places node.node_type row at) long is in
            either_IsNode got.complete node' _ node waiting' got.waiting kept is
              (rw (at, size) at asked)
      ]
    ]

-- The meters behind a round that ends or not; `none` is a type outside the tables.
abbrev Kept : Option Polled → Type 0
Kept none = Unit {0}
Kept (some polled) = All IsNode polled.nodes

ask_nodes-Kept :
    (nodes : List HeatNode) (es : List Exchange) (waiting : List ℕ)
    → All IsNode nodes
    → Kept (ask_nodes nodes es waiting)
unfolding ask_nodes
ask_nodes-Kept [] es waiting is = tt
ask_nodes-Kept (node ∷ nodes) [] waiting is = is
ask_nodes-Kept (node ∷ nodes) (e ∷ es) waiting is =
    elim (Bool-cases (send_command e.writing (question node)).complete) [
      | inr unsent ↦ rw unsent is
      | inl sent ↦ elim (Option-cases (ask_node node e waiting)) [
        | inl off ↦ rw (sent, off) tt
        | inr ((node', waiting'), asked) ↦ elim (Option-cases (ask_nodes nodes es waiting')) [
          | inl off ↦ rw (sent, asked, off) tt
          | inr (polled, rest) ↦
              let later : All IsNode polled.nodes =
                rw rest at (ask_nodes-Kept nodes es waiting' is.1) in
              rw (sent, asked, rest)
                (ask_node-IsNode node node' e waiting waiting' asked is.0, later)
        ]
      ]
    ]

ended_nodes :
    (ended : Bool) (a b m' : HeatMonitor) (p polled : Polled) (nodes : List HeatNode)
    → a.heat_nodes ≡ nodes
    → b.heat_nodes ≡ nodes
    → ◌≡◌ {A = Option (HeatMonitor × Polled)}
        (if ended then some (a, p) else some (b, p))
        (some (m', polled))
    → nodes ≡ m'.heat_nodes
ended_nodes true a b m' p polled nodes ea eb e =
    let same : a ≡ m' = cc in sym ea ∙ ap (λ (x : HeatMonitor). x.heat_nodes) same
ended_nodes false a b m' p polled nodes ea eb e =
    let same : b ≡ m' = cc in sym eb ∙ ap (λ (x : HeatMonitor). x.heat_nodes) same

-- Whatever the port does at the questions and the answers, and also when the round breaks off, the fields of the
-- meters keep their sizes.
pub get_heat_data-IsNode :
    (m m' : HeatMonitor) (es : List Exchange) (waiting : List ℕ) (clock : Option ℕ)
    (polled : Polled)
    → All IsNode m.heat_nodes
    → get_heat_data m es waiting clock ≡ some (m', polled)
    → All IsNode m'.heat_nodes
unfolding get_heat_data
get_heat_data-IsNode m m' es waiting clock polled is e =
    elim (Option-cases (ask_nodes m.heat_nodes es waiting)) [
      | inl off ↦ cc (rw off at e)
      | inr (p, asked) ↦
          let kept : All IsNode p.nodes = rw asked at (ask_nodes-Kept m.heat_nodes es waiting is) in
          rw (ended_nodes p.ended _ _ m' p polled p.nodes refl refl (rw asked at e)) at kept
    ]
