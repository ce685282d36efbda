-- ===== src/Heat/Round.antt =====
-- src/CHeatMonitor.cpp: a round of questions to the meters, some of which answer.
use concentrator.Common.{
  ℕ, zero, suc, ◌+◌, ◌%◌, ◌⊎◌, inl, inr, get_or, ◌-◌, ◌≤◌, ◌<◌, ◌≡◌, refl, sym, ap, ◌∙◌, true,
  false, Option, some, List, [], ◌∷◌, ◌++◌, map, append-nil, length, get_elem?, replicate, arith,
}
use concentrator.Timers.{start_timer}
use concentrator.Heat.Port.{ready, quiet, PortTurn, send_command, wait_cmd_ack, wait_loop}
use concentrator.Heat.Exchanges.{total, send_loop-ready, wait_loop-ready, wait_loop-unset}
use concentrator.Utils.Bytes.{get_check_sum, sum_loop}
use concentrator.Heat.Told.{
  told_by_short, told_by_long, parse_data-told_by_short, parse_data-told_by_long,
}
use concentrator.Heat.{
  HeatNode, indexes, pktlens, parse_data, question, Exchange, ask_node, ask_nodes, HeatMonitor,
  get_heat_data,
}

-- What a meter tells by its frame, by the type of the meter.
pub data Tells (node : HeatNode) (frame : List ℕ) : HeatNode → Type 0 where
  short_frame :
      (node.node_type ≡ 0) ⊎ (node.node_type ≡ 2)
      → length frame ≡ 154
      → Tells node frame (told_by_short node frame)
  long_frame : node.node_type ≡ 1 → length frame ≡ 253 → Tells node frame (told_by_long node frame)

-- A meter is asked, and either a whole frame comes and is read in three turns at most, or `select` times out at once.
pub data Talks (node : HeatNode) : Exchange → HeatNode → Type 0 where
  answers :
      (rooms rooms' frame : List ℕ) {after : HeatNode}
      → Tells node frame after
      → (length rooms ≤ 3) × (5 ≤ total rooms)
      → (length rooms' ≤ 3) × (length frame ≤ total rooms')
      → Talks node
          (record { writing = map ready rooms; arriving = frame; reading = map ready rooms' })
          after
  silent :
      (rooms : List ℕ) (later : List PortTurn)
      → node.node_type < 3
      → (length rooms ≤ 3) × (5 ≤ total rooms)
      → Talks node
          (record { writing = map ready rooms; arriving = []; reading = quiet ∷ later })
          node

-- The meters in their order, and after the round.
pub data Round : List HeatNode → List Exchange → List HeatNode → Type 0 where
  over : (es : List Exchange) → Round [] es []
  then_next :
      {node node' : HeatNode} {e : Exchange} {nodes nodes' : List HeatNode} {es : List Exchange}
      → Talks node e node'
      → Round nodes es nodes'
      → Round (node ∷ nodes) (e ∷ es) (node' ∷ nodes')

-- The bytes of the question to a meter: a mark, the code, the first byte of the address, the sum of these two, and an
-- end.
abbrev pub asked_of : HeatNode → List ℕ
asked_of node =
    let address = get_or node.mac_address 0 0 in
    16 ∷ 91 ∷ address ∷ ((91 + address) % 256) ∷ 22 ∷ []

question-asked : (node : HeatNode) → question node ≡ asked_of node
unfolding question get_check_sum sum_loop
question-asked node = refl

question-sent :
    (node : HeatNode) (rooms : List ℕ)
    → length rooms ≤ 3
    → 5 ≤ total rooms
    → send_command (map ready rooms) (question node)
      ≡ record { bytes = asked_of node; complete = true }
unfolding send_command
question-sent node rooms few enough =
    rw (question-asked node)
      (send_loop-ready rooms 3 (asked_of node) few (omega arith) (omega arith))

-- An answer is told of its meter.
ask_node-tells :
    (node : HeatNode) (frame rooms : List ℕ) {row : List ℕ} {len : ℕ} (writing : List PortTurn)
    → get_elem? indexes node.node_type ≡ some row
    → get_elem? pktlens node.node_type ≡ some len
    → length frame ≡ len
    → 0 < len
    → length rooms ≤ 3
    → length frame ≤ total rooms
    → ask_node node (record { writing = writing; arriving = frame; reading = map ready rooms }) []
      ≡ some (
        record (parse_data row (frame ++ replicate (256 - length frame) 0) node) {
          is_offline = false;
        },
        [],
      )
unfolding ask_node wait_cmd_ack
ask_node-tells node frame rooms {row} {len} writing at size whole some_bytes few enough =
    let got : wait_loop 3 true (map ready rooms) len [] frame
        ≡ record { ack = frame; waiting = []; complete = true } =
      ap (wait_loop 3 true (map ready rooms) len []) (sym (append-nil frame))
      ∙ wait_loop-ready rooms 3 len [] frame [] few (omega arith) (omega arith) (omega arith) in
    rw (at, size, got) refl

Tells-ask_node :
    {node : HeatNode} {frame : List ℕ} {after : HeatNode} (rooms : List ℕ) (writing : List PortTurn)
    → Tells node frame after
    → length rooms ≤ 3
    → length frame ≤ total rooms
    → ask_node node (record { writing = writing; arriving = frame; reading = map ready rooms }) []
      ≡ some (after, [])
Tells-ask_node {node} {frame = frame} rooms writing (short_frame (inl type') whole) few enough =
    ask_node-tells node frame rooms writing (ap (get_elem? indexes) type')
      (ap (get_elem? pktlens) type') whole (omega arith) few enough
    ∙ ap (λ (n : HeatNode). some (n, [])) (parse_data-told_by_short node frame _ whole)
Tells-ask_node {node} {frame = frame} rooms writing (short_frame (inr type') whole) few enough =
    ask_node-tells node frame rooms writing (ap (get_elem? indexes) type')
      (ap (get_elem? pktlens) type') whole (omega arith) few enough
    ∙ ap (λ (n : HeatNode). some (n, [])) (parse_data-told_by_short node frame _ whole)
Tells-ask_node {node} {frame = frame} rooms writing (long_frame type' whole) few enough =
    ask_node-tells node frame rooms writing (ap (get_elem? indexes) type')
      (ap (get_elem? pktlens) type') whole (omega arith) few enough
    ∙ ap (λ (n : HeatNode). some (n, [])) (parse_data-told_by_long node frame _ whole)

known_type :
    (n : ℕ)
    → n < 3
    → ((row : List ℕ) × (get_elem? indexes n ≡ some row))
      × ((len : ℕ) × (get_elem? pktlens n ≡ some len))
known_type zero small = ((_, refl), (_, refl))
known_type (suc zero) small = ((_, refl), (_, refl))
known_type (suc (suc zero)) small = ((_, refl), (_, refl))
known_type (suc (suc (suc n))) small = absurd (omega arith)

Talks-ask_node :
    {node node' : HeatNode} {e : Exchange}
    → Talks node e node'
    → (send_command e.writing (question node) ≡ record { bytes = asked_of node; complete = true })
      × (ask_node node e [] ≡ some (node', []))
unfolding ask_node wait_cmd_ack
Talks-ask_node {node} (answers rooms rooms' frame told w r) =
    (question-sent node rooms w.0 w.1, Tells-ask_node rooms' (map ready rooms) told r.0 r.1)
Talks-ask_node {node} (silent rooms later known w) =
    let ((row, at), (len, size)) = known_type node.node_type known in
    let got : wait_loop 2 false later len [] []
        ≡ record { ack = []; waiting = []; complete = false } =
      wait_loop-unset later 2 len [] [] in
    (question-sent node rooms w.0 w.1, rw (at, size) (unfold wait_loop in rw got refl))

ask_nodes-Round :
    {nodes nodes' : List HeatNode} {es : List Exchange}
    → Round nodes es nodes'
    → ask_nodes nodes es []
      ≡ some (record { nodes = nodes'; waiting = []; asked = map asked_of nodes; ended = true })
unfolding ask_nodes
ask_nodes-Round (over es) = refl
ask_nodes-Round (then_next t r) =
    let (sent, asked) = Talks-ask_node t in rw (sent, asked, ask_nodes-Round r) refl

-- A round in which the port takes each question in three turns, and each meter answers by a whole frame or not at
-- all: each meter is asked once, in order, by the bytes of a question with its address and their sum;
-- the readings of an answer, at the places of its type of meter, are those of its meter then, which is online, a meter without an answer stays as
-- it was, no byte is left in the port, the information is
-- ready, and the timer of its end is started with 300 seconds.
pub get_heat_data-Round :
    (m : HeatMonitor) (nodes' : List HeatNode) (es : List Exchange) (clock : Option ℕ)
    → Round m.heat_nodes es nodes'
    → get_heat_data m es [] clock
      ≡ some (
        record m {
          heat_nodes = nodes';
          info_ready = true;
          time_out = (start_timer m.time_out 300 clock).0;
        },
        record { nodes = nodes'; waiting = []; asked = map asked_of m.heat_nodes; ended = true },
      )
unfolding get_heat_data
get_heat_data-Round m nodes' es clock round = rw (ask_nodes-Round round) refl
