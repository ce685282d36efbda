-- ===== src/Heat/Tests.antt =====
-- Runs of the heat monitor.
use concentrator.Common.{
  ℕ, ◌/◌, ◌%◌, ◌^◌, ◌≡◌, refl, ap, true, false, some, List, [], ◌∷◌, map, length, replicate, arith,
}
use concentrator.Heat.Port.{ready, quiet}
use concentrator.Heat.Round.{
  Round, over, then_next, answers, silent, short_frame, asked_of, get_heat_data-Round,
}
use concentrator.Heat.Told.{told_by_short}
use concentrator.Common.{inl}
use concentrator.Heat.Packet.{IsNode, nodes_bytes, send_heat_data-online}
use concentrator.Heat.Upload.{
  send_heat_data, put_nodes, put_chunks, node_chunks, counted_packet, online,
}
use concentrator.Heat.Fields.{get_heat_data-IsNode}
use concentrator.Heat.Info.{
  number, temperature_reading, flow_velocity_reading, heat_velocity_reading, total_reading,
}
use concentrator.Heat.Readings.{flow_bytes, digit_bytes, readings-digit_bytes}
use concentrator.Timers.{start_timer}
use concentrator.Heat.{HeatNode, HeatMonitor, Exchange, get_heat_data, add_general_heat}

abbrev meter : (address : ℕ) → HeatNode
meter address = record {
  is_offline = true;
  node_type = 0;
  mac_address = address ∷ replicate 5 0;
  supply_water_temperature = replicate 4 0;
  supply_water_temperature_dif = 0;
  return_water_temperature = replicate 4 0;
  return_water_temperature_dif = 0;
  current_flow_velocity = replicate 4 0;
  current_flow_velocity_dif = 0;
  current_heat_velocity = replicate 4 0;
  current_heat_velocity_dif = 0;
  total_flow = replicate 4 0;
  total_flow_dif = 0;
  total_heat = replicate 4 0;
  total_heat_dif = 0;
  total_work_hours = replicate 4 0;
  current_time = 0;
}

meter-IsNode : (address : ℕ) → IsNode (meter address)
meter-IsNode address = record {
  mac_size = refl;
  supply_size = refl;
  return_size = refl;
  flow_size = refl;
  heat_size = refl;
  total_flow_size = refl;
  total_heat_size = refl;
}

-- A meter that has been added stands at the end, offline and with fields of zeros.
added : add_general_heat (meter 7 ∷ []) 0 (some (8 ∷ [])) 1 ≡ meter 7 ∷ meter 8 ∷ []
unfolding add_general_heat
added = refl

too_long : add_general_heat (meter 7 ∷ []) 0 (some (replicate 7 1)) 7 ≡ meter 7 ∷ []
unfolding add_general_heat
too_long = refl

abbrev frame : List ℕ
frame = replicate 154 18

abbrev monitor : HeatMonitor
monitor = record {
  heat_nodes = meter 7 ∷ meter 8 ∷ [];
  task_active = true;
  info_ready = false;
  time_out = record { last_time = 0; interval = 0 };
}

-- The first meter answers in two pieces, the second not in time.
abbrev exchanges : List Exchange
exchanges =
    (record {
      writing = map ready (2 ∷ 5 ∷ []);
      arriving = frame;
      reading = map ready (100 ∷ 100 ∷ []);
    })
    ∷ (record { writing = map ready (5 ∷ []); arriving = []; reading = quiet ∷ ready 9 ∷ [] })
    ∷ []

abbrev after_round : List HeatNode
after_round = told_by_short (meter 7) frame ∷ meter 8 ∷ []

round : Round (meter 7 ∷ meter 8 ∷ []) exchanges after_round
round =
    then_next
      (answers (2 ∷ 5 ∷ []) (100 ∷ 100 ∷ []) frame (short_frame (inl refl) refl) (omega arith)
        (omega arith))
      (then_next (silent (5 ∷ []) (ready 9 ∷ []) (omega arith) (omega arith)) (over []))

get_heat_data-Round_example :
    get_heat_data monitor exchanges [] (some 50)
    ≡ some (
      record monitor {
        heat_nodes = after_round;
        info_ready = true;
        time_out = (start_timer monitor.time_out 300 (some 50)).0;
      },
      record {
        nodes = after_round;
        waiting = [];
        asked = map asked_of monitor.heat_nodes;
        ended = true;
      },
    )
get_heat_data-Round_example = get_heat_data-Round monitor after_round exchanges (some 50) round

one_online : online after_round ≡ told_by_short (meter 7) frame ∷ []
unfolding online told_by_short
one_online = refl

send_heat_data-online_example :
    send_heat_data after_round
    ≡ some (length (online after_round) ∷ 0 ∷ nodes_bytes (online after_round))
send_heat_data-online_example =
    send_heat_data-online after_round
      (get_heat_data-IsNode monitor _ exchanges [] (some 50) _
        (meter-IsNode 7, (meter-IsNode 8, tt))
        (get_heat_data-Round monitor after_round exchanges (some 50) round))
      (omega (arith, ap (λ (l : List HeatNode). length l) one_online))
      (omega (arith, ap (λ (l : List HeatNode). length l) one_online))

abbrev full : HeatNode
full = record (meter 7) { is_offline = false; total_heat = 1 ∷ 2 ∷ 3 ∷ 4 ∷ []; total_heat_dif = 5 }

-- With a seventh meter online the index of 8 bits starts again, and five bytes are left of the packet.
seven_online : send_heat_data (replicate 7 full) ≡ some (7 ∷ 0 ∷ 3 ∷ 4 ∷ 5 ∷ [])
unfolding send_heat_data put_nodes put_chunks node_chunks counted_packet
seven_online = refl

-- The zeros behind the point are not shown: 1.005 is told as 1 and 5.
readings-digit_bytes_example :
    (temperature_reading (digit_bytes 1005) ≡ number (1005 / 10 ^ 5) (1005 / 10 ^ 4 % 10))
    × (flow_velocity_reading (flow_bytes 1005) ≡ number (1005 / 10 ^ 5) (1005 / 100 % 1000))
    × (heat_velocity_reading (digit_bytes 1005) ≡ number (1005 / 1000) (1005 % 1000))
    × (total_reading (digit_bytes 1005) ≡ number (1005 / 100) (1005 % 100))
readings-digit_bytes_example = readings-digit_bytes 1005 1005 (omega arith) (omega arith)
