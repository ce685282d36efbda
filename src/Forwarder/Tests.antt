-- ===== src/Forwarder/Tests.antt =====
-- Runs of the forwarder monitor.
use concentrator.Common.{
  ℕ, ◌<◌, ◌≡◌, refl, true, false, some, List, [], ◌∷◌, ◌++◌, length, Bool-cases, inl, inr, ◌==◌,
  arith,
}
use concentrator.Common.Table.{lookup, put, insert_new}
use concentrator.Serial.{flag_at, arrived}
use concentrator.Serial.Whole.{flag_at-short, stream}
use concentrator.Valve.{waits}
use concentrator.Forwarder.Answer.{roster, Known, send_a1-Known}
use concentrator.Forwarder.InfoTask.{InfoTurn, info_run, state, info_run-waits}
use concentrator.Forwarder.{
  ForwarderElement, begin_flag, end_flag, send_a1, add_forwarder, parse_answer, parsed,
}

abbrev new_forwarder : ForwarderElement
new_forwarder = record { is_offline = true; a1_response = []; valve_list = [] }

added :
    add_forwarder ((3, new_forwarder) ∷ []) 2 ≡ ((2, new_forwarder) ∷ (3, new_forwarder) ∷ [], true)
unfolding add_forwarder lookup put insert_new
added = refl

added_again : add_forwarder ((3, new_forwarder) ∷ []) 3 ≡ ((3, new_forwarder) ∷ [], false)
unfolding add_forwarder lookup
added_again = refl

-- Forwarder 5 has valve 1 with the children 2 and 3.
abbrev valves : List (ℕ × List ℕ)
valves = (1, 2 ∷ 3 ∷ []) ∷ []

no_end_later :
    (k : ℕ)
    → length ([] ++ (begin_flag ++ roster 5 valves)) < k
    → flag_at (stream begin_flag end_flag [] (roster 5 valves) (7 ∷ []) 1024) end_flag k ≡ false
no_end_later k h = elim (Bool-cases (k == 16)) [
  | inl one ↦ let e : k ≡ 16 = ground (arith, one) in rw e refl
  | inr more ↦
      flag_at-short (stream begin_flag end_flag [] (roster 5 valves) (7 ∷ []) 1024) end_flag k
        (ground (arith, more, h)) (omega arith)
]

send_a1-Known_example :
    (after : ForwarderElement) × (send_a1 5 new_forwarder (record {
      taken = true;
      chunks = arrived (stream begin_flag end_flag [] (roster 5 valves) (7 ∷ []) 1024) ∷ [];
    })
      ≡ some after)
    × Known 5 valves new_forwarder after
send_a1-Known_example =
    send_a1-Known 5 valves new_forwarder [] (7 ∷ []) (omega arith) (omega arith) (omega arith)
      (omega arith) (λ k h. absurd (omega arith)) no_end_later

-- A forwarder that does not answer is offline.
silent_forwarder :
    parse_answer new_forwarder (161 ∷ []) 0 (161 ∷ []) ≡ some (parsed new_forwarder false)
unfolding parse_answer
silent_forwarder = refl

abbrev turn : (now asked finished checked : ℕ) → InfoTurn
turn now asked finished checked = record {
  now = now;
  asked = asked;
  finished = finished;
  checked = checked;
  measures = false;
  users_known = true;
}

-- The users are asked for in twelve seconds.
abbrev asking : InfoTurn
asking = turn 1000 1000 1012 1012

info_run-waits_example :
    info_run (state false false (record { last_time = 0; interval = 0 }) 0) (
      asking
      ∷ turn 1100 1100 1100 1100
      ∷ turn 1302 1302 1302 1302
      ∷ turn 1304 1304 1304 1304
      ∷ turn 1306 1306 1306 1306
      ∷ [])
    ≡ waits
info_run-waits_example =
    info_run-waits asking false (record { last_time = 0; interval = 0 }) 0
      (turn 1100 1100 1100 1100 ∷ []) [] (turn 1302 1302 1302 1302) (turn 1304 1304 1304 1304)
      (turn 1306 1306 1306 1306) (omega arith) (omega arith, omega arith, omega arith)
      (((refl, omega arith, omega arith), omega arith, omega arith), tt)
      ((refl, omega arith, omega arith), omega arith)
      ((refl, omega arith, omega arith), omega arith)
      ((refl, omega arith, omega arith), omega arith)
