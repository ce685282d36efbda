-- ===== src/Heat/Told.antt =====
-- src/CHeatMonitor.cpp: what a meter tells by a frame, byte by byte.
use concentrator.Common.{
  ℕ, suc, ◌+◌, ◌≤◌, ◌≡◌, refl, ap, ◌∙◌, false, List, [], ◌∷◌, ◌++◌, length, length-append, get_or,
  take, drop, arith,
}
use concentrator.Common.Parts.{drop-cons, get_or-append_left}
use concentrator.Heat.{HeatNode, parse_data}

-- Four bytes from a place on.
abbrev pub four : List ℕ → (i : ℕ) → List ℕ
four frame i =
    get_or frame i 0 ∷ get_or frame (i + 1) 0 ∷ get_or frame (i + 2) 0 ∷ get_or frame (i + 3) 0 ∷ []

-- A frame of 154 bytes, without differences.
unfoldable pub told_by_short : HeatNode → (frame : List ℕ) → HeatNode
told_by_short node frame = record node {
  is_offline = false;
  supply_water_temperature = four frame 56;
  supply_water_temperature_dif = 0;
  return_water_temperature = four frame 60;
  return_water_temperature_dif = 0;
  current_flow_velocity =
      get_or frame 51 0 ∷ get_or frame 52 0 ∷ get_or frame 53 0 ∷ drop 3 node.current_flow_velocity;
  current_flow_velocity_dif = 0;
  current_heat_velocity = four frame 45;
  current_heat_velocity_dif = 0;
  total_flow = four frame 39;
  total_flow_dif = 0;
  total_heat = four frame 19;
  total_heat_dif = 0;
  total_work_hours = 0 ∷ 0 ∷ 0 ∷ 0 ∷ [];
  current_time = 0;
}

-- A frame of 253 bytes, each reading with a byte before it for the difference.
unfoldable pub told_by_long : HeatNode → (frame : List ℕ) → HeatNode
told_by_long node frame = record node {
  is_offline = false;
  supply_water_temperature = four frame 45;
  supply_water_temperature_dif = get_or frame 43 0;
  return_water_temperature = four frame 51;
  return_water_temperature_dif = get_or frame 49 0;
  current_flow_velocity =
      get_or frame 75 0 ∷ get_or frame 76 0 ∷ get_or frame 77 0 ∷ drop 3 node.current_flow_velocity;
  current_flow_velocity_dif = get_or frame 73 0;
  current_heat_velocity = four frame 63;
  current_heat_velocity_dif = get_or frame 61 0;
  total_flow = four frame 33;
  total_flow_dif = get_or frame 31 0;
  total_heat = four frame 27;
  total_heat_dif = get_or frame 25 0;
  total_work_hours = 0 ∷ 0 ∷ 0 ∷ 0 ∷ [];
  current_time = 0;
}

first_bytes :
    (frame rest : List ℕ) (n i : ℕ)
    → i + suc n ≤ length frame
    → take (suc n) (drop i (frame ++ rest))
      ≡ get_or frame i 0 ∷ take n (drop (suc i) (frame ++ rest))
first_bytes frame rest n i room =
    ap (λ (l : List ℕ). take (suc n) l)
      (drop-cons i (frame ++ rest) 0 (omega (arith, room, length-append {0} frame rest)))
    ∙ ap (λ (x : ℕ). x ∷ take n (drop (suc i) (frame ++ rest)))
        (get_or-append_left frame rest i 0 (omega (arith, room)))

three_bytes :
    (frame rest : List ℕ) (i : ℕ)
    → i + 3 ≤ length frame
    → take 3 (drop i (frame ++ rest))
      ≡ get_or frame i 0 ∷ get_or frame (i + 1) 0 ∷ get_or frame (i + 2) 0 ∷ []
three_bytes frame rest i room =
    let e : i + 1 ≡ suc i = omega arith in
    let e' : i + 2 ≡ suc (suc i) = omega arith in
    rw
      (
        first_bytes frame rest 2 i (omega (arith, room)),
        first_bytes frame rest 1 (suc i) (omega (arith, room)),
        first_bytes frame rest 0 (suc (suc i)) (omega (arith, room)),
        e,
        e',
      )
      refl

four_bytes :
    (frame rest : List ℕ) (i : ℕ)
    → i + 4 ≤ length frame
    → take 4 (drop i (frame ++ rest)) ≡ four frame i
four_bytes frame rest i room =
    let e : i + 1 ≡ suc i = omega arith in
    let e' : i + 2 ≡ suc (suc i) = omega arith in
    let e'' : i + 3 ≡ suc (suc (suc i)) = omega arith in
    rw
      (
        first_bytes frame rest 3 i (omega (arith, room)),
        first_bytes frame rest 2 (suc i) (omega (arith, room)),
        first_bytes frame rest 1 (suc (suc i)) (omega (arith, room)),
        first_bytes frame rest 0 (suc (suc (suc i))) (omega (arith, room)),
        e,
        e',
        e'',
      )
      refl

pub parse_data-told_by_short :
    (node : HeatNode) (frame rest : List ℕ)
    → length frame ≡ 154
    → record (parse_data
        (56 ∷ 0 ∷ 60 ∷ 0 ∷ 51 ∷ 0 ∷ 45 ∷ 0 ∷ 39 ∷ 0 ∷ 19 ∷ 0 ∷ [])
        (frame ++ rest)
        node) { is_offline = false }
      ≡ told_by_short node frame
unfolding parse_data told_by_short
parse_data-told_by_short node frame rest whole =
    rw
      (
        four_bytes frame rest 56 (omega (arith, whole)),
        four_bytes frame rest 60 (omega (arith, whole)),
        four_bytes frame rest 45 (omega (arith, whole)),
        four_bytes frame rest 39 (omega (arith, whole)),
        four_bytes frame rest 19 (omega (arith, whole)),
        three_bytes frame rest 51 (omega (arith, whole)),
      )
      refl

pub parse_data-told_by_long :
    (node : HeatNode) (frame rest : List ℕ)
    → length frame ≡ 253
    → record (parse_data
        (45 ∷ 43 ∷ 51 ∷ 49 ∷ 75 ∷ 73 ∷ 63 ∷ 61 ∷ 33 ∷ 31 ∷ 27 ∷ 25 ∷ [])
        (frame ++ rest)
        node) { is_offline = false }
      ≡ told_by_long node frame
unfolding parse_data told_by_long
parse_data-told_by_long node frame rest whole =
    rw
      (
        four_bytes frame rest 45 (omega (arith, whole)),
        four_bytes frame rest 51 (omega (arith, whole)),
        four_bytes frame rest 63 (omega (arith, whole)),
        four_bytes frame rest 33 (omega (arith, whole)),
        four_bytes frame rest 27 (omega (arith, whole)),
        three_bytes frame rest 75 (omega (arith, whole)),
        get_or-append_left frame rest 43 0 (omega (arith, whole)),
        get_or-append_left frame rest 49 0 (omega (arith, whole)),
        get_or-append_left frame rest 73 0 (omega (arith, whole)),
        get_or-append_left frame rest 61 0 (omega (arith, whole)),
        get_or-append_left frame rest 31 0 (omega (arith, whole)),
        get_or-append_left frame rest 25 0 (omega (arith, whole)),
      )
      refl
