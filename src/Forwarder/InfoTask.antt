-- ===== src/Forwarder/InfoTask.antt =====
-- src/CForwarderMonitor.cpp: how long what the forwarders have told counts, and the lock of the monitor.
use concentrator.Common.{
  List, [], ◌∷◌, ◌++◌, All, ℕ, ◌+◌, ◌-◌, ◌≤◌, ◌<◌, ◌≡◌, ◌^◌, refl, Bool, true, false, not, ◌&&◌,
  ◌||◌, some, ◌∙◌, if◌then◌else◌, ltb, sub32, arith,
}
use concentrator.Timers.{Timer, start_timer, stop_timer, timer_done}
use concentrator.Valve.{Call, returned, waits, outside}

-- `m_ForwarderLock`, `m_ForwardInfoDataReady` and `m_ForwardInfoTimeOut`, and the local variable `last` of `Run`.
pub record Info : Type 0 where
  pub locked : Bool
  pub ready : Bool
  pub time_out : Timer
  pub last : ℕ

-- `GetForwarderInfoTask`: while nothing is ready it returns with the lock held.
unfoldable pub get_forwarder_info_task : Info → (clock : ℕ) → Call Info
get_forwarder_info_task s clock =
    let (timer, over) = timer_done s.time_out (some clock) in
    if s.locked
    then waits
    else if not s.ready
    then returned (record s { locked = true })
    else returned (record s { time_out = timer; ready = not over })

-- A turn of `Run`: the clock at its start, when `SendA1` starts the timer, behind `GetValveUserID`, and at the task;
-- whether the timer of the measurements is done, and whether there are users.
pub record InfoTurn : Type 0 where
  pub now : ℕ
  pub asked : ℕ
  pub finished : ℕ
  pub checked : ℕ
  pub measures : Bool
  pub users_known : Bool

-- The questions when they are due, the measurements, which take the lock and release it, and the task.
unfoldable pub info_turn : Info → InfoTurn → Call Info
info_turn s c =
    let elapsed = c.now - s.last in
    let s₁ =
      if ltb 300 elapsed || (ltb 10 elapsed && not c.users_known)
      then record s {
        ready = true;
        time_out = (start_timer s.time_out 300 (some c.asked)).0;
        last = c.finished;
      }
      else s in
    if c.measures && s₁.locked then waits else get_forwarder_info_task s₁ c.checked

unfoldable pub info_run : Info → List InfoTurn → Call Info
info_run s [] = returned s
info_run s (c ∷ turns) = elim (info_turn s c) [
  | returned s' ↦ info_run s' turns
  | waits ↦ waits
  | outside ↦ outside
]

run_step :
    (s s' : Info) (c : InfoTurn) (turns : List InfoTurn)
    → info_turn s c ≡ returned s'
    → info_run s (c ∷ turns) ≡ info_run s' turns
unfolding info_run
run_step s s' c turns e = rw (info_run, e) refl

run_waits :
    (s : Info) (c : InfoTurn) (turns : List InfoTurn)
    → info_turn s c ≡ waits
    → info_run s (c ∷ turns) ≡ waits
unfolding info_run
run_waits s c turns e = rw (info_run, e) refl

-- The state while the timer of the questions runs, when it is over, and when a task has kept the lock.
abbrev pub state : (locked ready : Bool) (time_out : Timer) (last : ℕ) → Info
state locked ready time_out last = record {
  locked = locked;
  ready = ready;
  time_out = time_out;
  last = last;
}

abbrev running : (asked : ℕ) → Timer
running asked = record { last_time = asked; interval = 300 }

module _ (first : InfoTurn) where
  -- A later turn in which no questions are due, before and after the timer of the questions is over.
  abbrev pub IsUnasked : InfoTurn → Type 0
  IsUnasked c = (c.users_known ≡ true) × (c.now ≤ first.finished + 300) × (c.checked < 2 ^ 32)

  abbrev pub IsEarly : InfoTurn → Type 0
  IsEarly c = IsUnasked c × (first.asked ≤ c.checked) × (c.checked ≤ first.asked + 300)

  abbrev pub IsLate : InfoTurn → Type 0
  IsLate c = IsUnasked c × (first.asked + 300 < c.checked)

  unasked_turn :
      (locked ready : Bool) (t : Timer) (c : InfoTurn)
      → IsUnasked c
      → info_turn (state locked ready t first.finished) c ≡ (
          if c.measures && locked
          then waits
          else get_forwarder_info_task (state locked ready t first.finished) c.checked)
  unfolding info_turn
  unasked_turn locked ready t c (known, soon, small) =
      let no_need : (ltb 300 (c.now - first.finished)
            || (ltb 10 (c.now - first.finished) && not c.users_known))
          ≡ false =
        ground (arith, known, soon) in
      rw no_need refl

  early_turn :
      (c : InfoTurn)
      → IsEarly c
      → info_turn (state false true (running first.asked) first.finished) c
        ≡ returned (state false true (running first.asked) first.finished)
  unfolding get_forwarder_info_task timer_done
  early_turn c (unasked, after, before) =
      let runs : ltb 300 (sub32 c.checked first.asked) ≡ false =
        ground (arith, unasked, after, before) in
      let free : (c.measures && false) ≡ false = ground arith in
      unasked_turn false true (running first.asked) c unasked ∙ rw (free, runs) refl

  late_turn :
      (c : InfoTurn)
      → IsLate c
      → info_turn (state false true (running first.asked) first.finished) c
        ≡ returned (state false false (stop_timer (running first.asked)) first.finished)
  unfolding get_forwarder_info_task timer_done
  late_turn c (unasked, late) =
      let over : ltb 300 (sub32 c.checked first.asked) ≡ true = ground (arith, unasked, late) in
      let free : (c.measures && false) ≡ false = ground arith in
      unasked_turn false true (running first.asked) c unasked ∙ rw (free, over) refl

  kept_turn :
      (t : Timer) (c : InfoTurn)
      → IsUnasked c
      → info_turn (state false false t first.finished) c
        ≡ returned (state true false t first.finished)
  unfolding get_forwarder_info_task
  kept_turn t c unasked =
      let free : (c.measures && false) ≡ false = ground arith in
      unasked_turn false false t c unasked ∙ rw free refl

  waiting_turn :
      (t : Timer) (c : InfoTurn)
      → IsUnasked c
      → info_turn (state true false t first.finished) c ≡ waits
  unfolding get_forwarder_info_task
  waiting_turn t c unasked = unasked_turn true false t c unasked ∙ ground arith

  early_run :
      (early later : List InfoTurn)
      → All IsEarly early
      → info_run (state false true (running first.asked) first.finished) (early ++ later)
        ≡ info_run (state false true (running first.asked) first.finished) later
  early_run [] later all = refl
  early_run (c ∷ early) later all =
      run_step _ _ c (early ++ later) (early_turn c all.0) ∙ early_run early later all.1

  first_turn :
      (ready : Bool) (t : Timer) (last : ℕ)
      → last + 300 < first.now
      → (first.asked ≤ first.checked)
        × (first.checked ≤ first.asked + 300)
        × (first.checked < 2 ^ 32)
      → info_turn (state false ready t last) first
        ≡ returned (state false true (running first.asked) first.finished)
  unfolding info_turn get_forwarder_info_task timer_done start_timer
  first_turn ready t last due (after, before, small) =
      let asks : (ltb 300 (first.now - last)
            || (ltb 10 (first.now - last) && not first.users_known))
          ≡ true =
        ground (arith, due) in
      let runs : ltb 300 (sub32 first.checked first.asked) ≡ false =
        ground (arith, after, before, small) in
      let free : (first.measures && false) ≡ false = ground arith in rw (asks, free, runs) refl

  -- In a first turn the forwarders are asked, the timer of what they tell is started before the users of the valves are
  -- asked for, and the next questions are due 300 seconds after that. When there are users from then on, this turn and
  -- any number of turns behind it reach the task within the 300 seconds of the timer, and three turns after those fall
  -- between the end of the timer and the next questions, then `Run` waits for its own lock for ever, with measurements
  -- or without, whatever turns are left.
  pub info_run-waits :
      (ready : Bool) (t : Timer) (last : ℕ) (early rest : List InfoTurn) (c₁ c₂ c₃ : InfoTurn)
      → last + 300 < first.now
      → (first.asked ≤ first.checked)
        × (first.checked ≤ first.asked + 300)
        × (first.checked < 2 ^ 32)
      → All IsEarly early
      → IsLate c₁
      → IsLate c₂
      → IsLate c₃
      → info_run (state false ready t last) (first ∷ early ++ (c₁ ∷ c₂ ∷ c₃ ∷ rest)) ≡ waits
  info_run-waits ready t last early rest c₁ c₂ c₃ due checked all l₁ l₂ l₃ =
      let stopped = stop_timer (running first.asked) in
      run_step _ _ first (early ++ (c₁ ∷ c₂ ∷ c₃ ∷ rest)) (first_turn ready t last due checked)
      ∙ early_run early (c₁ ∷ c₂ ∷ c₃ ∷ rest) all
      ∙ run_step _ _ c₁ (c₂ ∷ c₃ ∷ rest) (late_turn c₁ l₁)
      ∙ run_step _ _ c₂ (c₃ ∷ rest) (kept_turn stopped c₂ l₂.0)
      ∙ run_waits _ c₃ rest (waiting_turn stopped c₃ l₃.0)
