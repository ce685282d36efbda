-- ===== src/Timers.antt =====
-- src/CTimer.cpp and src/CTimer.h: the three timers. The clock is the environment's: a reading of
-- `GetLocalTimeStamp` is a time in seconds, or `none` when it fails, which leaves its argument alone.
pub mod Firing
mod Tests
use concentrator.Common.{
  ℕ, zero, suc, ◌+◌, ◌*◌, Bool, true, false, Option, none, some, List, [], ◌∷◌, ◌==◌, ltb, leb,
  if◌then◌else◌, u32, sub32,
}

-- `CTimer` and `CRepeatTimer` have the same fields.
pub record Timer : Type 0 where
  pub last_time : ℕ
  pub interval : ℕ

unfoldable pub stop_timer : Timer → Timer
stop_timer t = record t { interval = 0 }

-- `CTimer::StartTimer` and `CRepeatTimer::Start`, which does not stop the timer first.
unfoldable pub start_timer : Timer → ℕ → Option ℕ → Timer × Bool
start_timer t interval' clock =
    let t' = record (stop_timer t) { interval = interval' } in
    if interval' == 0
    then (t', false)
    else (elim clock [ none ↦ (t', false) | some now ↦ (record t' { last_time = now }, true) ])

unfoldable pub start_repeat : Timer → ℕ → Option ℕ → Timer × Bool
start_repeat t interval' clock =
    let t' = record t { interval = interval' } in
    if interval' == 0
    then (t', false)
    else (elim clock [ none ↦ (t', false) | some now ↦ (record t' { last_time = now }, true) ])

-- `CTimer::Done` and `CRepeatTimer::Done`.
unfoldable pub timer_done : Timer → Option ℕ → Timer × Bool
timer_done t none = (t, false)
timer_done t (some now) =
    if t.interval == 0
    then (t, false)
    else (if ltb t.interval (sub32 now t.last_time) then (stop_timer t, true) else (t, false))

unfoldable pub repeat_done : Timer → Option ℕ → Timer × Bool
repeat_done t none = (t, false)
repeat_done t (some now) =
    if t.interval == 0
    then (t, false)
    else (if ltb t.interval (sub32 now t.last_time)
        then (record t { last_time = now }, true)
        else (t, false))

-- `FixTimerTypeE`, and the interval of each.
pub data FixTimerType : Type 0 where
  day_type : FixTimerType
  hour_type : FixTimerType
  minute_type : FixTimerType

abbrev pub type_interval : FixTimerType → ℕ
type_interval day_type = 24 * 60 * 60
type_interval hour_type = 60 * 60
type_interval minute_type = 60

-- `CFixTimer`
pub record FixTimer : Type 0 where
  pub timer_type : FixTimerType
  pub next_time : ℕ
  pub fix_interval : ℕ

-- A reading of the clock's date: year, month, day, hour, minute and second.
pub record DateTime : Type 0 where
  pub year : ℕ
  pub month : ℕ
  pub day : ℕ
  pub hour : ℕ
  pub minute : ℕ
  pub second : ℕ

-- The fields behind the one of the type are cleared, and the first of them is set to the offset.
abbrev pub with_offset : FixTimerType → DateTime → ℕ → DateTime
with_offset day_type d offset = record d { hour = offset; minute = 0; second = 0 }
with_offset hour_type d offset = record d { minute = offset; second = 0 }
with_offset minute_type d offset = record d { second = offset }

module _ (date_time2time_stamp : DateTime → ℕ) where
  unfoldable pub fix_start : FixTimer → ℕ → Option DateTime → FixTimer × Bool
  fix_start t time_offset none = (t, false)
  fix_start t time_offset (some d) = (
    record t {
      fix_interval = type_interval t.timer_type;
      next_time = date_time2time_stamp (with_offset t.timer_type d time_offset);
    },
    true,
  )

unfoldable pub fix_stop : FixTimer → FixTimer
fix_stop t = record t { fix_interval = 0 }

unfoldable pub fix_done : FixTimer → Option ℕ → FixTimer × Bool
fix_done t none = (t, false)
fix_done t (some now) =
    if t.fix_interval == 0
    then (t, false)
    else (if leb t.next_time now
        then (record t { next_time = u32 (t.next_time + t.fix_interval) }, true)
        else (t, false))
