-- ===== src/Timers/Tests.antt =====
-- Runs of the timers of src/CTimer.cpp.
use concentrator.Common.{ℕ, ◌+◌, ◌*◌, ◌≡◌, refl, Option, none, some, List, [], ◌∷◌, arith, u32}
use concentrator.Timers.{Timer, repeat_done, FixTimer, minute_type, fix_done}
use concentrator.Timers.Firing.{
  Advances, Spaced, repeat_fires, fix_fires, repeat_fires-Spaced, fix_fires-grid,
}

abbrev ten : Timer
ten = record { last_time = 100; interval = 10 }

abbrev readings : List (Option ℕ)
readings = some 105 ∷ some 111 ∷ none ∷ some 121 ∷ some 122 ∷ []

readings-Advances : Advances 100 readings
readings-Advances = (
  omega arith,
  omega arith,
  (omega arith, omega arith, (omega arith, omega arith, (omega arith, omega arith, tt))),
)

repeat_fires-Spaced_example : Spaced 10 100 (repeat_fires ten readings)
repeat_fires-Spaced_example = repeat_fires-Spaced ten 100 readings (omega arith) readings-Advances

repeat_fires-twice : repeat_fires ten readings ≡ 111 ∷ 122 ∷ []
unfolding repeat_fires repeat_done
repeat_fires-twice = refl

abbrev minutely : FixTimer
minutely = record { timer_type = minute_type; next_time = 120; fix_interval = 60 }

fix_fires-grid_example :
    ((fix_fires minutely readings).0.fix_interval ≡ 60)
    × ((fix_fires minutely readings).0.next_time ≡ u32 (120 + (fix_fires minutely readings).1 * 60))
fix_fires-grid_example = fix_fires-grid minutely readings (omega arith)

-- The timer is due at 121, and no more at 122.
fix_fires-minutely : fix_fires minutely readings ≡ (record minutely { next_time = 180 }, 1)
unfolding fix_fires fix_done
fix_fires-minutely = refl
