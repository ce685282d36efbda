-- ===== src/Timers/Firing.antt =====
-- src/CTimer.cpp: when the timers fire, over any calls of `Done`.
use concentrator.Common.{
  ℕ, ◌+◌, ◌*◌, ◌^◌, ◌≤◌, ◌<◌, ◌≡◌, refl, ap, ◌∙◌, ◌⊎◌, inl, inr, true, Option, none, some, List, [],
  ◌∷◌, ◌==◌, ltb, leb, if◌then◌else◌, u32, sub32, arith, Bool-cases,
}
use concentrator.Timers.{Timer, stop_timer, timer_done, repeat_done, FixTimer, fix_done}

-- The readings at which a `CTimer` fires.
unfoldable pub timer_fires : Timer → List (Option ℕ) → List ℕ
timer_fires t [] = []
timer_fires t (none ∷ readings) = timer_fires (timer_done t none).0 readings
timer_fires t (some now ∷ readings) =
    let (t', fired) = timer_done t (some now) in
    let rest = timer_fires t' readings in if fired then now ∷ rest else rest

unfoldable pub repeat_fires : Timer → List (Option ℕ) → List ℕ
repeat_fires t [] = []
repeat_fires t (none ∷ readings) = repeat_fires (repeat_done t none).0 readings
repeat_fires t (some now ∷ readings) =
    let (t', fired) = repeat_done t (some now) in
    let rest = repeat_fires t' readings in if fired then now ∷ rest else rest

-- The clock does not run backwards, from a time on, and does not leave its 32 bits.
abbrev pub Advances : ℕ → List (Option ℕ) → Type 0
Advances from [] = Unit
Advances from (none ∷ readings) = Advances from readings
Advances from (some now ∷ readings) = (from ≤ now) × (now < 2 ^ 32) × Advances now readings

-- Times that are more than an interval apart, the first from a time before.
abbrev pub Spaced : (interval from : ℕ) → List ℕ → Type 0
Spaced interval from [] = Unit
Spaced interval from (t ∷ ts) = (from + interval < t) × Spaced interval t ts

stopped-silent :
    (t : Timer) (readings : List (Option ℕ)) → t.interval ≡ 0 → timer_fires t readings ≡ []
unfolding timer_fires timer_done
stopped-silent t [] e = refl
stopped-silent t (none ∷ readings) e = stopped-silent t readings e
stopped-silent t (some now ∷ readings) e =
    let off : (t.interval == 0) ≡ true = ground arith in rw off (stopped-silent t readings e)

-- A `CTimer` fires once at most, and only when more than its interval has passed.
pub timer_fires-once :
    (t : Timer) (from : ℕ) (readings : List (Option ℕ))
    → t.last_time ≤ from
    → Advances from readings
    → (timer_fires t readings ≡ [])
      ⊎ ((now : ℕ) × (timer_fires t readings ≡ now ∷ []) × (t.last_time + t.interval < now))
unfolding timer_fires timer_done stop_timer
timer_fires-once t from [] h a = inl refl
timer_fires-once t from (none ∷ readings) h a = timer_fires-once t from readings h a
timer_fires-once t from (some now ∷ readings) h (le, small, rest) =
    elim (Bool-cases (t.interval == 0)) [
      | inl off ↦ rw off (timer_fires-once t now readings (omega arith) rest)
      | inr on ↦ elim (Bool-cases (ltb t.interval (sub32 now t.last_time))) [
        | inl due ↦
            rw (on, due)
              (inr (
                now,
                ap (λ l. now ∷ l) (stopped-silent (stop_timer t) readings refl),
                ground arith,
              ))
        | inr early ↦ rw (on, early) (timer_fires-once t now readings (omega arith) rest)
      ]
    ]

-- While the clock advances, a `CRepeatTimer` fires at times that are more than its interval apart,
-- the first more than the interval after its start.
pub repeat_fires-Spaced :
    (t : Timer) (from : ℕ) (readings : List (Option ℕ))
    → t.last_time ≤ from
    → Advances from readings
    → Spaced t.interval t.last_time (repeat_fires t readings)
unfolding repeat_fires repeat_done
repeat_fires-Spaced t from [] h a = tt
repeat_fires-Spaced t from (none ∷ readings) h a = repeat_fires-Spaced t from readings h a
repeat_fires-Spaced t from (some now ∷ readings) h (le, small, rest) =
    elim (Bool-cases (t.interval == 0)) [
      | inl off ↦ rw off (repeat_fires-Spaced t now readings (omega arith) rest)
      | inr on ↦ elim (Bool-cases (ltb t.interval (sub32 now t.last_time))) [
        | inl due ↦
            rw (on, due)
              (
                ground arith,
                repeat_fires-Spaced (record t { last_time = now }) now readings (omega arith) rest,
              )
        | inr early ↦ rw (on, early) (repeat_fires-Spaced t now readings (omega arith) rest)
      ]
    ]

-- A `CFixTimer` after some readings, and how often it fired.
unfoldable pub fix_fires : FixTimer → List (Option ℕ) → FixTimer × ℕ
fix_fires t [] = (t, 0)
fix_fires t (reading ∷ readings) =
    let (t', fired) = fix_done t reading in
    let (t'', count) = fix_fires t' readings in (t'', if fired then count + 1 else count)

-- After any calls of `Done` the next time of a `CFixTimer` is the first one and a whole interval for
-- each time that it fired, modulo 2 ^ 32, so it stays on its grid.
pub fix_fires-grid :
    (t : FixTimer) (readings : List (Option ℕ))
    → t.next_time < 2 ^ 32
    → ((fix_fires t readings).0.fix_interval ≡ t.fix_interval)
      × ((fix_fires t readings).0.next_time
          ≡ u32 (t.next_time + (fix_fires t readings).1 * t.fix_interval))
unfolding fix_fires fix_done
fix_fires-grid t [] h = (refl, omega arith)
fix_fires-grid t (none ∷ readings) h = fix_fires-grid t readings h
fix_fires-grid t (some now ∷ readings) h = elim (Bool-cases (t.fix_interval == 0)) [
  | inl off ↦ rw off (fix_fires-grid t readings h)
  | inr on ↦ elim (Bool-cases (leb t.next_time now)) [
    | inl due ↦
        let next : FixTimer = record t { next_time = u32 (t.next_time + t.fix_interval) } in
        let (same, on_grid) = fix_fires-grid next readings (omega arith) in
        rw (on, due) (same, on_grid ∙ one_more (fix_fires next readings).1)
    | inr early ↦ rw (on, early) (fix_fires-grid t readings h)
  ]
]
  where
    one_more :
        (n : ℕ)
        → u32 (u32 (t.next_time + t.fix_interval) + n * t.fix_interval)
          ≡ u32 (t.next_time + (n + 1) * t.fix_interval)
    one_more n =
        let e : (n + 1) * t.fix_interval ≡ n * t.fix_interval + t.fix_interval = grind arith in
        rw e (omega arith)
