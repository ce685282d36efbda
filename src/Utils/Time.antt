-- ===== src/Utils/Time.antt =====
-- src/Utils.cpp: `gmtime_new` and `mktime_new`. `tm_isdst`, always -1, is left out.
use concentrator.Common.{
  ℕ, zero, suc, ◌+◌, ◌-◌, ◌*◌, ◌/◌, ◌%◌, ◌^◌, Bool, true, false, not, ◌&&◌, ◌||◌, Option, none,
  some, List, [], ◌∷◌, ◌==◌, ltb, if◌then◌else◌, get_elem?, u32,
}
use concentrator.Common.Outcome.{Outcome, done, fault, out_of_fuel, ◌>>=◌}

-- `tm_new`
pub record TmNew : Type 0 where
  pub tm_sec : ℕ
  pub tm_min : ℕ
  pub tm_hour : ℕ
  pub tm_mday : ℕ
  pub tm_mon : ℕ
  pub tm_year : ℕ
  pub tm_wday : ℕ
  pub tm_yday : ℕ

abbrev pub isleap : ℕ → Bool
isleap y = y % 4 == 0 && not (y % 100 == 0) || y % 400 == 0

abbrev pub year_length : ℕ → ℕ
year_length y = if isleap y then 366 else 365

abbrev pub mon_lengths : (leap : Bool) → List ℕ
mon_lengths false = 31 ∷ 28 ∷ 31 ∷ 30 ∷ 31 ∷ 30 ∷ 31 ∷ 31 ∷ 30 ∷ 31 ∷ 30 ∷ 31 ∷ []
mon_lengths true = 31 ∷ 29 ∷ 31 ∷ 30 ∷ 31 ∷ 30 ∷ 31 ∷ 31 ∷ 30 ∷ 31 ∷ 30 ∷ 31 ∷ []

-- The loop over the years, with the days that are left.
unfoldable pub find_year : ℕ → (y days : ℕ) → Outcome (ℕ × ℕ)
find_year zero y days = out_of_fuel
find_year (suc fuel) y days = elim (ltb days (year_length y)) [
  | true ↦ done (y, days)
  | false ↦ find_year fuel (y + 1) (days - year_length y)
]

-- The loop over the months; `fault` is a read behind the table.
unfoldable pub find_month : List ℕ → (mon days : ℕ) → Outcome (ℕ × ℕ)
find_month [] mon days = fault
find_month (l ∷ ls) mon days = elim (ltb days l) [
  | true ↦ done (mon, days)
  | false ↦ find_month ls (mon + 1) (days - l)
]

unfoldable pub gmtime_new : ℕ → Outcome TmNew
gmtime_new timestamp = do
  let days = timestamp / 86400
  let rem = timestamp % 86400
  (y, yday) ← find_year (days + 1) 1970 days
  (mon, day) ← find_month (mon_lengths (isleap y)) 0 yday
  done (record {
    tm_sec = rem % 3600 % 60;
    tm_min = rem % 3600 / 60;
    tm_hour = rem / 3600;
    tm_mday = day + 1;
    tm_mon = mon;
    tm_year = y - 1900;
    tm_wday = (4 + days) % 7;
    tm_yday = yday;
  })

-- `_DAYS_BEFORE_MONTH`, `_ISLEAP` and `_DAYS_IN_YEAR`, on years from 1900.
abbrev pub days_before_month : List ℕ
days_before_month = 0 ∷ 31 ∷ 59 ∷ 90 ∷ 120 ∷ 151 ∷ 181 ∷ 212 ∷ 243 ∷ 273 ∷ 304 ∷ 334 ∷ []

abbrev pub tm_isleap : ℕ → Bool
tm_isleap y = y % 4 == 0 && (not (y % 100 == 0) || (y + 1900) % 400 == 0)

abbrev pub days_in_year : ℕ → ℕ
days_in_year y = if tm_isleap y then 366 else 365

-- The loop over the years, with the number of turns that are left.
unfoldable pub days_of_years : (left year : ℕ) → ℕ
days_of_years zero year = 0
days_of_years (suc left) year = days_in_year year + days_of_years left (year + 1)

-- `none` is a month outside the table.
unfoldable pub mktime_new : TmNew → Option ℕ
mktime_new tim_p = elim (get_elem? days_before_month tim_p.tm_mon) [
  | none ↦ none
  | some before ↦
      let tim = tim_p.tm_sec + tim_p.tm_min * 60 + tim_p.tm_hour * 3600 in
      let leap_day : ℕ = if ltb 1 tim_p.tm_mon && tm_isleap tim_p.tm_year then 1 else 0 in
      let days =
        (tim_p.tm_mday + 2 ^ 32 - 1) + before + leap_day + days_of_years (tim_p.tm_year - 70) 70 in
      some (u32 (tim + days * 86400))
]
