-- ===== src/Utils/Calendar.antt =====
-- src/Utils.cpp: the calendar of `gmtime_new` is the one of `mktime_new`.
use concentrator.Common.{
  ℕ, zero, suc, ◌+◌, ◌-◌, ◌*◌, ◌/◌, ◌%◌, ◌^◌, ◌≤◌, ◌<◌, ◌≡◌, refl, ap, ◌∙◌, Bool, true, false, ◌&&◌,
  Option, none, some, ◌==◌, ltb, if◌then◌else◌, get_elem?, u32, arith, inl, inr, Bool-cases, ==_iff,
}
use concentrator.Common.Upto.{all_upto, all_upto-holds}
use concentrator.Common.Outcome.{Outcome, done, fault, out_of_fuel}
use concentrator.Utils.Time.{
  TmNew, isleap, year_length, mon_lengths, find_year, find_month, gmtime_new, days_before_month,
  tm_isleap, days_of_years, mktime_new,
}

leap-same : (y : ℕ) → isleap (1900 + y) ≡ tm_isleap y
leap-same y = ground arith

-- The days of `n` years from a year on.
abbrev span : ℕ → ℕ → ℕ
span y zero = 0
span y (suc n) = year_length y + span (y + 1) n

days_of_years-span : (n y : ℕ) → days_of_years n y ≡ span (1900 + y) n
unfolding days_of_years
days_of_years-span zero y = refl
days_of_years-span (suc n) y =
    let next : 1900 + (y + 1) ≡ 1900 + y + 1 = omega arith in
    rw (leap-same y, days_of_years-span n (y + 1), next) refl

-- The loop over the years ends, within the year that it finds.
record Found (y days : ℕ) (o : Outcome (ℕ × ℕ)) : Type 0 where
  years : ℕ
  rest : ℕ
  returns : o ≡ done (y + years, rest)
  within : rest < year_length (y + years)
  total : days ≡ span y years + rest

find_year-Found : (fuel y days : ℕ) → days < fuel → Found y days (find_year fuel y days)
unfolding find_year
find_year-Found zero y days h = absurd (omega arith)
find_year-Found (suc fuel) y days h = elim (Bool-cases (ltb days (year_length y))) [
  | inl stop ↦
      let same : y + 0 ≡ y = omega arith in
      record {
        years = 0;
        rest = days;
        returns = rw (stop, find_year, same) refl;
        within = rw same (ground arith);
        total = omega arith;
      }
  | inr on ↦
      let long : year_length y ≤ days = ground arith in
      let short : 0 < year_length y = ground arith in
      let next = find_year-Found fuel (y + 1) (days - year_length y) (omega arith) in
      let same : y + 1 + next.years ≡ y + suc next.years = omega arith in
      record {
        years = suc next.years;
        rest = next.rest;
        returns = rw (on, find_year) (next.returns ∙ ap (λ k. done (k, next.rest)) same);
        within = rw (← same) next.within;
        total = omega (arith, next.total);
      }
]

-- The month that is found for a day, and `mktime_new`'s count of the days before it, are of that day.
before_fits : (leap : Bool) (d mon day : ℕ) → Option ℕ → Bool
before_fits leap d mon day none = false
before_fits leap d mon day (some before) = before + (if ltb 1 mon && leap then 1 else 0) + day == d

result_fits : (leap : Bool) (d : ℕ) → Outcome (ℕ × ℕ) → Bool
result_fits leap d (done (mon, day)) = before_fits leap d mon day (get_elem? days_before_month mon)
result_fits leap d fault = false
result_fits leap d out_of_fuel = false

month_fits : (leap : Bool) → ℕ → Bool
month_fits leap d = result_fits leap d (find_month (mon_lengths leap) 0 d)

month_fits_common : all_upto (month_fits false) 365 ≡ true
unfolding all_upto month_fits result_fits before_fits find_month
month_fits_common = refl

month_fits_leap : all_upto (month_fits true) 366 ≡ true
unfolding all_upto month_fits result_fits before_fits find_month
month_fits_leap = refl

record Month (leap : Bool) (d : ℕ) : Type 0 where
  mon : ℕ
  day : ℕ
  before : ℕ
  found : find_month (mon_lengths leap) 0 d ≡ done (mon, day)
  known : get_elem? days_before_month mon ≡ some before
  fits : before + (if ltb 1 mon && leap then 1 else 0) + day ≡ d

of_before :
    (leap : Bool) (d mon day : ℕ) (o : Option ℕ)
    → find_month (mon_lengths leap) 0 d ≡ done (mon, day)
    → get_elem? days_before_month mon ≡ o
    → before_fits leap d mon day o ≡ true
    → Month leap d
unfolding before_fits
of_before leap d mon day none e k f = cc
of_before leap d mon day (some before) e k f = record {
  mon = mon;
  day = day;
  before = before;
  found = e;
  known = k;
  fits = (==_iff _ _).0 f;
}

of_result :
    (leap : Bool) (d : ℕ) (o : Outcome (ℕ × ℕ))
    → find_month (mon_lengths leap) 0 d ≡ o
    → result_fits leap d o ≡ true
    → Month leap d
unfolding result_fits
of_result leap d (done (mon, day)) e f =
    of_before leap d mon day (get_elem? days_before_month mon) e refl f
of_result leap d fault e f = cc
of_result leap d out_of_fuel e f = cc

Month-of : (leap : Bool) (d : ℕ) → d < (if leap then 366 else 365) → Month leap d
unfolding month_fits
Month-of false d h =
    of_result false d (find_month (mon_lengths false) 0 d) refl
      (all_upto-holds (month_fits false) 365 d month_fits_common h)
Month-of true d h =
    of_result true d (find_month (mon_lengths true) 0 d) refl
      (all_upto-holds (month_fits true) 366 d month_fits_leap h)

-- The broken-down time of a day in the `n`th year after 1970.
abbrev broken_down : (timestamp mon day n yday : ℕ) → TmNew
broken_down timestamp mon day n yday = record {
  tm_sec = timestamp % 86400 % 3600 % 60;
  tm_min = timestamp % 86400 % 3600 / 60;
  tm_hour = timestamp % 86400 / 3600;
  tm_mday = day + 1;
  tm_mon = mon;
  tm_year = 1970 + n - 1900;
  tm_wday = (4 + timestamp / 86400) % 7;
  tm_yday = yday;
}

mktime_new-back :
    (timestamp mon day before n yday : ℕ)
    → timestamp < 2 ^ 32
    → get_elem? days_before_month mon ≡ some before
    → before + (if ltb 1 mon && isleap (1970 + n) then 1 else 0) + day ≡ yday
    → timestamp / 86400 ≡ span 1970 n + yday
    → mktime_new (broken_down timestamp mon day n yday) ≡ some timestamp
unfolding mktime_new
mktime_new-back timestamp mon day before n yday small known fits total =
    rw (known, mktime_new, year, left, ← same_leap, days_of_years-span n 70) (ap some seconds)
  where
    year : 1970 + n - 1900 ≡ 70 + n
    year = omega arith

    left : 70 + n - 70 ≡ n
    left = omega arith

    same_leap : isleap (1970 + n) ≡ tm_isleap (70 + n)
    same_leap = let e : 1970 + n ≡ 1900 + (70 + n) = omega arith in rw e (leap-same (70 + n))

    seconds :
        u32 (
          timestamp % 86400 % 3600 % 60
          + timestamp % 86400 % 3600 / 60 * 60
          + timestamp % 86400 / 3600 * 3600
          + ((day + 1 + 2 ^ 32 - 1)
              + before
              + (if ltb 1 mon && isleap (1970 + n) then 1 else 0)
              + span 1970 n)
            * 86400)
        ≡ timestamp
    seconds = omega (arith, fits, total, small)

-- `gmtime_new` returns for every time of 32 bits, and `mktime_new` makes the same time of its result.
pub mktime_new-gmtime_new :
    (timestamp : ℕ)
    → timestamp < 2 ^ 32
    → (tm : TmNew) × (gmtime_new timestamp ≡ done tm) × (mktime_new tm ≡ some timestamp)
unfolding gmtime_new
mktime_new-gmtime_new timestamp h =
    let f = find_year-Found (timestamp / 86400 + 1) 1970 (timestamp / 86400) (omega arith) in
    let m = Month-of (isleap (1970 + f.years)) f.rest f.within in
    (
      broken_down timestamp m.mon m.day f.years f.rest,
      rw (f.returns, m.found) refl,
      mktime_new-back timestamp m.mon m.day m.before f.years f.rest h m.known m.fits f.total,
    )
