-- ===== src/Osal/Clock.antt =====
-- The time stamps of the log (`unixtime_to_cstr` of `platform/osal/posix_src/osal.c`). The text is
-- what `sprintf` makes of the numbers here. `none` is a read behind the array of days per month, or a
-- loop that has not ended.
pub mod Fields
pub mod Years
use empirical_zero_knowledge.Prelude.{
  ℕ, zero, suc, ◌+◌, ◌-◌, ◌*◌, ◌/◌, ◌%◌, ◌^◌, Bool, true, false, not, ◌&&◌, ◌||◌, Option, none,
  some, ◌>>=◌, List, [], ◌∷◌, ltb, leb, ◌==◌, if◌then◌else◌, u32,
}

abbrev pub seconds_per_day : ℕ
seconds_per_day = 86400

unfoldable pub is_leap_year : ℕ → Bool
is_leap_year year = year % 4 == 0 && not (year % 100 == 0) || year % 400 == 0

abbrev pub days_per_month : List ℕ
days_per_month = 31 ∷ 28 ∷ 31 ∷ 30 ∷ 31 ∷ 30 ∷ 31 ∷ 31 ∷ 30 ∷ 31 ∷ 30 ∷ 31 ∷ []

-- `is_leap_year(year) ? S_P_LYEAR : S_P_YEAR`
unfoldable pub seconds_of_year : ℕ → ℕ
unfolding is_leap_year
seconds_of_year year = if is_leap_year year then 366 * seconds_per_day else 365 * seconds_per_day

-- The loop over the years: what is left of the time, and the year.
unfoldable pub find_year : ℕ → ℕ → ℕ → Option (ℕ × ℕ)
unfolding seconds_of_year
find_year zero ut year = none
find_year (suc fuel) ut year = elim (leb (seconds_of_year year) ut) [
  | true ↦ find_year fuel (ut - seconds_of_year year) (u32 (year + 1))
  | false ↦ some (ut, year)
]

-- The loop over the months, over the part of `days_per_month` from the month on. `seconds_per_month`
-- has a day more for the month of index 2. The subtraction of unsigned numbers wraps.
unfoldable pub find_month : List ℕ → Bool → ℕ → ℕ → Option (ℕ × ℕ)
find_month [] leap month ut = none
find_month (days ∷ rest) leap month ut =
    if ltb (days * seconds_per_day + (if leap then 1 else 0)) ut
    then find_month rest leap (month + 1)
        ((ut + 2 ^ 64 - seconds_per_day * (days + (if month == 2 && leap then 1 else 0))) % 2 ^ 64)
    else some (ut, month)

-- `while (ut > unit) { ut -= unit; n += 1; }`
unfoldable pub count_off : ℕ → ℕ → ℕ → ℕ → Option (ℕ × ℕ)
count_off zero unit ut n = none
count_off (suc fuel) unit ut n = elim (ltb unit ut) [
  | true ↦ count_off fuel unit (ut - unit) (n + 1)
  | false ↦ some (ut, n)
]

pub record Stamp : Type 0 where
  pub year : ℕ
  pub month : ℕ
  pub day : ℕ
  pub hour : ℕ
  pub minute : ℕ
  pub second : ℕ

-- From the start of a month on; the three loops take at most one round for each unit and one more.
unfoldable pub time_in_month : ℕ → ℕ → ℕ → ℕ → Option Stamp
unfolding count_off
time_in_month year month ut utcoffset = do
  (ut₁, day) ← count_off (ut / seconds_per_day + 1) seconds_per_day ut 0
  (ut₂, hour) ← count_off (ut₁ / 3600 + 1) 3600 ut₁ 0
  (ut₃, minute) ← count_off (ut₂ / 60 + 1) 60 ut₂ 0
  some (record {
    year = year;
    month = month + 1;
    day = day + 1;
    hour = u32 (hour + utcoffset) % 24;
    minute = minute;
    second = ut₃;
  })

unfoldable pub unixtime_to_cstr : ℕ → ℕ → Option Stamp
unfolding find_year find_month time_in_month
unixtime_to_cstr ut utcoffset = do
  (ut₁, year) ← find_year (ut / (365 * seconds_per_day) + 1) ut 1970
  (ut₂, month) ← find_month days_per_month (is_leap_year year) 0 ut₁
  time_in_month year month ut₂ utcoffset
