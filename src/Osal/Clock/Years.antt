-- ===== src/Osal/Clock/Years.antt =====
-- The time stamps of a common year, and those that a leap year does not get
-- (`platform/osal/posix_src/osal.c`).
use empirical_zero_knowledge.Prelude.{
  ℕ, suc, ◌+◌, ◌*◌, ◌^◌, ◌<◌, ◌≡◌, refl, ap, ◌∙◌, true, false, none, some, List, [], ◌∷◌, zero, All,
  length, get_or, arith,
}
use empirical_zero_knowledge.Osal.Clock.{
  seconds_per_day, is_leap_year, days_per_month, seconds_of_year, Stamp, unixtime_to_cstr,
}
use empirical_zero_knowledge.Osal.Clock.Fields.{
  days_before, common_month, leap_none, IsTime, time_in_month_lem, seconds_of_years, year_lem,
}

positive_at :
    (days : List ℕ) (i : ℕ) → i < length days → All (λ n. 0 < n) days → 0 < get_or days i 0
positive_at [] i h all = absurd (omega arith)
positive_at (d ∷ days) zero h all = all.0
positive_at (d ∷ days) (suc i) h all = positive_at days i (omega arith) all.1

common_length :
    (year : ℕ) → is_leap_year year ≡ false → seconds_of_year year ≡ 365 * seconds_per_day
unfolding seconds_of_year
common_length year common = rw common refl

leap_length : (year : ℕ) → is_leap_year year ≡ true → seconds_of_year year ≡ 366 * seconds_per_day
unfolding seconds_of_year
leap_length year leap = rw leap refl

-- In a common year from 1970 on, below 2 ^ 32, the stamp of every time is computed, and it is the time's: the
-- days of the months before, the days before in the month, and the hours, minutes and seconds add up
-- to the time in the year; each field is in its range, with the seconds from 0 to 60, and the hour is
-- printed as its sum with the offset, modulo 2 ^ 32 and then modulo 24.
pub unixtime_to_cstr-IsTime :
    (k t utcoffset : ℕ)
    → 1970 + k < 2 ^ 32
    → is_leap_year (1970 + k) ≡ false
    → t < 365 * seconds_per_day
    → (month : ℕ) × (r : ℕ) × (hour : ℕ) × (stamp : Stamp) × (unixtime_to_cstr
          (seconds_of_years 1970 k + t)
          utcoffset
        ≡ some stamp)
      × (month < 12)
      × (t ≡ days_before days_per_month month * seconds_per_day + r)
      × IsTime (1970 + k) month (get_or days_per_month month 0) utcoffset r hour stamp
unixtime_to_cstr-IsTime k t utcoffset fits common within =
    let year = year_lem k t utcoffset fits (rw (common_length (1970 + k) common) within) in
    let (r, month, found, m) =
      common_month days_per_month 0 t (omega arith) (omega arith) (omega arith) in
    let (hour, stamp, made, is_time) =
      time_in_month_lem (1970 + k) month (get_or days_per_month month 0) utcoffset r m.small
        (positive_at days_per_month month m.is_month (omega arith)) in
    (
      month,
      r,
      hour,
      stamp,
      year ∙ rw (common, found ∙ ap (λ n. some (r, n)) (zero_plus month)) made,
      m.is_month,
      m.parts,
      is_time,
    )
  where
    zero_plus : (n : ℕ) → 0 + n ≡ n
    zero_plus n = omega arith

-- In a leap year from 1972 on, below 2 ^ 32, the code reads behind the array of days per month for
-- every time of the 91st day, 31 March, from its third second on.
pub unixtime_to_cstr-none :
    (k t utcoffset : ℕ)
    → 1970 + k < 2 ^ 32
    → is_leap_year (1970 + k) ≡ true
    → 90 * seconds_per_day + 1 < t
    → t < 91 * seconds_per_day
    → unixtime_to_cstr (seconds_of_years 1970 k + t) utcoffset ≡ none
unixtime_to_cstr-none k t utcoffset fits leap from below =
    year_lem k t utcoffset fits (rw (leap_length (1970 + k) leap) (omega arith))
    ∙ rw (leap, leap_none t from below) refl
