-- ===== src/Osal/Clock/Fields.antt =====
-- What a time stamp says of the time (`platform/osal/posix_src/osal.c`).
use empirical_zero_knowledge.Prelude.{
  ℕ, zero, suc, ◌+◌, ◌-◌, ◌*◌, ◌/◌, ◌%◌, ◌^◌, ◌<◌, ◌≤◌, ◌≡◌, refl, sym, ap, ◌∙◌, Bool, true, false,
  ◌&&◌, Bool-cases, inl, inr, none, some, ◌>>=◌, List, [], ◌∷◌, ltb, leb, ◌==◌, if◌then◌else◌, u32,
  get_or, length, arith,
}
use empirical_zero_knowledge.Osal.Clock.{
  seconds_per_day, is_leap_year, days_per_month, seconds_of_year, find_year, find_month, count_off,
  Stamp, time_in_month, unixtime_to_cstr,
}

-- So many units are counted off, and what is left is at most one unit, and positive if it was before.
record Counted (unit ut n r m : ℕ) : Type 0 where
  parts : ut + n * unit ≡ m * unit + r
  small : r ≤ unit
  positive : 0 < ut → 0 < r
  starts : ut ≤ unit → m ≡ n

count_off-more :
    (fuel unit ut n : ℕ)
    → ltb unit ut ≡ true
    → count_off (suc fuel) unit ut n ≡ count_off fuel unit (ut - unit) (n + 1)
unfolding count_off
count_off-more fuel unit ut n more = rw (more, count_off) refl

count_off-last :
    (fuel unit ut n : ℕ) → ltb unit ut ≡ false → count_off (suc fuel) unit ut n ≡ some (ut, n)
unfolding count_off
count_off-last fuel unit ut n last = rw (last, count_off) refl

Counted-more :
    (unit ut n r m : ℕ) → unit < ut → Counted unit (ut - unit) (n + 1) r m → Counted unit ut n r m
Counted-more unit ut n r m more c =
    let parts = c.parts in
    let positive = c.positive in
    let next : (n + 1) * unit ≡ n * unit + unit = grind arith in
    record {
      parts = omega arith;
      small = c.small;
      positive = λ h. positive (omega arith);
      starts = λ le. absurd (omega arith);
    }

count_off_lem :
    (fuel unit ut n : ℕ)
    → ut < unit * fuel
    → (r : ℕ) × (m : ℕ) × (count_off fuel unit ut n ≡ some (r, m)) × Counted unit ut n r m
count_off_lem zero unit ut n few = absurd (omega arith)
count_off_lem (suc fuel) unit ut n few = elim (Bool-cases (ltb unit ut)) [
  | inl more ↦
      let above : unit < ut = ground arith in
      let enough : unit * suc fuel ≡ unit * fuel + unit = grind arith in
      let (r, m, run, c) = count_off_lem fuel unit (ut - unit) (n + 1) (omega arith) in
      (r, m, count_off-more fuel unit ut n more ∙ run, Counted-more unit ut n r m above c)
  | inr last ↦ (
    ut,
    n,
    count_off-last fuel unit ut n last,
    record { parts = omega arith; small = ground arith; positive = λ h. h; starts = λ le. refl },
  )
]

-- The days before a month, counted from 0, and the length of the month.
abbrev pub days_before : List ℕ → ℕ → ℕ
days_before [] month = 0
days_before (days ∷ rest) zero = 0
days_before (days ∷ rest) (suc month) = days + days_before rest month

abbrev pub total : List ℕ → ℕ
total [] = 0
total (days ∷ rest) = days + total rest

pub record InMonth (months : List ℕ) (t r month : ℕ) : Type 0 where
  pub is_month : month < length months
  pub parts : t ≡ days_before months month * seconds_per_day + r
  pub small : r ≤ get_or months month 0 * seconds_per_day
  pub positive : 0 < t → 0 < r

no_day : (b : Bool) → ◌≡◌ {A = ℕ} (if b && false then 1 else 0) 0
no_day b = ground arith

find_month-more :
    (days : ℕ) (rest : List ℕ) (from t : ℕ)
    → days * seconds_per_day < t
    → t < 2 ^ 64
    → find_month (days ∷ rest) false from t
      ≡ find_month rest false (from + 1) (t - days * seconds_per_day)
unfolding find_month
find_month-more days rest from t above fits =
    let more : ltb (days * seconds_per_day + 0) t ≡ true = ground arith in
    let left : (t + 2 ^ 64 - seconds_per_day * (days + 0)) % 2 ^ 64 ≡ t - days * seconds_per_day =
      omega arith in
    rw (more, no_day (from == 2)) (ap (find_month rest false (from + 1)) left)

length-positive : (months : List ℕ) → 0 < total months → 0 < length months
length-positive [] h = h
length-positive (days ∷ rest) h = omega arith

pub common_month :
    (months : List ℕ) (from t : ℕ)
    → 0 < length months
    → t ≤ total months * seconds_per_day
    → t < 2 ^ 64
    → (r : ℕ) × (month : ℕ) × (find_month months false from t ≡ some (r, from + month))
      × InMonth months t r month
unfolding find_month
common_month [] from t some_month within fits = absurd (omega arith)
common_month (days ∷ rest) from t some_month within fits =
    elim (Bool-cases (ltb (days * seconds_per_day + 0) t)) [
      | inl more ↦
          let above : days * seconds_per_day < t = ground arith in
          let (r, month, run, m) =
            common_month rest (from + 1) (t - days * seconds_per_day)
              (length-positive rest (omega arith)) (omega arith) (omega arith) in
          let parts = m.parts in
          let positive = m.positive in
          let is_month = m.is_month in
          (
            r,
            suc month,
            find_month-more days rest from t above fits ∙ run ∙ ap (λ k. some (r, k)) (omega arith),
            record {
              is_month = omega arith;
              parts = omega arith;
              small = m.small;
              positive = λ h. positive (omega arith);
            },
          )
      | inr last ↦ (
        t,
        0,
        rw last (ap (λ m. some (t, m)) (omega arith)),
        record {
          is_month = omega arith;
          parts = omega arith;
          small = ground arith;
          positive = λ h. h;
        },
      )
    ]

-- In a leap year the last day of March is past the month that the loop sees, and what is left of the
-- time wraps around.
pub leap_none :
    (t : ℕ)
    → 90 * seconds_per_day + 1 < t
    → t < 91 * seconds_per_day
    → find_month days_per_month true 0 t ≡ none
unfolding find_month
leap_none t from below = ground arith

-- The fields of a stamp for a time `t` in a month of so many days, from the hour before the offset.
-- A full minute after the start of the month is second 60 of the minute before.
pub record IsTime (year month days utcoffset t hour : ℕ) (stamp : Stamp) : Type 0 where
  pub same_year : stamp.year ≡ year
  pub same_month : stamp.month ≡ month + 1
  pub parts :
      t + seconds_per_day
      ≡ stamp.day * seconds_per_day + hour * 3600 + stamp.minute * 60 + stamp.second
  pub day_in : (1 ≤ stamp.day) × (stamp.day ≤ days)
  pub hour_in : hour < 24
  pub shifted : stamp.hour ≡ u32 (hour + utcoffset) % 24
  pub minute_in : stamp.minute < 60
  pub second_in : stamp.second ≤ 60

pub time_in_month_lem :
    (year month days utcoffset t : ℕ)
    → t ≤ days * seconds_per_day
    → 0 < days
    → (hour : ℕ) × (stamp : Stamp) × (time_in_month year month t utcoffset ≡ some stamp)
      × IsTime year month days utcoffset t hour stamp
unfolding time_in_month
time_in_month_lem year month days utcoffset t within some_day =
    let (r₁, day, run₁, c₁) =
      count_off_lem (t / seconds_per_day + 1) seconds_per_day t 0 (omega arith) in
    let (r₂, hour, run₂, c₂) = count_off_lem (r₁ / 3600 + 1) 3600 r₁ 0 (omega arith) in
    let (r₃, minute, run₃, c₃) = count_off_lem (r₂ / 60 + 1) 60 r₂ 0 (omega arith) in
    (
      hour,
      record {
        year = year;
        month = month + 1;
        day = day + 1;
        hour = u32 (hour + utcoffset) % 24;
        minute = minute;
        second = r₃;
      },
      rw (run₁, run₂, run₃) refl,
      fields day hour minute r₁ r₂ r₃ c₁ c₂ c₃,
    )
  where
    fields :
        (day hour minute r₁ r₂ r₃ : ℕ)
        → Counted seconds_per_day t 0 r₁ day
        → Counted 3600 r₁ 0 r₂ hour
        → Counted 60 r₂ 0 r₃ minute
        → IsTime year month days utcoffset t hour (record {
          year = year;
          month = month + 1;
          day = day + 1;
          hour = u32 (hour + utcoffset) % 24;
          minute = minute;
          second = r₃;
        })
    fields day hour minute r₁ r₂ r₃ c₁ c₂ c₃ =
        let p₁ = c₁.parts in
        let p₂ = c₂.parts in
        let p₃ = c₃.parts in
        let s₁ = c₁.small in
        let s₂ = c₂.small in
        let s₃ = c₃.small in
        let z₁ = c₁.starts in
        let z₂ = c₂.starts in
        let z₃ = c₃.starts in
        let q₁ = c₁.positive in
        let q₂ = c₂.positive in
        let q₃ = c₃.positive in
        record {
          same_year = refl;
          same_month = refl;
          parts = omega arith;
          day_in = (omega arith, ground arith);
          hour_in = ground arith;
          shifted = refl;
          minute_in = ground arith;
          second_in = s₃;
        }

-- The seconds of so many years from a year on.
abbrev pub seconds_of_years : ℕ → ℕ → ℕ
seconds_of_years year zero = 0
seconds_of_years year (suc k) = seconds_of_year year + seconds_of_years (year + 1) k

seconds_of_year_bounds :
    (year : ℕ)
    → (365 * seconds_per_day ≤ seconds_of_year year)
      × (seconds_of_year year ≤ 366 * seconds_per_day)
unfolding seconds_of_year
seconds_of_year_bounds year = ground arith

seconds_of_years_least : (year k : ℕ) → k * (365 * seconds_per_day) ≤ seconds_of_years year k
seconds_of_years_least year zero = omega arith
seconds_of_years_least year (suc k) =
    let first = (seconds_of_year_bounds year).0 in
    omega (arith, seconds_of_years_least (year + 1) k)

find_year_lem :
    (k fuel year t : ℕ)
    → k < fuel
    → year + k < 2 ^ 32
    → t < seconds_of_year (year + k)
    → find_year fuel (seconds_of_years year k + t) year ≡ some (t, year + k)
unfolding find_year
find_year_lem k zero year t few fits within = absurd (omega arith)
find_year_lem zero (suc fuel) year t few fits within =
    let here : year + 0 ≡ year = omega arith in
    let last : leb (seconds_of_year year) (0 + t) ≡ false =
      (let w : t < seconds_of_year year = rw here at within in ground arith) in
    rw (last, find_year) (ap (λ n. some (n, year)) (omega arith) ∙ ap (λ n. some (t, n)) (sym here))
find_year_lem (suc k) (suc fuel) year t few fits within =
    let next : u32 (year + 1) ≡ year + 1 = omega arith in
    let same : year + suc k ≡ year + 1 + k = omega arith in
    let more : leb (seconds_of_year year) (seconds_of_years year (suc k) + t) ≡ true =
      ground arith in
    let left : seconds_of_years year (suc k) + t - seconds_of_year year
        ≡ seconds_of_years (year + 1) k + t =
      omega arith in
    rw (more, find_year)
      (ap (λ n. find_year fuel (seconds_of_years year (suc k) + t - seconds_of_year year) n) next
        ∙ ap (λ n. find_year fuel n (year + 1)) left
        ∙ find_year_lem k fuel (year + 1) t (omega arith) (omega arith) (rw same at within)
        ∙ ap (λ n. some (t, n)) (sym same))

-- The year is found: what is left is the time in the year.
pub year_lem :
    (k t utcoffset : ℕ)
    → 1970 + k < 2 ^ 32
    → t < seconds_of_year (1970 + k)
    → unixtime_to_cstr (seconds_of_years 1970 k + t) utcoffset ≡ (
        find_month days_per_month (is_leap_year (1970 + k)) 0 t >>= λ r.
        time_in_month (1970 + k) r.1 r.0 utcoffset)
unfolding unixtime_to_cstr
year_lem k t utcoffset fits within =
    let ut : ℕ = seconds_of_years 1970 k + t in
    let enough : k < ut / (365 * seconds_per_day) + 1 =
      omega (arith, seconds_of_years_least 1970 k) in
    rw (find_year_lem k (ut / (365 * seconds_per_day) + 1) 1970 t enough fits within) refl
