-- ===== src/Stats/Totals.antt =====
-- What a measurement holds after some durations (`common/ds/src/stats.c`).
use empirical_zero_knowledge.Prelude.{
  ℕ, suc, ◌+◌, ◌-◌, ◌*◌, ◌/◌, ◌^◌, ◌<◌, ◌≤◌, ◌≡◌, ◌⊎◌, refl, sym, ap, ap₂, inl, inr, List, [], ◌∷◌,
  length, All, arith,
}
use mathlib.Core.Path.{subst}
use native.Mathlib.Nat.{
  le-div_iff_mul-le, div-le_of_le-mul, div-mul-le_self, mul_comm, mul-le-mul_right,
}
use empirical_zero_knowledge.Stats.{
  u64, Measurement, measurement_new, set_start, record_duration, measure,
}

-- Each run starts at a time and is measured at another; the last run stands first.
unfoldable pub runs : List (ℕ × ℕ) → Measurement
runs [] = measurement_new
runs ((start, duration) ∷ rs) = measure (start + duration) (set_start start (runs rs))

-- After durations, of which the sum fits: the smallest and the largest bound the average.
pub record IsStatistic (n total : ℕ) (m : Measurement) : Type 0 where
  pub counted : m.count ≡ n
  pub summed : m.total ≡ total
  pub least : m.min ≤ m.avg
  pub most : m.avg ≤ m.max
  pub below : m.avg * n ≤ total

distribute : (x n : ℕ) → x * (n + 1) ≡ x * n + x
distribute x n = grind arith

average_bounds :
    (lo hi avg d n : ℕ)
    → lo * n ≤ avg * n
    → avg * n ≤ hi * n
    → lo ≤ d
    → d ≤ hi
    → (lo ≤ (avg * n + d) / (n + 1))
      × ((avg * n + d) / (n + 1) ≤ hi)
      × ((avg * n + d) / (n + 1) * (n + 1) ≤ avg * n + d)
average_bounds lo hi avg d n a b c e =
    let pos : 0 < n + 1 = omega arith in
    (
      (le-div_iff_mul-le pos).1 (omega (arith, distribute lo n)),
      div-le_of_le-mul (n + 1) (omega (arith, distribute hi n, mul_comm (n + 1) hi)),
      div-mul-le_self (avg * n + d) (n + 1),
    )

scaled : (x y n : ℕ) → (n ≡ 0) ⊎ (x ≤ y) → x * n ≤ y * n
scaled x y n (inl none_yet) = omega (arith, ap (λ k. x * k) none_yet, ap (λ k. y * k) none_yet)
scaled x y n (inr le) = mul-le-mul_right n le

-- One more duration.
module _ (n total d : ℕ) (m : Measurement) (i : IsStatistic n total m)
    (some_min : (n ≡ 0) ⊎ (0 < m.min)) (pos : 0 < d) (less : n ≤ total)
    (small : total + d < 2 ^ 64) where
  low_bound :
      ((record_duration d m).min ≤ d)
      × ((n ≡ 0) ⊎ ((record_duration d m).min ≤ m.avg))
      × (0 < (record_duration d m).min)
  unfolding record_duration
  low_bound = (
    ground arith,
    elim some_min [ inl e ↦ inl e | inr h ↦ inr (ground (arith, i.least)) ],
    ground arith,
  )

  high_bound : (d ≤ (record_duration d m).max) × (m.avg ≤ (record_duration d m).max)
  unfolding record_duration
  high_bound = (ground arith, ground (arith, i.most))

  average_lem : (record_duration d m).avg ≡ (m.avg * n + d) / (n + 1)
  unfolding record_duration
  average_lem =
      let product : m.avg * m.count ≡ m.avg * n = ap (λ k. m.avg * k) i.counted in
      let above : u64 (u64 (m.avg * m.count) + d) ≡ m.avg * n + d =
        omega (arith, product, i.below) in
      let under : u64 (m.count + 1) ≡ n + 1 = omega (arith, i.counted) in ap₂ ◌/◌ above under

  step : IsStatistic (n + 1) (total + d) (record_duration d m)
  step =
      let lo = (record_duration d m).min in
      let hi = (record_duration d m).max in
      let bounds =
        average_bounds lo hi m.avg d n (scaled lo m.avg n low_bound.1)
          (scaled m.avg hi n (inr high_bound.1)) low_bound.0 high_bound.0 in
      record {
        counted = unfold record_duration in omega (arith, i.counted);
        summed = unfold record_duration in omega (arith, i.summed);
        least = subst (λ a. lo ≤ a) (sym average_lem) bounds.0;
        most = subst (λ a. a ≤ hi) (sym average_lem) bounds.1;
        below =
            subst (λ a. a * (n + 1) ≤ total + d) (sym average_lem)
              (omega (arith, bounds.2, i.below));
      }

-- A run of the clock: the duration is not 0, and the end fits in 64 bits.
abbrev pub IsRun : ℕ × ℕ → Type 0
IsRun r = (0 < r.1) × (r.0 + r.1 < 2 ^ 64)

unfoldable pub durations : List (ℕ × ℕ) → ℕ
durations [] = 0
durations (r ∷ rs) = durations rs + r.1

measure_lem :
    (start duration : ℕ) (m : Measurement)
    → start + duration < 2 ^ 64
    → measure (start + duration) (set_start start m) ≡ record_duration duration m
unfolding measure set_start record_duration
measure_lem start duration m small =
    let same : u64 (start + duration + 2 ^ 64 - start) ≡ duration = omega arith in rw same refl

runs_lem :
    (rs : List (ℕ × ℕ))
    → All IsRun rs
    → durations rs < 2 ^ 64
    → IsStatistic (length rs) (durations rs) (runs rs)
      × ((length rs ≡ 0) ⊎ (0 < (runs rs).min))
      × (length rs ≤ durations rs)
unfolding runs durations
runs_lem [] good small = (
  unfold measurement_new in
      record {
        counted = refl;
        summed = refl;
        least = omega arith;
        most = omega arith;
        below = omega arith;
      },
  inl refl,
  omega arith,
)
runs_lem ((start, duration) ∷ rs) good small =
    let (before, some_min, less) = runs_lem rs good.1 (omega arith) in
    let n = length rs in
    let same = measure_lem start duration (runs rs) good.0.1 in
    let next : n + 1 ≡ suc n = omega arith in
    let after = step n (durations rs) duration (runs rs) before some_min good.0.0 less small in
    let low = low_bound n (durations rs) duration (runs rs) before some_min good.0.0 less small in
    (
      subst (λ m. IsStatistic (suc n) (durations rs + duration) m) (sym same)
          (subst (λ k. IsStatistic k (durations rs + duration) (record_duration duration (runs rs)))
            next after),
      inr (subst (λ (m : Measurement). 0 < m.min) (sym same) low.2),
      omega (arith, less, good.0.0),
    )

-- After runs of the clock of some duration, of which the sum is below `2 ^ 64`, a measurement has their
-- number and the sum of their durations, its average lies between its minimum and its maximum, and
-- the average times the number is at most the sum.
pub runs-IsStatistic :
    (rs : List (ℕ × ℕ))
    → All IsRun rs
    → durations rs < 2 ^ 64
    → IsStatistic (length rs) (durations rs) (runs rs)
runs-IsStatistic rs good small = (runs_lem rs good small).0
