-- ===== src/Tests/Measurements.antt =====
-- Command line options (`common/utils/src/utils/options.c`) and measurements (`common/ds/src/stats.c`)
-- at concrete inputs.
use empirical_zero_knowledge.Prelude.{ℕ, ◌>>=◌, ◌≡◌, refl, none, some, List, [], ◌∷◌, arith}
use empirical_zero_knowledge.HashMap
use empirical_zero_knowledge.Options.{Options, is_dash, hash_fn, compare_fn, options_new}
use empirical_zero_knowledge.Options.Lookup.{pairs, last_value, get-options_new}
use empirical_zero_knowledge.Stats.{init_stats, measurements_chk}
use empirical_zero_knowledge.Stats.Totals.{IsStatistic, runs, durations, runs-IsStatistic}

-- -p 80 -v -p 90
abbrev arguments : List (List ℕ)
arguments =
    (45 ∷ 112 ∷ []) ∷ (56 ∷ 48 ∷ []) ∷ (45 ∷ 118 ∷ []) ∷ (45 ∷ 112 ∷ []) ∷ (57 ∷ 48 ∷ []) ∷ []

last_port : last_value (112 ∷ []) (pairs arguments) none ≡ some (57 ∷ 48 ∷ [])
unfolding last_value pairs is_dash compare_fn
last_port = refl

get-options_new_example :
    (m : Options) × (options_new arguments ≡ some m)
    × (HashMap.get hash_fn compare_fn m (118 ∷ []) ≡ last_value (118 ∷ []) (pairs arguments) none)
get-options_new_example = get-options_new arguments (118 ∷ [])

runs-IsStatistic_example :
    IsStatistic 2 (durations ((10, 5) ∷ (20, 4) ∷ [])) (runs ((10, 5) ∷ (20, 4) ∷ []))
unfolding durations
runs-IsStatistic_example = runs-IsStatistic ((10, 5) ∷ (20, 4) ∷ []) (omega arith) (omega arith)

-- A name that is measured twice has one measurement: three nanoseconds between the two calls.
measured_twice :
    (init_stats >>= λ s.
    measurements_chk 5 5 s (97 ∷ []) >>= λ r. measurements_chk 8 9 r.0 (97 ∷ []))
      >>= (λ r. some r.0.measurements)
    ≡ some (record { start = 9; min = 3; max = 3; avg = 3; count = 1; total = 3 } ∷ [])
unfolding init_stats measurements_chk
measured_twice = refl
