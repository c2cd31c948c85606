-- ===== src/Stats.antt =====
-- Measurements of run times (`common/ds/src/stats.c`). The time in nanoseconds is an argument. The
-- counters are unsigned numbers of 64 bits; the name of a measurement is the list of its characters,
-- without the zero byte. The locks are left out: an operation holds one all along.
pub mod Totals
use empirical_zero_knowledge.Prelude.{
  ℕ, zero, suc, ◌+◌, ◌-◌, ◌*◌, ◌/◌, ◌%◌, ◌^◌, Ordering, Bool, true, false, Option, none, some,
  ◌>>=◌, List, [], ◌∷◌, ◌++◌, length, ltb, ◌==◌, if◌then◌else◌, u32,
}
use empirical_zero_knowledge.HashMap
use empirical_zero_knowledge.HashMap.{HashMap}
use empirical_zero_knowledge.Options.{extended, compare_fn}

abbrev pub u64 : ℕ → ℕ
u64 n = n % 2 ^ 64

-- The loop of `str_hash` from index 1 on.
str_hash_loop : List ℕ → ℕ → ℕ
str_hash_loop [] res = res
str_hash_loop (c ∷ s) res = str_hash_loop s (u32 (res + (101 * extended c + 65537)))

-- The first character is passed over; behind that of the empty string the code reads on, so the empty
-- string has no hash here.
unfoldable pub str_hash : List ℕ → Option ℕ
unfolding str_hash_loop
str_hash [] = none
str_hash (c ∷ s) = some (str_hash_loop s 0)

pub record Measurement : Type 0 where
  pub start : ℕ
  pub min : ℕ
  pub max : ℕ
  pub avg : ℕ
  pub count : ℕ
  pub total : ℕ

-- `Measurement_New`; `getmem` gives zeroed memory, so `total` is 0 too.
unfoldable pub measurement_new : Measurement
measurement_new = record { start = 0; min = 0; max = 0; avg = 0; count = 0; total = 0 }

unfoldable pub set_start : ℕ → Measurement → Measurement
set_start now m = record m { start = now }

-- `measure`, with the duration since the start; a minimum of 0 stands for none.
unfoldable pub record_duration : ℕ → Measurement → Measurement
record_duration duration m =
    let lowest = if m.min == 0 then duration else m.min in
    record {
      start = 0;
      min = if ltb duration lowest then duration else lowest;
      max = if ltb m.max duration then duration else m.max;
      avg = u64 (u64 (m.avg * m.count) + duration) / u64 (m.count + 1);
      count = u64 (m.count + 1);
      total = u64 (m.total + duration);
    }

unfoldable pub measure : ℕ → Measurement → Measurement
unfolding record_duration
measure now m = record_duration (u64 (now + 2 ^ 64 - m.start)) m

-- Null is below every other string.
unfoldable pub str_compare : Option (List ℕ) → Option (List ℕ) → Ordering
str_compare none none = Ordering.eq
str_compare none (some b) = Ordering.lt
str_compare (some a) none = Ordering.gt
str_compare (some a) (some b) = compare_fn a b

-- The statistics, once `init_stats` has run: a map from names to measurements, which are given by
-- their places in a list, as the map holds pointers.
pub record Statistics : Type 0 where
  pub sub : HashMap (List ℕ) ℕ
  pub measurements : List Measurement

unfoldable pub init_stats : Option Statistics
unfolding HashMap.new
init_stats = HashMap.new 128 >>= λ m. some (record { sub = m; measurements = [] })

abbrev compare_names : List ℕ → List ℕ → Ordering
compare_names a b = str_compare (some a) (some b)

-- The measurement of a name, which is made if there is none.
unfoldable pub measurements_get : Statistics → List ℕ → Option (Statistics × ℕ)
unfolding str_hash str_compare measurement_new HashMap.get HashMap.put compare_fn
measurements_get s name = do
  h ← str_hash name
  let hash : List ℕ → ℕ = λ n. elim (str_hash n) [ none ↦ 0 | some k ↦ k ]
  let fresh = length s.measurements
  elim (HashMap.get hash compare_names s.sub name) [
    | some place ↦ some (s, place)
    | none ↦ some (
      record {
        sub = HashMap.put hash compare_names s.sub name (some fresh);
        measurements = s.measurements ++ measurement_new ∷ [];
      },
      fresh,
    )
  ]

unfoldable pub update_at : ℕ → (Measurement → Measurement) → List Measurement → List Measurement
update_at i f [] = []
update_at zero f (m ∷ ms) = f m ∷ ms
update_at (suc i) f (m ∷ ms) = m ∷ update_at i f ms

-- The measurement of the name starts now.
unfoldable pub measurements_start : ℕ → Statistics → List ℕ → Option (Statistics × ℕ)
unfolding measurements_get update_at set_start
measurements_start now s name = do
  found ← measurements_get s name
  let s' = found.0
  some (record s' { measurements = update_at found.1 (set_start now) s'.measurements }, found.1)

-- A measurement that is there is measured and started again; the times of the two calls may differ.
unfoldable pub measurements_chk : ℕ → ℕ → Statistics → List ℕ → Option (Statistics × ℕ)
unfolding measurements_get update_at set_start measure
measurements_chk now later s name = do
  found ← measurements_get s name
  let s' = found.0
  some (
    record s' {
      measurements =
          update_at found.1
            (if ltb found.1 (length s.measurements)
              then (λ m. set_start later (measure now m))
              else (λ m. set_start later m))
            s'.measurements;
    },
    found.1,
  )
