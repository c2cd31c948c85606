-- ===== src/Options.antt =====
-- The options of a command line (`common/utils/src/utils/options.c`): a hash map from the names of
-- options to their values. A C string is the list of its characters as bytes, without the zero byte.
pub mod Lookup
use empirical_zero_knowledge.Prelude.{
  ℕ, ◌+◌, ◌-◌, ◌*◌, ◌%◌, ◌^◌, Ordering, Bool, true, false, Option, none, some, ◌>>=◌, List, [], ◌∷◌,
  ltb, ◌==◌, if◌then◌else◌, u32,
}
use empirical_zero_knowledge.HashMap
use empirical_zero_knowledge.HashMap.{HashMap}

-- A `char` is signed: as a number modulo `2 ^ 32`, and for an order.
abbrev pub extended : ℕ → ℕ
extended c = if ltb c 128 then c else c + (2 ^ 32 - 256)

abbrev pub signed_order : ℕ → ℕ
signed_order c = if ltb c 128 then c + 128 else if ltb c 256 then c - 128 else c

-- The loop of `hash_fn`; a product that does not fit in an `int` is taken modulo `2 ^ 32`.
hash_loop : List ℕ → ℕ → ℕ
hash_loop [] res = res
hash_loop (c ∷ s) res = hash_loop s (u32 (res + 2147483647 * extended c))

unfoldable pub hash_fn : List ℕ → ℕ
unfolding hash_loop
hash_fn s = hash_loop s 524287

-- The first characters that differ decide, and where one string ends, its length does.
unfoldable pub compare_fn : List ℕ → List ℕ → Ordering
compare_fn [] [] = Ordering.eq
compare_fn [] (b ∷ bs) = Ordering.lt
compare_fn (a ∷ as') [] = Ordering.gt
compare_fn (a ∷ as') (b ∷ bs) =
    let rest = compare_fn as' bs in
    if ltb (signed_order a) (signed_order b)
    then Ordering.lt
    else if ltb (signed_order b) (signed_order a)
    then Ordering.gt
    else rest

-- `s[0] == '-'`
unfoldable pub is_dash : List ℕ → Bool
is_dash [] = false
is_dash (c ∷ s) = c == b'-'

abbrev pub name_of : List ℕ → List ℕ
name_of [] = []
name_of (c ∷ s) = s

abbrev pub Options : Type 0
Options = HashMap (List ℕ) (List ℕ)

abbrev pub put_option : Options → List ℕ → List ℕ → Options
put_option m key val = HashMap.put hash_fn compare_fn m key (some val)

-- The loop of `Options_New`. An argument behind an option is its value, unless it starts with a dash.
unfoldable pub options_loop : List (List ℕ) → Options → Options
unfolding hash_fn compare_fn is_dash
options_loop [] m = m
options_loop (arg ∷ []) m = if is_dash arg then put_option m (name_of arg) [] else m
options_loop (arg ∷ next ∷ args) m =
    let with_value = options_loop args (put_option m (name_of arg) next) in
    let without_value = options_loop (next ∷ args) (put_option m (name_of arg) []) in
    let no_option = options_loop (next ∷ args) m in
    if is_dash arg then (if is_dash next then without_value else with_value) else no_option

unfoldable pub options_new : List (List ℕ) → Option Options
unfolding options_loop
options_new args = HashMap.new 8 >>= λ m. some (options_loop args m)
