-- ===== src/Options/Lookup.antt =====
-- What the map of options holds (`common/utils/src/utils/options.c`).
use empirical_zero_knowledge.Prelude.{
  ℕ, ◌≡◌, refl, ap, ◌∙◌, Bool, true, false, Bool-cases, inl, inr, Option, none, some, List, [], ◌∷◌,
  ltb, if◌then◌else◌, arith,
}
use empirical_zero_knowledge.HashMap
use empirical_zero_knowledge.HashMap.{HashMap, is_eq}
use empirical_zero_knowledge.HashMap.Chain.{Compares}
use empirical_zero_knowledge.HashMap.Laws.{HasBuckets, fresh, get-fresh, get-put, length-put}
use empirical_zero_knowledge.Options.{
  signed_order, hash_fn, compare_fn, is_dash, name_of, Options, put_option, options_loop,
  options_new,
}

-- The options of a command line, with their values, in order.
unfoldable pub pairs : List (List ℕ) → List (List ℕ × List ℕ)
pairs [] = []
pairs (arg ∷ []) = if is_dash arg then (name_of arg, []) ∷ [] else []
pairs (arg ∷ next ∷ args) =
    let with_value = (name_of arg, next) ∷ pairs args in
    let without_value = (name_of arg, []) ∷ pairs (next ∷ args) in
    let no_option = pairs (next ∷ args) in
    if is_dash arg then (if is_dash next then without_value else with_value) else no_option

abbrev same : List ℕ → List ℕ → Bool
same a b = is_eq (compare_fn a b)

-- The value of the last pair with the key, or else `found`.
unfoldable pub last_value : List ℕ → List (List ℕ × List ℕ) → Option (List ℕ) → Option (List ℕ)
last_value key [] found = found
last_value key (p ∷ ps) found = last_value key ps (if same p.0 key then some p.1 else found)

get-put_option :
    (m : Options) (key val j : List ℕ)
    → Compares compare_fn
    → HasBuckets m
    → HashMap.get hash_fn compare_fn (put_option m key val) j
      ≡ (if same key j then some val else HashMap.get hash_fn compare_fn m j)
get-put_option m key val j cmp pos = get-put hash_fn compare_fn cmp m pos key j val

buckets : (m : Options) (key val : List ℕ) → HasBuckets m → HasBuckets (put_option m key val)
buckets m key val pos = rw (length-put hash_fn compare_fn m key val) pos

compare_refl : (a : List ℕ) → is_eq (compare_fn a a) ≡ true
unfolding compare_fn
compare_refl [] = refl
compare_refl (x ∷ xs) =
    let no_less : ltb (signed_order x) (signed_order x) ≡ false = ground arith in
    rw no_less (compare_refl xs)

compare_sound : (a b : List ℕ) → is_eq (compare_fn a b) ≡ true → a ≡ b
unfolding compare_fn
compare_sound [] [] h = refl
compare_sound [] (y ∷ ys) h = absurd (cc)
compare_sound (x ∷ xs) [] h = absurd (cc)
compare_sound (x ∷ xs) (y ∷ ys) h = ground (arith, compare_sound xs ys)

compare_fn-Compares : Compares compare_fn
compare_fn-Compares a b = (compare_sound a b, λ e. rw e (compare_refl b))

get-options_loop :
    (cmp : Compares compare_fn) (args : List (List ℕ)) (m : Options) (j : List ℕ)
    → HasBuckets m
    → HashMap.get hash_fn compare_fn (options_loop args m) j
      ≡ last_value j (pairs args) (HashMap.get hash_fn compare_fn m j)
unfolding options_loop pairs last_value
get-options_loop cmp [] m j pos = refl
get-options_loop cmp (arg ∷ []) m j pos = elim (Bool-cases (is_dash arg)) [
  | inl d ↦ rw d (get-put_option m (name_of arg) [] j cmp pos)
  | inr d ↦ rw d refl
]
get-options_loop cmp (arg ∷ next ∷ args) m j pos = elim (Bool-cases (is_dash arg)) [
  | inl d ↦ elim (Bool-cases (is_dash next)) [
    | inl e ↦
        let m' = put_option m (name_of arg) [] in
        rw (d, e)
          (get-options_loop cmp (next ∷ args) m' j (buckets m (name_of arg) [] pos)
            ∙ ap (last_value j (pairs (next ∷ args))) (get-put_option m (name_of arg) [] j cmp pos))
    | inr e ↦
        let m' = put_option m (name_of arg) next in
        rw (d, e)
          (get-options_loop cmp args m' j (buckets m (name_of arg) next pos)
            ∙ ap (last_value j (pairs args)) (get-put_option m (name_of arg) next j cmp pos))
  ]
  | inr d ↦ rw (d, options_loop, pairs) (get-options_loop cmp (next ∷ args) m j pos)
]

-- After the options of a command line are read, every name has the value of its last occurrence
-- among the options, the empty text for an option with no value, and none if it does not occur.
pub get-options_new :
    (args : List (List ℕ)) (name : List ℕ)
    → (m : Options) × (options_new args ≡ some m)
      × (HashMap.get hash_fn compare_fn m name ≡ last_value name (pairs args) none)
unfolding options_new
get-options_new args name =
    let empty : Options = fresh (List ℕ) hash_fn compare_fn 7 in
    (
      options_loop args empty,
      unfold HashMap.new in refl,
      get-options_loop compare_fn-Compares args empty name (omega arith)
          ∙ ap (last_value name (pairs args)) (get-fresh (List ℕ) hash_fn compare_fn 7 name),
    )
