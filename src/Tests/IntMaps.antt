-- ===== src/Tests/IntMaps.antt =====
-- A map with integer keys in which two keys share a bucket.
use empirical_zero_knowledge.Prelude.{◌+◌, ◌^◌, List, some, ◌≡◌, refl, not, ◌∷◌, [], ◌==◌}
use empirical_zero_knowledge.IntKeyMap.{
  int_hash_fn, new, put, get, rem, contains, keys, present, elm_of, put_entry, drop_entry,
}
use empirical_zero_knowledge.IntKeyMap.History.{
  Call, put_call, rem_call, map_after, found, or_zero, get-map_after,
}

same_bucket : int_hash_fn 18 ≡ int_hash_fn 1
unfolding int_hash_fn
same_bucket = refl

put_twice : get 1 (put 1 8 (put 1 5 new)) ≡ 5
unfolding get put new int_hash_fn put_entry present elm_of
put_twice = refl

rem_first : (rem 1 (put 18 9 (put 1 5 new))).0 ≡ 5
unfolding rem put new int_hash_fn put_entry present elm_of drop_entry
rem_first = refl

keys_two : keys (put 18 9 (put 1 5 new)) ≡ 1 ∷ 18 ∷ []
unfolding keys put new int_hash_fn put_entry present
keys_two = refl

abbrev history : List Call
history = put_call 1 8 ∷ rem_call 1 ∷ put_call 18 9 ∷ put_call 1 5 ∷ []

get-map_after_example :
    (get (2 ^ 32 + 1) (map_after history) ≡ or_zero (found history 1))
    × ((rem (2 ^ 32 + 1) (map_after history)).0 ≡ or_zero (found history 1))
    × (contains (2 ^ 32 + 1) (map_after history) ≡ not (or_zero (found history 1) == 0))
get-map_after_example = get-map_after history (2 ^ 32 + 1)

found_again : found history 1 ≡ some 8
unfolding found
found_again = refl
