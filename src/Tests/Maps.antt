-- ===== src/Tests/Maps.antt =====
-- The hash map with the address hash, and the table of descriptors.
use empirical_zero_knowledge.Prelude.{
  ℕ, ◌≡◌, Bool, true, false, some, if◌then◌else◌, arith, List, ◌∷◌, [],
}
use empirical_zero_knowledge.HashMap
use empirical_zero_knowledge.HashMap.{HashMap, is_eq}
use empirical_zero_knowledge.HashMap.Laws.{fresh, get-put, contains-put, length-put}
use empirical_zero_knowledge.HashMap.Size.{contains-rem-put}
use empirical_zero_knowledge.HashMap.Keys.{elem, elem-get_keys, IsPlaced-fresh, IsPlaced-put}
use empirical_zero_knowledge.Circuit.Hashed.{
  locate_hash, locate_cmp, locate_cmp-Compares, is_eq-locate_cmp,
}
use empirical_zero_knowledge.Osal.Descriptors.{Call, open_fd, close_fd}

abbrev empty : HashMap ℕ Bool
empty = fresh Bool locate_hash locate_cmp 7

get-put_example :
    HashMap.get locate_hash locate_cmp (HashMap.put locate_hash locate_cmp empty 5 (some true)) 5
    ≡ (if is_eq (locate_cmp 5 5) then some true else HashMap.get locate_hash locate_cmp empty 5)
get-put_example = get-put locate_hash locate_cmp locate_cmp-Compares empty (omega arith) 5 5 true

abbrev with_five : HashMap ℕ Bool
with_five = HashMap.put locate_hash locate_cmp empty 5 (some true)

elem-get_keys_example :
    elem locate_cmp 5 (HashMap.get_keys with_five)
    ≡ HashMap.contains locate_hash locate_cmp with_five 5
elem-get_keys_example = elem-get_keys locate_hash locate_cmp locate_cmp-Compares with_five 5 (
    IsPlaced-put locate_hash locate_cmp locate_cmp-Compares empty 5 true
      (IsPlaced-fresh Bool locate_hash locate_cmp 7))

with_five-contains : HashMap.contains locate_hash locate_cmp with_five 5 ≡ true
with_five-contains = rw (
  contains-put locate_hash locate_cmp locate_cmp-Compares empty (omega arith) 5 5 true,
  is_eq-locate_cmp 5 5,
)

contains-rem-put_example :
    let m' = HashMap.put locate_hash locate_cmp with_five 5 (some false) in
    HashMap.contains locate_hash locate_cmp (HashMap.rem locate_hash locate_cmp m' 5).1 5 ≡ true
contains-rem-put_example =
    contains-rem-put locate_hash locate_cmp locate_cmp-Compares with_five 5 false
      (rw (length-put locate_hash locate_cmp empty 5 true) (omega arith)) with_five-contains

abbrev reopened : List Call
reopened = close_fd 1 ∷ open_fd 11 ∷ open_fd 10 ∷ []
