-- ===== src/HashMap.antt =====
-- The chained hash map of `common/ds/src/hashmap.c` and `map.c`. The hash and compare functions
-- are parameters, as in `HashMap_new`; a compare function answers `eq` where the code answers 0.
-- A bucket is the list of its entries; `lbuckets` is the number of buckets. Allocation succeeds.
pub mod Chain
pub mod Laws
pub mod Keys
pub mod Size
use empirical_zero_knowledge.Prelude.{
  ℕ, zero, suc, ◌+◌, ◌%◌, Ordering, Bool, true, false, ◌||◌, Option, none, some, List, [], ◌∷◌,
  ◌++◌, map, if◌then◌else◌, length, get_or, set, replicate,
}

abbrev pub is_eq : Ordering → Bool
is_eq o = elim o [ Ordering.eq ↦ true | _ ↦ false ]

pub record HashMap (K V : Type 0) : Type 0 where
  pub buckets : List (List (K × V))

-- `HashMap_new` refuses a count of 0.
unfoldable pub new : {K V : Type 0} → ℕ → Option (HashMap K V)
new zero = none
new (suc n) = some (record { buckets = replicate (suc n) [] })

unfoldable pub size_of : {E : Type 0} → List (List E) → ℕ
size_of [] = 0
size_of (b ∷ bs) = length b + size_of bs

unfoldable pub keys_of : {K V : Type 0} → List (List (K × V)) → List K
keys_of [] = []
keys_of (b ∷ bs) = map (λ e. e.0) b ++ keys_of bs

-- `Map_size`
unfoldable pub size : {K V : Type 0} → HashMap K V → ℕ
unfolding size_of
size m = size_of m.buckets

-- `Map_get_keys`
unfoldable pub get_keys : {K V : Type 0} → HashMap K V → List K
unfolding keys_of
get_keys m = keys_of m.buckets

module _ {K V : Type 0} (cfn : K → K → Ordering) where
  -- The loops over one bucket: read, test, overwrite every match, remove the first match.
  unfoldable pub find : K → List (K × V) → Option V
  find key [] = none
  find key (e ∷ es) = if is_eq (cfn e.0 key) then some e.1 else find key es

  unfoldable pub has : K → List (K × V) → Bool
  has key [] = false
  has key (e ∷ es) = is_eq (cfn e.0 key) || has key es

  unfoldable pub assign : K → V → List (K × V) → List (K × V)
  assign key elm [] = []
  assign key elm (e ∷ es) = (if is_eq (cfn e.0 key) then (e.0, elm) else e) ∷ assign key elm es

  unfoldable pub erase : K → List (K × V) → List (K × V)
  erase key [] = []
  erase key (e ∷ es) = if is_eq (cfn e.0 key) then es else e ∷ erase key es

module _ {K V : Type 0} (hfn : K → ℕ) (cfn : K → K → Ordering) where
  abbrev pub bucket_of : HashMap K V → K → ℕ
  bucket_of m key = hfn key % length m.buckets

  abbrev pub chain_of : HashMap K V → K → List (K × V)
  chain_of m key = get_or m.buckets (bucket_of m key) []

  abbrev pub with_chain : HashMap K V → K → List (K × V) → HashMap K V
  with_chain m key es = record m { buckets = set m.buckets (bucket_of m key) es }

  -- `Map_put`: a null element is refused; matches are overwritten, and the new entry is added
  -- to the bucket in every case.
  unfoldable pub put : HashMap K V → K → Option V → HashMap K V
  unfolding assign
  put m key none = m
  put m key (some elm) = with_chain m key (assign cfn key elm (chain_of m key) ++ (key, elm) ∷ [])

  unfoldable pub get : HashMap K V → K → Option V
  unfolding find
  get m key = find cfn key (chain_of m key)

  unfoldable pub contains : HashMap K V → K → Bool
  unfolding has
  contains m key = has cfn key (chain_of m key)

  -- `Map_rem`: the first match goes, and its element is returned.
  unfoldable pub rem : HashMap K V → K → Option V × HashMap K V
  unfolding find erase has
  rem m key =
      let es = chain_of m key in
      if has cfn key es then (find cfn key es, with_chain m key (erase cfn key es)) else (none, m)
