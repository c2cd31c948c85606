-- ===== src/HashMap/Laws.antt =====
-- The map's operations on the keys that it holds.
use empirical_zero_knowledge.Prelude.{
  ℕ, zero, suc, ◌+◌, ◌%◌, ◌≤◌, ◌<◌, Ordering, ◌≡◌, refl, true, false, not, ◌&&◌, ◌||◌, none, some,
  List, [], if◌then◌else◌, ◌==◌, ==_iff, length, get_or, replicate, length-set, get_or-set, arith,
  Bool-cases, inl, inr,
}
use empirical_zero_knowledge.HashMap.{
  HashMap, is_eq, find, has, bucket_of, chain_of, with_chain, put, get, contains, rem,
}
use empirical_zero_knowledge.HashMap.Chain.{
  Compares, count, find-append-assign, has-append-assign, has-erase, count-append-assign,
  count-erase-le,
}

abbrev pub HasBuckets : {K V : Type 0} → HashMap K V → Type 0
HasBuckets m = 0 < length m.buckets

get_or-replicate {ℓ} : {A : Type ℓ} (n i : ℕ) (d : A) → get_or (replicate n d) i d ≡ d
get_or-replicate zero i d = refl
get_or-replicate (suc n) zero d = refl
get_or-replicate (suc n) (suc i) d = get_or-replicate n i d

module _ {K V : Type 0} (hfn : K → ℕ) (cfn : K → K → Ordering) where
  -- Every key has at most one entry.
  abbrev pub IsUnique : HashMap K V → Type 0
  IsUnique m = (j : K) → count cfn j (chain_of hfn cfn m j) ≤ 1

module _ {K : Type 0} (V : Type 0) (hfn : K → ℕ) (cfn : K → K → Ordering) (n : ℕ) where
  abbrev pub fresh : HashMap K V
  fresh = record { buckets = replicate (suc n) [] }

  pub contains-fresh : (k : K) → contains hfn cfn fresh k ≡ false
  unfolding contains has
  contains-fresh k =
      rw (get_or-replicate {A = List (K × V)} (suc n) (hfn k % length fresh.buckets) [])

  pub get-fresh : (k : K) → get hfn cfn fresh k ≡ none
  unfolding get find
  get-fresh k = rw (get_or-replicate {A = List (K × V)} (suc n) (hfn k % length fresh.buckets) [])

  pub IsUnique-fresh : IsUnique hfn cfn fresh
  unfolding count
  IsUnique-fresh k =
      rw (get_or-replicate {A = List (K × V)} (suc n) (hfn k % length fresh.buckets) [])
        (omega arith)

module _ {K V : Type 0} (hfn : K → ℕ) (cfn : K → K → Ordering) (m : HashMap K V) (k : K) where
  pub chain_of-with_chain :
      (j : K) (es : List (K × V))
      → HasBuckets m
      → chain_of hfn cfn (with_chain hfn cfn m k es) j
        ≡ (if bucket_of hfn cfn m j == bucket_of hfn cfn m k then es else chain_of hfn cfn m j)
  chain_of-with_chain j es pos = rw length-set (
      get_or-set m.buckets (hfn k % length m.buckets) (hfn j % length m.buckets) es []
        (omega arith))

  -- A map keeps its number of buckets.
  pub length-put : (v : V) → length (put hfn cfn m k (some v)).buckets ≡ length m.buckets
  unfolding put
  length-put v = length-set m.buckets _ _

  pub length-rem : length (rem hfn cfn m k).1.buckets ≡ length m.buckets
  unfolding rem
  length-rem = elim (Bool-cases (has cfn k (chain_of hfn cfn m k))) [
    | inl e ↦ rw e (length-set m.buckets _ _)
    | inr e ↦ rw e
  ]

module _ {K V : Type 0} (hfn : K → ℕ) (cfn : K → K → Ordering) (cmp : Compares cfn)
    (m : HashMap K V) (pos : HasBuckets m) (k : K) where
  same_bucket : (j : K) → is_eq (cfn k j) ≡ true → bucket_of hfn cfn m j ≡ bucket_of hfn cfn m k
  same_bucket j e = rw ((cmp k j).0 e)

  chain-same :
      (j : K)
      → (bucket_of hfn cfn m j == bucket_of hfn cfn m k) ≡ true
      → chain_of hfn cfn m j ≡ chain_of hfn cfn m k
  chain-same j e = rw ((==_iff _ _).0 e)

  -- A read after a write gives the new element at that key and the old result at any other, in a
  -- map with at least one bucket, for a compare function that answers 0 exactly at equal keys.
  pub get-put :
      (j : K) (v : V)
      → get hfn cfn (put hfn cfn m k (some v)) j
        ≡ (if is_eq (cfn k j) then some v else get hfn cfn m j)
  unfolding get put
  get-put j v = rw (chain_of-with_chain hfn cfn m k j _ pos) (
      ground (
        arith,
        same_bucket j,
        chain-same j,
        find-append-assign cfn cmp k j v (chain_of hfn cfn m k),
      ))

  pub contains-put :
      (j : K) (v : V)
      → contains hfn cfn (put hfn cfn m k (some v)) j ≡ (is_eq (cfn k j) || contains hfn cfn m j)
  unfolding contains put
  contains-put j v = rw (chain_of-with_chain hfn cfn m k j _ pos) (
      ground (
        arith,
        same_bucket j,
        chain-same j,
        has-append-assign cfn cmp k j v (chain_of hfn cfn m k),
      ))

  pub count-put :
      (j : K) (v : V)
      → let m' = put hfn cfn m k (some v) in
        count cfn j (chain_of hfn cfn m' j)
        ≡ count cfn j (chain_of hfn cfn m j) + (if is_eq (cfn k j) then 1 else 0)
  unfolding put
  count-put j v = rw (chain_of-with_chain hfn cfn m k j _ pos) (
      ground (
        arith,
        same_bucket j,
        chain-same j,
        count-append-assign cfn cmp k j v (chain_of hfn cfn m k),
      ))

  -- If each key has at most one entry, a removal takes that key and no other, in a map with at
  -- least one bucket, for a compare function that answers 0 exactly at equal keys.
  pub contains-rem :
      (j : K)
      → IsUnique hfn cfn m
      → contains hfn cfn (rem hfn cfn m k).1 j ≡ (contains hfn cfn m j && not (is_eq (cfn k j)))
  unfolding contains rem
  contains-rem j unique = elim (Bool-cases (has cfn k (chain_of hfn cfn m k))) [
    | inl e ↦
        rw (e, chain_of-with_chain hfn cfn m k j _ pos)
          (ground (
            arith,
            same_bucket j,
            chain-same j,
            has-erase cfn cmp k j (chain_of hfn cfn m k),
            unique k,
          ))
    | inr e ↦ rw e (absent e)
  ]
    where
      absent :
          has cfn k (chain_of hfn cfn m k) ≡ false
          → has cfn j (chain_of hfn cfn m j)
            ≡ (has cfn j (chain_of hfn cfn m j) && not (is_eq (cfn k j)))
      absent e = elim (Bool-cases (is_eq (cfn k j))) [
        | inl s ↦ let p = (cmp k j).0 s in rw (← p, e)
        | inr s ↦ rw s (ground arith)
      ]

  pub IsUnique-rem : IsUnique hfn cfn m → IsUnique hfn cfn (rem hfn cfn m k).1
  unfolding rem
  IsUnique-rem unique j = elim (Bool-cases (has cfn k (chain_of hfn cfn m k))) [
    | inl e ↦
        rw (e, chain_of-with_chain hfn cfn m k j _ pos)
          (ground
            (arith, chain-same j, count-erase-le cfn cmp k j (chain_of hfn cfn m k), unique j))
    | inr e ↦ rw e (unique j)
  ]
