-- ===== src/HashMap/Size.antt =====
-- The number of entries after each operation.
use empirical_zero_knowledge.Prelude.{
  ℕ, zero, suc, ◌+◌, ◌%◌, ◌≤◌, ◌<◌, Ordering, ◌≡◌, refl, true, some, List, [], ◌∷◌, ◌++◌, map,
  if◌then◌else◌, ==_refl, ◌==◌, ==_iff, sym, ◌∙◌, length, length-append, get_or, set, replicate,
  arith, Bool-cases, inl, inr,
}
use mathlib.Core.Bool.{false≢true}
use empirical_zero_knowledge.HashMap.{
  HashMap, has, assign, erase, chain_of, put, contains, rem, size, size_of, get_keys, keys_of,
}
use empirical_zero_knowledge.HashMap.Chain.{
  Compares, count, length-append-assign, length-erase, count-has, has-count,
}
use empirical_zero_knowledge.HashMap.Laws.{
  length-put, HasBuckets, fresh, count-put, chain_of-with_chain,
}

size_of-set :
    {E : Type 0} (bs : List (List E)) (i : ℕ) (c : List E)
    → i < length bs
    → size_of (set bs i c) + length (get_or bs i []) ≡ size_of bs + length c
unfolding size_of
size_of-set [] i c h = absurd (omega arith)
size_of-set (b ∷ bs) zero c h = omega arith
size_of-set (b ∷ bs) (suc i) c h = omega (arith, size_of-set bs i c (omega arith))

size_of-replicate : (E : Type 0) (n : ℕ) → size_of {E = E} (replicate n []) ≡ 0
unfolding size_of
size_of-replicate E zero = refl
size_of-replicate E (suc n) = omega (arith, size_of-replicate E n)

pub size-fresh :
    {K : Type 0} (V : Type 0) (hfn : K → ℕ) (cfn : K → K → Ordering) (n : ℕ)
    → size (fresh V hfn cfn n) ≡ 0
unfolding size
size-fresh {K} V hfn cfn n = size_of-replicate (K × V) (suc n)

length-map {ℓ κ} :
    {A : Type ℓ} {B : Type κ} (f : A → B) (xs : List A) → length (map f xs) ≡ length xs
length-map f [] = refl
length-map f (x ∷ xs) = omega (arith, length-map f xs)

length-keys_of : {K V : Type 0} (bs : List (List (K × V))) → length (keys_of bs) ≡ size_of bs
unfolding keys_of size_of
length-keys_of [] = refl
length-keys_of (b ∷ bs) =
    rw (length-append (map (λ e. e.0) b) (keys_of bs), length-map (λ e. e.0) b)
      (omega (arith, length-keys_of bs))

-- `get_keys` lists as many keys as `size` counts.
pub length-get_keys : {K V : Type 0} (m : HashMap K V) → length (get_keys m) ≡ size m
unfolding get_keys size
length-get_keys m = length-keys_of m.buckets

module _ {K V : Type 0} (hfn : K → ℕ) (cfn : K → K → Ordering) (cmp : Compares cfn)
    (m : HashMap K V) (pos : HasBuckets m) (k : K) where
  -- Every `put` adds an entry, also one that overwrites.
  pub size-put : (v : V) → size (put hfn cfn m k (some v)) ≡ size m + 1
  unfolding size put
  size-put v =
      let es = chain_of hfn cfn m k in
      omega (
        arith,
        size_of-set m.buckets (hfn k % length m.buckets) (assign cfn k v es ++ (k, v) ∷ [])
            (omega arith),
        length-append-assign cfn cmp k v es,
      )

  -- A removal lowers the size by one if the key is there, and leaves it otherwise, in a map with
  -- at least one bucket, for a compare function that answers 0 exactly at equal keys.
  pub size-rem : size (rem hfn cfn m k).1 + (if contains hfn cfn m k then 1 else 0) ≡ size m
  unfolding size rem contains
  size-rem =
      let es = chain_of hfn cfn m k in
      elim (Bool-cases (has cfn k es)) [
        | inl e ↦ rw e (
            omega (
              arith,
              size_of-set m.buckets (hfn k % length m.buckets) (erase cfn k es) (omega arith),
              length-erase cfn cmp k es e,
            ))
        | inr e ↦ rw e (omega arith)
      ]

  count-erase :
      (es : List (K × V)) → has cfn k es ≡ true → count cfn k (erase cfn k es) + 1 ≡ count cfn k es
  unfolding has erase count
  count-erase [] h = ground arith
  count-erase (e ∷ es) h = ground (arith, count-erase es)

  has_of_count : (es : List (K × V)) → 0 < count cfn k es → has cfn k es ≡ true
  has_of_count es h = elim (Bool-cases (has cfn k es)) [
    | inl e ↦ e
    | inr e ↦ absurd (omega (arith, has-count cfn k es e))
  ]

  contains-rem-count :
      2 ≤ count cfn k (chain_of hfn cfn m k) → contains hfn cfn (rem hfn cfn m k).1 k ≡ true
  unfolding contains rem
  contains-rem-count h =
      let es = chain_of hfn cfn m k in
      let there = has_of_count es (omega arith) in
      rw (there, chain_of-with_chain hfn cfn m k k _ pos, ==_refl (hfn k % length m.buckets))
        (has_of_count (erase cfn k es) (omega (arith, count-erase es there)))

-- A key that is put while it is there is still there after one removal, in a map with at least one
-- bucket, for a compare function that answers 0 exactly at equal keys.
pub contains-rem-put :
    {K V : Type 0} (hfn : K → ℕ) (cfn : K → K → Ordering)
    → Compares cfn
    → (m : HashMap K V) (k : K) (v : V) → HasBuckets m
    → contains hfn cfn m k ≡ true
    → let m' = put hfn cfn m k (some v) in contains hfn cfn (rem hfn cfn m' k).1 k ≡ true
contains-rem-put hfn cfn cmp m k v pos h =
    let bound : HasBuckets (put hfn cfn m k (some v)) = rw (length-put hfn cfn m k v) pos in
    contains-rem-count hfn cfn cmp (put hfn cfn m k (some v)) bound k
      (rw (count-put hfn cfn cmp m pos k k v, (cmp k k).1 refl) (omega (arith, here)))
  where
    here : 0 < count cfn k (chain_of hfn cfn m k)
    here =
        unfold contains in
        elim (Bool-cases (0 == count cfn k (chain_of hfn cfn m k))) [
          | inl e ↦ absurd (
              false≢true
                (sym (count-has cfn k (chain_of hfn cfn m k) (sym ((==_iff _ _).0 e))) ∙ h))
          | inr e ↦ ground arith
        ]
