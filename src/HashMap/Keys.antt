-- ===== src/HashMap/Keys.antt =====
-- Where entries stand, and which keys `get_keys` lists.
use empirical_zero_knowledge.Prelude.{
  ℕ, zero, suc, ◌+◌, ◌-◌, ◌%◌, Ordering, ◌≡◌, refl, Bool, false, ◌||◌, some, List, [], ◌∷◌, ◌++◌,
  map, if◌then◌else◌, ltb, ◌==◌, ==_iff, length, length-set, get_or, set, replicate, arith,
  Bool-cases, inl, inr, All, All-append, ◌∙◌,
}
use empirical_zero_knowledge.HashMap.{
  HashMap, is_eq, has, assign, erase, chain_of, put, contains, rem, get_keys, keys_of,
}
use empirical_zero_knowledge.HashMap.Chain.{Compares}
use empirical_zero_knowledge.HashMap.Laws.{fresh}

module _ {K : Type 0} (cfn : K → K → Ordering) where
  -- Whether a list of keys has the key.
  unfoldable pub elem : K → List K → Bool
  elem k [] = false
  elem k (x ∷ xs) = is_eq (cfn x k) || elem k xs

  elem-append : (k : K) (xs ys : List K) → elem k (xs ++ ys) ≡ (elem k xs || elem k ys)
  unfolding elem
  elem-append k [] ys = refl
  elem-append k (x ∷ xs) ys = ground (arith, elem-append k xs ys)

  elem-map : {V : Type 0} (k : K) (es : List (K × V)) → elem k (map (λ e. e.0) es) ≡ has cfn k es
  unfolding elem has
  elem-map k [] = refl
  elem-map k (e ∷ es) = ground (arith, elem-map k es)

module _ {K V : Type 0} (hfn : K → ℕ) (n : ℕ) where
  -- Bucket number `i` of the list and those behind it hold keys that hash to their number.
  abbrev IsPlacedFrom : ℕ → List (List (K × V)) → Type 0
  IsPlacedFrom i [] = Unit
  IsPlacedFrom i (b ∷ bs) = All (λ e. hfn e.0 % n ≡ i) b × IsPlacedFrom (suc i) bs

  IsPlacedFrom-set :
      (i p : ℕ) (bs : List (List (K × V))) (c : List (K × V))
      → IsPlacedFrom i bs
      → All (λ e. hfn e.0 % n ≡ i + p) c
      → IsPlacedFrom i (set bs p c)
  IsPlacedFrom-set i p [] c h a = tt
  IsPlacedFrom-set i zero (b ∷ bs) c h a = let e : i + 0 ≡ i = omega arith in ((rw e at a), h.1)
  IsPlacedFrom-set i (suc p) (b ∷ bs) c h a =
      let e : i + suc p ≡ suc i + p = omega arith in
      (h.0, IsPlacedFrom-set (suc i) p bs c h.1 (rw e at a))

  IsPlacedFrom-get_or :
      (i p : ℕ) (bs : List (List (K × V)))
      → IsPlacedFrom i bs
      → All (λ e. hfn e.0 % n ≡ i + p) (get_or bs p [])
  IsPlacedFrom-get_or i p [] h = tt
  IsPlacedFrom-get_or i zero (b ∷ bs) h = let e : i + 0 ≡ i = omega arith in rw e h.0
  IsPlacedFrom-get_or i (suc p) (b ∷ bs) h =
      let e : i + suc p ≡ suc i + p = omega arith in rw e (IsPlacedFrom-get_or (suc i) p bs h.1)

IsPlacedFrom-replicate :
    {K : Type 0} (V : Type 0) (hfn : K → ℕ) (n i k : ℕ)
    → IsPlacedFrom {V = V} hfn n i (replicate k [])
IsPlacedFrom-replicate V hfn n i zero = tt
IsPlacedFrom-replicate V hfn n i (suc k) = (tt, IsPlacedFrom-replicate V hfn n (suc i) k)

module _ {K V : Type 0} (hfn : K → ℕ) (cfn : K → K → Ordering) (cmp : Compares cfn) (n : ℕ) where
  has-misplaced :
      (k : K) (i : ℕ) (es : List (K × V))
      → All (λ e. hfn e.0 % n ≡ i) es
      → (hfn k % n ≡ i → ⊥)
      → has cfn k es ≡ false
  unfolding has
  has-misplaced k i [] h ne = refl
  has-misplaced k i (e ∷ es) h ne = elim (Bool-cases (is_eq (cfn e.0 k))) [
    | inl s ↦ absurd (ne (rw (← (cmp e.0 k).0 s) h.0))
    | inr s ↦ rw s (has-misplaced k i es h.1 ne)
  ]

  elem-keys_of :
      (k : K) (i : ℕ) (bs : List (List (K × V)))
      → IsPlacedFrom hfn n i bs
      → elem cfn k (keys_of bs)
        ≡ (if ltb (hfn k % n) i then false else has cfn k (get_or bs (hfn k % n - i) []))
  unfolding keys_of elem has
  elem-keys_of k i [] h = ground arith
  elem-keys_of k i (b ∷ bs) h =
      let q = hfn k % n in
      let rest = elem-keys_of k (suc i) bs h.1 in
      rw (elem-append cfn k (map (λ e. e.0) b) (keys_of bs), elem-map cfn k b, rest)
        (elim (Bool-cases (q == i)) [
          | inl e ↦
              let p : q ≡ i = (==_iff q i).0 e in
              let z : q - i ≡ 0 = omega arith in rw z (ground arith)
          | inr e ↦ rw (has-misplaced k i b h.0 (λ p. ground arith)) (elim (Bool-cases (ltb q i)) [
            | inl l ↦ ground arith
            | inr l ↦ let z : q - i ≡ suc (q - suc i) = ground arith in rw z (ground arith)
          ])
        ])

-- Every entry stands in the bucket that its key hashes to.
abbrev pub IsPlaced : {K V : Type 0} → (K → ℕ) → HashMap K V → Type 0
IsPlaced hfn m = IsPlacedFrom hfn (length m.buckets) 0 m.buckets

pub IsPlaced-fresh :
    {K : Type 0} (V : Type 0) (hfn : K → ℕ) (cfn : K → K → Ordering) (n : ℕ)
    → IsPlaced hfn (fresh V hfn cfn n)
IsPlaced-fresh V hfn cfn n = IsPlacedFrom-replicate V hfn _ 0 (suc n)

module _ {K V : Type 0} (hfn : K → ℕ) (cfn : K → K → Ordering) (cmp : Compares cfn)
    (m : HashMap K V) where
  -- If every entry is in the bucket of its key, `get_keys` lists exactly the keys that the map
  -- contains, for a compare function that answers 0 exactly at equal keys.
  pub elem-get_keys : (k : K) → IsPlaced hfn m → elem cfn k (get_keys m) ≡ contains hfn cfn m k
  unfolding get_keys contains
  elem-get_keys k placed =
      elem-keys_of hfn cfn cmp (length m.buckets) k 0 m.buckets placed ∙ ground arith

  module _ (n i : ℕ) where
    All-assign :
        (k : K) (v : V) (es : List (K × V))
        → All (λ e. hfn e.0 % n ≡ i) es
        → All (λ e. hfn e.0 % n ≡ i) (assign cfn k v es)
    unfolding assign
    All-assign k v [] h = tt
    All-assign k v (e ∷ es) h = elim (Bool-cases (is_eq (cfn e.0 k))) [
      | inl s ↦ rw s (h.0, All-assign k v es h.1)
      | inr s ↦ rw s (h.0, All-assign k v es h.1)
    ]

    All-erase :
        (k : K) (es : List (K × V))
        → All (λ e. hfn e.0 % n ≡ i) es
        → All (λ e. hfn e.0 % n ≡ i) (erase cfn k es)
    unfolding erase
    All-erase k [] h = tt
    All-erase k (e ∷ es) h = elim (Bool-cases (is_eq (cfn e.0 k))) [
      | inl s ↦ rw s h.1
      | inr s ↦ rw s (h.0, All-erase k es h.1)
    ]

  pub IsPlaced-put : (k : K) (v : V) → IsPlaced hfn m → IsPlaced hfn (put hfn cfn m k (some v))
  unfolding put
  IsPlaced-put k v placed =
      let n = length m.buckets in
      let p = hfn k % n in
      let old = IsPlacedFrom-get_or hfn n 0 p m.buckets placed in
      rw length-set (
        IsPlacedFrom-set hfn n 0 p m.buckets _ placed (
          All-append (λ (e : K × V). hfn e.0 % n ≡ 0 + p) _ _ (All-assign n (0 + p) k v _ old)
            (omega arith, tt)))

  pub IsPlaced-rem : (k : K) → IsPlaced hfn m → IsPlaced hfn (rem hfn cfn m k).1
  unfolding rem
  IsPlaced-rem k placed =
      let n = length m.buckets in
      let p = hfn k % n in
      let old = IsPlacedFrom-get_or hfn n 0 p m.buckets placed in
      elim (Bool-cases (has cfn k (chain_of hfn cfn m k))) [
        | inl e ↦
            rw (e, length-set)
              (IsPlacedFrom-set hfn n 0 p m.buckets _ placed (All-erase n (0 + p) k _ old))
        | inr e ↦ rw e placed
      ]
