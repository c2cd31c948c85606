-- ===== src/Circuit/Hashed.antt =====
-- The hash map with the address hash and comparison of `empiricalZK/rtz14/src/circuit_analyser.c`
-- meets the interface of the visitors.
use empirical_zero_knowledge.Prelude.{
  ℕ, zero, suc, ◌+◌, ◌*◌, ◌%◌, ◌<◌, Ordering, ◌≡◌, refl, sym, ◌∙◌, false, not, ap, Bool-cases, inl,
  inr, ◌&&◌, ◌||◌, some, List, [], ◌∷◌, ◌==◌, ==_iff, ltb, if◌then◌else◌, arith, length-replicate,
  u32,
}
use empirical_zero_knowledge.HashMap
use empirical_zero_knowledge.HashMap.{HashMap, is_eq}
use empirical_zero_knowledge.HashMap.Chain.{Compares, has-count}
use empirical_zero_knowledge.HashMap.Laws.{
  HasBuckets, IsUnique, fresh, contains-fresh, IsUnique-fresh, length-put, length-rem, contains-put,
  count-put, contains-rem, IsUnique-rem,
}
use empirical_zero_knowledge.HashMap.Size.{size-fresh, size-put, size-rem, length-get_keys}
use empirical_zero_knowledge.HashMap.Keys
use empirical_zero_knowledge.HashMap.Keys.{
  IsPlaced, IsPlaced-fresh, IsPlaced-put, IsPlaced-rem, elem-get_keys,
}
use empirical_zero_knowledge.Circuit.{Gate}
use empirical_zero_knowledge.Circuit.AddressMap.{AddressMap, elem}

unfoldable pub locate_hash : ℕ → ℕ
locate_hash a = u32 (u32 (a * 101) + 65535) % 65537

unfoldable pub locate_cmp : ℕ → ℕ → Ordering
locate_cmp a b = if ltb b a then Ordering.gt else if ltb a b then Ordering.lt else Ordering.eq

pub is_eq-locate_cmp : (a b : ℕ) → is_eq (locate_cmp a b) ≡ (a == b)
unfolding locate_cmp
is_eq-locate_cmp a b = ground arith

pub locate_cmp-Compares : Compares locate_cmp
locate_cmp-Compares a b = rw (is_eq-locate_cmp a b) (==_iff a b)

pub elem-locate_cmp : (k : ℕ) (xs : List ℕ) → Keys.elem locate_cmp k xs ≡ elem k xs
unfolding Keys.elem
elem-locate_cmp k [] = refl
elem-locate_cmp k (x ∷ xs) = rw (is_eq-locate_cmp x k, elem-locate_cmp k xs)

abbrev pub GateMap : Type 0
GateMap = HashMap ℕ Gate

abbrev pub IsGateMap : GateMap → Type 0
IsGateMap m = HasBuckets m × IsPlaced locate_hash m

pub new_fresh_lem :
    (n : ℕ)
    → 0 < n
    → (m : GateMap) × (HashMap.new n ≡ some m)
      × IsGateMap m
      × IsUnique locate_hash locate_cmp m
      × (HashMap.size m ≡ 0)
      × ((k : ℕ) → HashMap.contains locate_hash locate_cmp m k ≡ false)
unfolding HashMap.new
new_fresh_lem zero h = elim h [ ]
new_fresh_lem (suc n) h = (
  fresh Gate locate_hash locate_cmp n,
  refl,
  (omega (arith, length-replicate {0}), IsPlaced-fresh Gate locate_hash locate_cmp n),
  IsUnique-fresh Gate locate_hash locate_cmp n,
  size-fresh Gate locate_hash locate_cmp n,
  contains-fresh Gate locate_hash locate_cmp n,
)

module _ (m : GateMap) (k : ℕ) where
  pub put-IsUnique :
      (g : Gate)
      → HasBuckets m
      → IsUnique locate_hash locate_cmp m
      → HashMap.contains locate_hash locate_cmp m k ≡ false
      → IsUnique locate_hash locate_cmp (HashMap.put locate_hash locate_cmp m k (some g))
  put-IsUnique g pos unique absent j =
      rw (count-put locate_hash locate_cmp locate_cmp-Compares m pos k j g, is_eq-locate_cmp k j)
        (elim (Bool-cases (k == j)) [
          | inl e ↦
              rw (e, ← (==_iff k j).0 e)
                (omega (
                  arith,
                  has-count locate_cmp k (HashMap.chain_of locate_hash locate_cmp m k)
                      (unfold HashMap.contains in absent),
                ))
          | inr e ↦ rw e (omega (arith, unique j))
        ])

-- The hash map as the visitors use it; what `rem` returns is not read by them.
abbrev pub hash_map : AddressMap
hash_map = record {
  Map = GateMap;
  new = HashMap.new;
  put = λ m k g. HashMap.put locate_hash locate_cmp m k (some g);
  contains = HashMap.contains locate_hash locate_cmp;
  rem = λ m k. (HashMap.rem locate_hash locate_cmp m k).1;
  size = HashMap.size;
  get_keys = HashMap.get_keys;
  IsMap = IsGateMap;
  IsUnique = IsUnique locate_hash locate_cmp;
  new_fresh = new_fresh_lem;
  put-IsMap = λ m k g h. (
    rw (length-put locate_hash locate_cmp m k g) h.0,
    IsPlaced-put locate_hash locate_cmp locate_cmp-Compares m k g h.1,
  );
  put-IsUnique = λ m k g h. put-IsUnique m k g h.0;
  contains-put = λ m k g j h.
      contains-put locate_hash locate_cmp locate_cmp-Compares m h.0 k j g
      ∙ ap (λ t. t || HashMap.contains locate_hash locate_cmp m j) (is_eq-locate_cmp k j);
  size-put = λ m k g h. size-put locate_hash locate_cmp locate_cmp-Compares m h.0 k g;
  rem-IsMap = λ m k h. (
    rw (length-rem locate_hash locate_cmp m k) h.0,
    IsPlaced-rem locate_hash locate_cmp locate_cmp-Compares m k h.1,
  );
  rem-IsUnique = λ m k h. IsUnique-rem locate_hash locate_cmp locate_cmp-Compares m h.0 k;
  contains-rem = λ m k j h u.
      contains-rem locate_hash locate_cmp locate_cmp-Compares m h.0 k j u
      ∙ ap (λ t. HashMap.contains locate_hash locate_cmp m j && not t) (is_eq-locate_cmp k j);
  size-rem = λ m k h. size-rem locate_hash locate_cmp locate_cmp-Compares m h.0 k;
  elem-get_keys = λ m k h.
      sym (elem-locate_cmp k (HashMap.get_keys m))
      ∙ elem-get_keys locate_hash locate_cmp locate_cmp-Compares m k h.1;
  length-get_keys = length-get_keys;
}
