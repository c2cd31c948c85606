-- ===== src/Circuit/AddressMap.antt =====
-- What the visitors use of a map from heap addresses to gates (`common/ds/include/map.h`): its
-- operations and the laws they rely on. The hash map fills it in `Hashed`.
use empirical_zero_knowledge.Prelude.{
  ℕ, ◌+◌, ◌<◌, ◌≡◌, Bool, false, not, ◌&&◌, ◌||◌, Option, some, List, [], ◌∷◌, ◌==◌, if◌then◌else◌,
  length,
}
use empirical_zero_knowledge.Circuit.{Gate}

abbrev pub elem : ℕ → List ℕ → Bool
elem k [] = false
elem k (x ∷ xs) = x == k || elem k xs

pub record AddressMap : Type 1 where
  pub Map : Type 0
  pub new : ℕ → Option Map
  pub put : Map → ℕ → Gate → Map
  pub contains : Map → ℕ → Bool
  pub rem : Map → ℕ → Map
  pub size : Map → ℕ
  pub get_keys : Map → List ℕ
  -- A map that the operations produced, and one whose keys have one entry each.
  pub IsMap : Map → Type 0
  pub IsUnique : Map → Type 0
  pub new_fresh :
      (n : ℕ)
      → 0 < n
      → (m : Map) × (new n ≡ some m)
        × IsMap m
        × IsUnique m
        × (size m ≡ 0)
        × ((k : ℕ) → contains m k ≡ false)
  pub put-IsMap : (m : Map) (k : ℕ) (g : Gate) → IsMap m → IsMap (put m k g)
  pub put-IsUnique :
      (m : Map) (k : ℕ) (g : Gate)
      → IsMap m
      → IsUnique m
      → contains m k ≡ false
      → IsUnique (put m k g)
  pub contains-put :
      (m : Map) (k : ℕ) (g : Gate) (j : ℕ)
      → IsMap m
      → contains (put m k g) j ≡ (k == j || contains m j)
  pub size-put : (m : Map) (k : ℕ) (g : Gate) → IsMap m → size (put m k g) ≡ size m + 1
  pub rem-IsMap : (m : Map) (k : ℕ) → IsMap m → IsMap (rem m k)
  pub rem-IsUnique : (m : Map) (k : ℕ) → IsMap m → IsUnique m → IsUnique (rem m k)
  pub contains-rem :
      (m : Map) (k j : ℕ)
      → IsMap m
      → IsUnique m
      → contains (rem m k) j ≡ (contains m j && not (k == j))
  pub size-rem :
      (m : Map) (k : ℕ) → IsMap m → size (rem m k) + (if contains m k then 1 else 0) ≡ size m
  pub elem-get_keys : (m : Map) (k : ℕ) → IsMap m → elem k (get_keys m) ≡ contains m k
  pub length-get_keys : (m : Map) → length (get_keys m) ≡ size m
