-- ===== src/HashMap/Chain.antt =====
-- One bucket: what `find` and `has` see after an overwrite, an added entry or a removal.
use empirical_zero_knowledge.Prelude.{
  ℕ, ◌+◌, ◌≤◌, Ordering, ◌≡◌, refl, ◌↔◌, true, false, not, ◌&&◌, ◌||◌, some, List, [], ◌∷◌, ◌++◌,
  if◌then◌else◌, length, arith, Bool-cases, inl, inr,
}
use empirical_zero_knowledge.HashMap.{is_eq, find, has, assign, erase}

-- What the map asks of a compare function: it answers 0 exactly at equal keys.
abbrev pub Compares : {K : Type 0} → (K → K → Ordering) → Type 0
Compares {K} cfn = (a b : K) → (is_eq (cfn a b) ≡ true) ↔ (a ≡ b)

module _ {K : Type 0} (cfn : K → K → Ordering) (cmp : Compares cfn) where
  pub is_eq_congr : (a b c : K) → is_eq (cfn a b) ≡ true → is_eq (cfn a c) ≡ is_eq (cfn b c)
  is_eq_congr a b c h = rw ((cmp a b).0 h)

  pub is_eq_congr_right : (a b c : K) → is_eq (cfn b c) ≡ true → is_eq (cfn a b) ≡ is_eq (cfn a c)
  is_eq_congr_right a b c h = rw ((cmp b c).0 h)

  pub is_eq_comm : (a b : K) → is_eq (cfn a b) ≡ is_eq (cfn b a)
  is_eq_comm a b = elim (Bool-cases (is_eq (cfn a b))) [
    | inl h ↦ rw ((cmp a b).0 h)
    | inr h ↦ elim (Bool-cases (is_eq (cfn b a))) [ inl k ↦ rw ((cmp b a).0 k) | inr k ↦ rw (h, k) ]
  ]

module _ {K V : Type 0} (cfn : K → K → Ordering) where
  -- The number of entries under a key.
  unfoldable pub count : K → List (K × V) → ℕ
  count k [] = 0
  count k (e ∷ es) = (if is_eq (cfn e.0 k) then 1 else 0) + count k es

  pub has-count : (k : K) (es : List (K × V)) → has cfn k es ≡ false → count k es ≡ 0
  unfolding has count
  has-count k [] h = refl
  has-count k (e ∷ es) h = ground (arith, has-count k es)

  pub count-has : (k : K) (es : List (K × V)) → count k es ≡ 0 → has cfn k es ≡ false
  unfolding has count
  count-has k [] h = refl
  count-has k (e ∷ es) h = ground (arith, count-has k es)

module _ {K V : Type 0} (cfn : K → K → Ordering) (cmp : Compares cfn) where
  pub find-append-assign :
      (k j : K) (v : V) (es : List (K × V))
      → find cfn j (assign cfn k v es ++ (k, v) ∷ [])
        ≡ (if is_eq (cfn k j) then some v else find cfn j es)
  unfolding find assign
  find-append-assign k j v [] = refl
  find-append-assign k j v (e ∷ es) = ground (
    arith,
    find-append-assign k j v es,
    is_eq_congr cfn cmp e.0 k j,
    is_eq_congr_right cfn cmp k e.0 j,
    is_eq_comm cfn cmp k e.0,
  )

  pub has-append-assign :
      (k j : K) (v : V) (es : List (K × V))
      → has cfn j (assign cfn k v es ++ (k, v) ∷ []) ≡ (is_eq (cfn k j) || has cfn j es)
  unfolding has assign
  has-append-assign k j v [] = refl
  has-append-assign k j v (e ∷ es) = ground (arith, has-append-assign k j v es)

  pub count-append-assign :
      (k j : K) (v : V) (es : List (K × V))
      → count cfn j (assign cfn k v es ++ (k, v) ∷ [])
        ≡ count cfn j es + (if is_eq (cfn k j) then 1 else 0)
  unfolding count assign
  count-append-assign k j v [] = omega arith
  count-append-assign k j v (e ∷ es) = ground (arith, count-append-assign k j v es)

  pub length-append-assign :
      (k : K) (v : V) (es : List (K × V))
      → length (assign cfn k v es ++ (k, v) ∷ []) ≡ length es + 1
  unfolding assign
  length-append-assign k v [] = refl
  length-append-assign k v (e ∷ es) = omega (arith, length-append-assign k v es)

  pub has-erase :
      (k j : K) (es : List (K × V))
      → count cfn k es ≤ 1
      → has cfn j (erase cfn k es) ≡ (has cfn j es && not (is_eq (cfn k j)))
  unfolding has erase count
  has-erase k j [] h = refl
  has-erase k j (e ∷ es) h = ground (
    arith,
    has-erase k j es,
    count-has cfn k es,
    has_congr j es,
    is_eq_congr cfn cmp e.0 k j,
    is_eq_congr_right cfn cmp k e.0 j,
    is_eq_comm cfn cmp k e.0,
  )
    where
      has_congr : (j : K) (es : List (K × V)) → is_eq (cfn k j) ≡ true → has cfn k es ≡ has cfn j es
      has_congr j es h = rw ((cmp k j).0 h)

  pub count-erase-le : (k j : K) (es : List (K × V)) → count cfn j (erase cfn k es) ≤ count cfn j es
  unfolding count erase
  count-erase-le k j [] = omega arith
  count-erase-le k j (e ∷ es) = ground (arith, count-erase-le k j es)

  pub length-erase :
      (k : K) (es : List (K × V)) → has cfn k es ≡ true → length (erase cfn k es) + 1 ≡ length es
  unfolding has erase
  length-erase k [] h = ground arith
  length-erase k (e ∷ es) h = ground (arith, length-erase k es)
