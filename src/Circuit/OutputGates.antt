-- ===== src/Circuit/OutputGates.antt =====
-- The visitor `OutputGateVisitor` of `empiricalZK/rtz14/src/circuit_analyser.c`: the heap addresses
-- that a circuit writes and does not read afterwards. Its `visit` is the only method that runs;
-- `visitAnd` and `visitXor` are never called.
use empirical_zero_knowledge.Prelude.{
  ℕ, ◌≡◌, Bool, false, not, ◌&&◌, ◌||◌, Option, some, ◌>>=◌, List, [], ◌∷◌, ◌==◌, if◌then◌else◌,
  arith, Bool-cases, inl, inr, ==_iff, ◌∙◌,
}
use empirical_zero_knowledge.Circuit.{Gate}
use empirical_zero_knowledge.Circuit.AddressMap.{AddressMap, elem}

-- Whether some gate names `a` as an operand.
unfoldable pub reads : ℕ → List Gate → Bool
reads a [] = false
reads a (g ∷ gs) = g.op1 == a || g.op2 == a || reads a gs

-- Whether some gate writes `a` and no gate behind it reads `a`.
unfoldable pub write_unread : ℕ → List Gate → Bool
unfolding reads
write_unread a [] = false
write_unread a (g ∷ gs) = g.dst == a && not (reads a gs) || write_unread a gs

module _ (A : AddressMap) where
  open A use {
    Map, new, put, contains, rem, size, get_keys, IsMap, IsUnique, new_fresh, put-IsMap,
    put-IsUnique, contains-put, rem-IsMap, rem-IsUnique, contains-rem, elem-get_keys,
    length-get_keys,
  }

  drop_key : Map → ℕ → Map
  drop_key h a = if contains h a then rem h a else h

  ogv_step : Gate → Map → Map
  unfolding drop_key
  ogv_step g h =
      let h₁ = drop_key h g.op1 in
      let h₂ = drop_key h₁ g.op2 in if contains h₂ g.dst then h₂ else put h₂ g.dst g

  ogv_loop : List Gate → Map → Map
  ogv_loop [] h = h
  ogv_loop (g ∷ gs) h = ogv_loop gs (ogv_step g h)

  unfoldable pub ogv_visit : List Gate → Option (List ℕ)
  unfolding ogv_loop ogv_step
  ogv_visit circuit = do h ← new 1024; some (get_keys (ogv_loop circuit h))

  abbrev Ready : Map → Type 0
  Ready h = IsMap h × IsUnique h

  drop_lem :
      (h : Map) (k : ℕ)
      → Ready h
      → Ready (drop_key h k)
        × ((a : ℕ) → contains (drop_key h k) a ≡ (contains h a && not (k == a)))
  unfolding drop_key
  drop_lem h k r = elim (Bool-cases (contains h k)) [
    | inl e ↦ rw e ((rem-IsMap h k r.0, rem-IsUnique h k r.0 r.1), λ a. contains-rem h k a r.0 r.1)
    | inr e ↦ rw e (r, λ a. ground (arith, ==_iff k a))
  ]

  step_lem :
      (g : Gate) (h : Map)
      → Ready h
      → Ready (ogv_step g h)
        × ((a : ℕ)
            → contains (ogv_step g h) a
              ≡ (g.dst == a || contains h a && not (g.op1 == a) && not (g.op2 == a)))
  unfolding ogv_step
  step_lem g h r =
      let h₁ = drop_key h g.op1 in
      let h₂ = drop_key h₁ g.op2 in
      let (r₁, e₁) = drop_lem h g.op1 r in
      let (r₂, e₂) = drop_lem h₁ g.op2 r₁ in
      elim (Bool-cases (contains h₂ g.dst)) [
        | inl e ↦ rw e (r₂, λ a. e₂ a ∙ rw (e₁ a) (ground (arith, ==_iff g.dst a, e₂ a, e₁ a)))
        | inr e ↦ rw e (
          (put-IsMap h₂ g.dst g r₂.0, put-IsUnique h₂ g.dst g r₂.0 r₂.1 e),
          λ a. contains-put h₂ g.dst g a r₂.0 ∙ rw (e₂ a, e₁ a),
        )
      ]

  loop_lem :
      (gs : List Gate) (h : Map)
      → Ready h
      → IsMap (ogv_loop gs h)
        × ((a : ℕ)
            → contains (ogv_loop gs h) a ≡ (write_unread a gs || contains h a && not (reads a gs)))
  unfolding ogv_loop write_unread
  loop_lem [] h r = (r.0, λ a. ground arith)
  loop_lem (g ∷ gs) h r =
      let (r₁, e₁) = step_lem g h r in
      let (map, e₂) = loop_lem gs (ogv_step g h) r₁ in (map, λ a. e₂ a ∙ rw (e₁ a) (ground arith))

  -- The visit lists exactly the addresses that some gate writes and no later gate reads.
  pub ogv_visit-write_unread :
      (circuit : List Gate)
      → (r : List ℕ) × (ogv_visit circuit ≡ some r) × ((a : ℕ) → elem a r ≡ write_unread a circuit)
  unfolding ogv_visit
  ogv_visit-write_unread circuit =
      let (h, made, map, unique, _, empty) = new_fresh 1024 (omega arith) in
      let (map', holds) = loop_lem circuit h (map, unique) in
      (
        get_keys (ogv_loop circuit h),
        rw made,
        λ a. elem-get_keys (ogv_loop circuit h) a map' ∙ holds a ∙ rw (empty a) (ground arith),
      )
