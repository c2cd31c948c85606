-- ===== src/Circuit/InputGates.antt =====
-- The visitor `InputGateVisitor` of `empiricalZK/rtz14/src/circuit_analyser.c`: the heap addresses
-- that a circuit reads before it writes them.
use empirical_zero_knowledge.Prelude.{
  ℕ, ◌≡◌, refl, Bool, true, false, not, ◌&&◌, ◌||◌, Option, some, ◌>>=◌, List, [], ◌∷◌, ◌==◌,
  if◌then◌else◌, arith, Bool-cases, inl, inr, ==_iff, ◌∙◌,
}
use empirical_zero_knowledge.Circuit.{GType, g_and, g_xor, g_one, g_zero, Gate, is_logic}
use empirical_zero_knowledge.Circuit.AddressMap.{AddressMap}

-- Whether the first gate that names `a` reads it. A gate reads its operands before it writes.
unfoldable pub first_read : ℕ → List Gate → Bool
first_read a [] = false
first_read a (g ∷ gs) =
    let rest = first_read a gs in
    if is_logic g.type
    then if g.op1 == a || g.op2 == a then true else if g.dst == a then false else rest
    else rest

module _ (A : AddressMap) where
  open A use {
    Map, new, put, contains, IsMap, IsUnique, new_fresh, put-IsMap, put-IsUnique, contains-put,
  }

  pub record IgVisitor : Type 0 where
    pub write_locations : Map
    pub input_locations : Map

  visit_operand : IgVisitor → ℕ → Gate → IgVisitor
  visit_operand igv v g =
      if contains igv.write_locations v
      then igv
      else if contains igv.input_locations v
      then igv
      else record igv { input_locations = put igv.input_locations v g }

  -- `igv_visit_and` and `igv_visit_xor` have the same body.
  unfoldable pub igv_visit_and : Gate → IgVisitor → IgVisitor
  unfolding visit_operand
  igv_visit_and and igv =
      let igv₁ = visit_operand igv and.op1 and in
      let igv₂ = visit_operand igv₁ and.op2 and in
      record igv₂ { write_locations = put igv₂.write_locations and.dst and }

  unfoldable pub igv_visit_xor : Gate → IgVisitor → IgVisitor
  unfolding visit_operand
  igv_visit_xor xor igv =
      let igv₁ = visit_operand igv xor.op1 xor in
      let igv₂ = visit_operand igv₁ xor.op2 xor in
      record igv₂ { write_locations = put igv₂.write_locations xor.dst xor }

  igv_dispatch : GType → Gate → IgVisitor → IgVisitor
  igv_dispatch g_and g igv = igv_visit_and g igv
  igv_dispatch g_xor g igv = igv_visit_xor g igv
  igv_dispatch g_one g igv = igv
  igv_dispatch g_zero g igv = igv

  igv_loop : List Gate → IgVisitor → IgVisitor
  igv_loop [] igv = igv
  igv_loop (g ∷ gs) igv = igv_loop gs (igv_dispatch g.type g igv)

  unfoldable pub igv_visit : List Gate → Option Map
  unfolding igv_loop igv_dispatch igv_visit_and igv_visit_xor
  igv_visit circuit = do
    input_locations ← new 64
    write_locations ← new 64
    some
        (igv_loop circuit (record {
          write_locations = write_locations;
          input_locations = input_locations;
        })).input_locations

  record Ready (igv : IgVisitor) : Type 0 where
    write_map : IsMap igv.write_locations
    map : IsMap igv.input_locations
    unique : IsUnique igv.input_locations

  visit_operand_lem :
      (igv : IgVisitor) (v : ℕ) (g : Gate)
      → Ready igv
      → let igv' = visit_operand igv v g in
        Ready igv'
        × (igv'.write_locations ≡ igv.write_locations)
        × ((a : ℕ)
            → contains igv'.input_locations a
              ≡ (contains igv.input_locations a || v == a && not (contains igv.write_locations a)))
  unfolding visit_operand
  visit_operand_lem igv v g r = elim (Bool-cases (contains igv.write_locations v)) [
    | inl w ↦ rw w (r, refl, λ a. ground (arith, ==_iff v a))
    | inr w ↦ elim (Bool-cases (contains igv.input_locations v)) [
      | inl i ↦ rw (w, i) (r, refl, λ a. ground (arith, ==_iff v a))
      | inr i ↦
          rw (w, i)
            (
              record {
                write_map = r.write_map;
                map = put-IsMap igv.input_locations v g r.map;
                unique = put-IsUnique igv.input_locations v g r.map r.unique i;
              },
              refl,
              λ a. ground (arith, ==_iff v a, contains-put igv.input_locations v g a r.map),
            )
    ]
  ]

  -- What one gate adds to the two maps.
  abbrev Adds : Gate → IgVisitor → IgVisitor → Type 0
  Adds g igv igv' =
      Ready igv'
      × ((a : ℕ)
          → contains igv'.input_locations a ≡ (
              contains igv.input_locations a
              || (g.op1 == a || g.op2 == a) && not (contains igv.write_locations a)))
      × ((a : ℕ) → contains igv'.write_locations a ≡ (g.dst == a || contains igv.write_locations a))

  visit_gate_lem : (g : Gate) (igv : IgVisitor) → Ready igv → Adds g igv (igv_visit_and g igv)
  unfolding igv_visit_and
  visit_gate_lem g igv r =
      let igv₁ = visit_operand igv g.op1 g in
      let igv₂ = visit_operand igv₁ g.op2 g in
      let (r₁, same₁, adds₁) = visit_operand_lem igv g.op1 g r in
      let (r₂, same₂, adds₂) = visit_operand_lem igv₁ g.op2 g r₁ in
      (
        record {
          write_map = put-IsMap igv₂.write_locations g.dst g r₂.write_map;
          map = r₂.map;
          unique = r₂.unique;
        },
        (λ a. rw (adds₂ a, adds₁ a, same₁) (ground arith)),
        λ a. contains-put igv₂.write_locations g.dst g a r₂.write_map ∙ rw (same₂, same₁),
      )

  -- The same for a gate of any type: the visitor skips those that are not AND or XOR.
  dispatch_lem :
      (t : GType) (g : Gate) (igv : IgVisitor)
      → Ready igv
      → let igv' = igv_dispatch t g igv in
        Ready igv'
        × ((a : ℕ)
            → contains igv'.input_locations a ≡ (
                contains igv.input_locations a
                || is_logic t
                  && (g.op1 == a || g.op2 == a)
                  && not (contains igv.write_locations a)))
        × ((a : ℕ)
            → contains igv'.write_locations a
              ≡ (is_logic t && g.dst == a || contains igv.write_locations a))
  unfolding igv_dispatch
  dispatch_lem g_and g igv r = visit_gate_lem g igv r
  dispatch_lem g_xor g igv r = unfold igv_visit_xor igv_visit_and in visit_gate_lem g igv r
  dispatch_lem g_one g igv r = (r, (λ a. ground arith), λ a. refl)
  dispatch_lem g_zero g igv r = (r, (λ a. ground arith), λ a. refl)

  -- The keys after the loop: those before it, and those that the gates read first.
  loop_lem :
      (gs : List Gate) (igv : IgVisitor)
      → Ready igv
      → let igv' = igv_loop gs igv in
        Ready igv'
        × ((a : ℕ)
            → contains igv'.input_locations a ≡ (
                contains igv.input_locations a
                || first_read a gs && not (contains igv.write_locations a)))
  unfolding igv_loop first_read
  loop_lem [] igv r = (r, λ a. ground arith)
  loop_lem (g ∷ gs) igv r =
      let (r₁, reads, writes) = dispatch_lem g.type g igv r in
      let (r₂, rest) = loop_lem gs (igv_dispatch g.type g igv) r₁ in
      (r₂, λ a. rest a ∙ rw (reads a, writes a) (ground arith))

  -- The visit succeeds and gives a well-formed map with each key once, whose keys are the
  -- addresses that the circuit names first as an operand.
  pub igv_visit-first_read :
      (circuit : List Gate)
      → (r : Map) × (igv_visit circuit ≡ some r)
        × IsMap r
        × IsUnique r
        × ((a : ℕ) → contains r a ≡ first_read a circuit)
  unfolding igv_visit
  igv_visit-first_read circuit =
      let (inputs, made, map, unique, _, none_in) = new_fresh 64 (omega arith) in
      let start : IgVisitor = record { write_locations = inputs; input_locations = inputs } in
      let ready : Ready start = record { write_map = map; map = map; unique = unique } in
      let (done, reads) = loop_lem circuit start ready in
      (
        (igv_loop circuit start).input_locations,
        rw made,
        done.map,
        done.unique,
        λ a. reads a ∙ rw (none_in a) (ground arith),
      )
