-- ===== src/Circuit/PatchOne.antt =====
-- The visitor `PatchOneConstants` of `empiricalZK/rtz14/src/circuit_analyser.c`: the parser writes
-- INV(x) as XOR with the special address -1, and this visitor puts the address of the constant
-- one in its place. The gates are changed in place; here the changed list is returned.
use empirical_zero_knowledge.Prelude.{
  ◌&&◌, ◌||◌, false, Bool, ℕ, ◌-◌, ◌^◌, ◌≡◌, ◌≢◌, refl, ◌↔◌, xor, List, [], ◌∷◌, All, ◌==◌, ==_iff,
  if◌then◌else◌, arith, Bool-cases, inl, inr,
}
use empirical_zero_knowledge.Circuit.{
  GType, g_and, g_xor, g_one, g_zero, Gate, is_logic, HoldsAt, Satisfies,
}

-- `-1` as a `uint`.
abbrev pub minus_one : ℕ
minus_one = 2 ^ 32 - 1

module _ (address_of_one : ℕ) where
  -- `poc_visitAnd` and `poc_visitXor` have the same body.
  unfoldable pub poc_visit_and : Gate → Gate
  poc_visit_and and =
      let and₁ = if and.op2 == minus_one then record and { op2 = address_of_one } else and in
      if and₁.op1 == minus_one then record and₁ { op1 = address_of_one } else and₁

  unfoldable pub poc_visit_xor : Gate → Gate
  poc_visit_xor xor =
      let xor₁ = if xor.op2 == minus_one then record xor { op2 = address_of_one } else xor in
      if xor₁.op1 == minus_one then record xor₁ { op1 = address_of_one } else xor₁

  poc_dispatch : GType → Gate → Gate
  poc_dispatch g_and g = poc_visit_and g
  poc_dispatch g_xor g = poc_visit_xor g
  poc_dispatch g_one g = g
  poc_dispatch g_zero g = g

  unfoldable pub poc_visit : List Gate → List Gate
  unfolding poc_dispatch poc_visit_and poc_visit_xor
  poc_visit [] = []
  poc_visit (g ∷ gs) = poc_dispatch g.type g ∷ poc_visit gs

  -- A gate that the visitors act on does not name the special address.
  abbrev IsFree : GType → Gate → Type 0
  IsFree t g = (is_logic t && (g.op1 == minus_one || g.op2 == minus_one)) ≡ false

  IsFree-visit :
      (t : GType) (g : Gate)
      → address_of_one ≢ minus_one
      → g.type ≡ t
      → IsFree (poc_dispatch t g).type (poc_dispatch t g)
  unfolding poc_dispatch poc_visit_and poc_visit_xor
  IsFree-visit g_and g ne e = ground arith
  IsFree-visit g_xor g ne e = ground arith
  IsFree-visit g_one g ne e = ground arith
  IsFree-visit g_zero g ne e = ground arith

  -- After the visit no AND or XOR gate names the special address -1, unless the address of one
  -- is itself -1.
  pub poc_visit-All :
      (gs : List Gate)
      → address_of_one ≢ minus_one
      → All
          (λ g. (is_logic g.type && (g.op1 == minus_one || g.op2 == minus_one)) ≡ false)
          (poc_visit gs)
  unfolding poc_visit
  poc_visit-All [] ne = tt
  poc_visit-All (g ∷ gs) ne = (IsFree-visit g.type g ne refl, poc_visit-All gs ne)

  -- The bits that a gate names are unchanged if both addresses hold the same bit.
  module _ (s : ℕ → Bool) (e : s minus_one ≡ s address_of_one) where
    patched_read : (a : ℕ) → s (if a == minus_one then address_of_one else a) ≡ s a
    patched_read a = elim (Bool-cases (a == minus_one)) [
      | inl h ↦ rw (h, (==_iff a minus_one).0 h, e)
      | inr h ↦ rw h
    ]

    patched_and : (g : Gate) → HoldsAt g_and s (poc_visit_and g) ↔ HoldsAt g_and s g
    unfolding poc_visit_and
    patched_and g = ground (arith, patched_read g.op1, patched_read g.op2)

    patched_xor : (g : Gate) → HoldsAt g_xor s (poc_visit_xor g) ↔ HoldsAt g_xor s g
    unfolding poc_visit_xor
    patched_xor g = ground (arith, patched_read g.op1, patched_read g.op2)

    type-visit : (t : GType) (g : Gate) → (poc_dispatch t g).type ≡ g.type
    unfolding poc_dispatch poc_visit_and poc_visit_xor
    type-visit g_and g = ground arith
    type-visit g_xor g = ground arith
    type-visit g_one g = refl
    type-visit g_zero g = refl

    holds_gate : (t : GType) (g : Gate) → HoldsAt t s (poc_dispatch t g) ↔ HoldsAt t s g
    unfolding poc_dispatch
    holds_gate g_and g = patched_and g
    holds_gate g_xor g = patched_xor g
    holds_gate g_one g = ((λ h. h), (λ h. h))
    holds_gate g_zero g = ((λ h. h), (λ h. h))

    -- An assignment that gives -1 and the address of one the same bit satisfies the patched
    -- circuit exactly if it satisfies the circuit as it was parsed.
    pub poc_visit-Satisfies : (gs : List Gate) → Satisfies s (poc_visit gs) ↔ Satisfies s gs
    unfolding poc_visit
    poc_visit-Satisfies [] = ((λ h. h), (λ h. h))
    poc_visit-Satisfies (g ∷ gs) =
        let rest = poc_visit-Satisfies gs in
        let one = holds_gate g.type g in
        rw (type-visit g.type g) ((λ h. (one.0 h.0, rest.0 h.1)), (λ h. (one.1 h.0, rest.1 h.1)))
