-- ===== src/Emitter/Satisfies.antt =====
-- The emitted string satisfies the circuit.
use empirical_zero_knowledge.Prelude.{
  ℕ, ◌+◌, ◌*◌, ◌/◌, ◌≤◌, ◌≡◌, ◌≢◌, refl, ◌∙◌, Bool, false, ◌&&◌, xor, some, ◌>>=◌, List, [], ◌∷◌,
  ==_iff, ==_refl, length, length-replicate, replicate, IsBytes, IsBytes-replicate, All, u32, arith,
}
use empirical_zero_knowledge.BitString.Laws.{bit_at}
use empirical_zero_knowledge.Circuit.{GType, g_and, g_xor, g_one, g_zero, Gate, Satisfies}
use empirical_zero_knowledge.Circuit.AddressMap.{AddressMap}
use empirical_zero_knowledge.Emitter.{
  EmiterResult, EseVisitor, ese_visit_and, ese_visit_xor, ese_dispatch, ese_loop, ese_visit,
}
use empirical_zero_knowledge.Emitter.Step.{IsReady, HasVisited, IsInRange, combine_lem}

abbrev pub NotWritten : ℕ → List Gate → Type 0
NotWritten a = All (λ g. g.dst ≢ a)

-- No gate writes one of its own operands, and no later gate writes an address that a gate names.
abbrev pub IsSingleAssignment : List Gate → Type 0
IsSingleAssignment [] = Unit
IsSingleAssignment (g ∷ gs) =
    (g.dst ≢ g.op1)
    × (g.dst ≢ g.op2)
    × NotWritten g.op1 gs
    × NotWritten g.op2 gs
    × NotWritten g.dst gs
    × IsSingleAssignment gs

module _ (A : AddressMap) (width : ℕ) where
  open A use {contains}

  -- What the loop over `gs` gives from a state that is ready.
  record Emits (gs : List Gate) (e e' : EseVisitor A) : Type 0 where
    ready : IsReady A width e'
    holds : Satisfies (bit_at e'.bit_string) gs
    keeps :
        (a : ℕ)
        → contains e.input_gates a ≡ false
        → NotWritten a gs
        → bit_at e'.bit_string a ≡ bit_at e.bit_string a

  abbrev Loop : List Gate → Type 0
  Loop gs =
      (e : EseVisitor A)
      → IsReady A width e
      → All (IsInRange A width) gs
      → IsSingleAssignment gs
      → (e' : EseVisitor A) × (ese_loop A gs e ≡ some e') × Emits gs e e'

  module _ (f : Bool → Bool → Bool) (g : Gate) (gs : List Gate) (e e₁ e' : EseVisitor A)
      (v : HasVisited A width f g e e₁) (rest : Emits gs e₁ e')
      (once : IsSingleAssignment (g ∷ gs)) where
    value_lem :
        bit_at e'.bit_string g.dst ≡ f (bit_at e'.bit_string g.op1) (bit_at e'.bit_string g.op2)
    value_lem =
        rw
          (
            rest.keeps g.dst (rw (v.keys g.dst, ==_refl g.dst) (ground arith)) once.4,
            rest.keeps g.op1 (rw (v.keys g.op1, ==_refl g.op1) (ground arith)) once.2,
            rest.keeps g.op2 (rw (v.keys g.op2, ==_refl g.op2) (ground arith)) once.3,
          )
          v.value

    keeps_lem :
        (a : ℕ)
        → contains e.input_gates a ≡ false
        → NotWritten a (g ∷ gs)
        → bit_at e'.bit_string a ≡ bit_at e.bit_string a
    keeps_lem a absent nw =
        rest.keeps a (rw (v.keys a, absent) refl) nw.1
        ∙ v.keeps a (let n = nw.0 in ground (arith, ==_iff g.dst a)) absent

  step :
      (t : GType) (g : Gate) (gs : List Gate)
      → g.type ≡ t
      → Loop gs
      → (e : EseVisitor A) → IsReady A width e
      → All (IsInRange A width) (g ∷ gs)
      → IsSingleAssignment (g ∷ gs)
      → (e' : EseVisitor A) × ((ese_dispatch A t g e >>= ese_loop A gs) ≡ some e')
        × Emits (g ∷ gs) e e'
  unfolding ese_dispatch ese_visit_and ese_visit_xor
  step g_and g gs q ih e r range once =
      let (e₁, run₁, v) = combine_lem A width ◌&&◌ g e r range.0 once.0 once.1 in
      let (e', run, rest) = ih e₁ v.ready range.1 once.5 in
      (
        e',
        rw (run₁, run),
        record {
          ready = rest.ready;
          holds = simp q (value_lem ◌&&◌ g gs e e₁ e' v rest once, rest.holds);
          keeps = keeps_lem ◌&&◌ g gs e e₁ e' v rest once;
        },
      )
  step g_xor g gs q ih e r range once =
      let (e₁, run₁, v) = combine_lem A width xor g e r range.0 once.0 once.1 in
      let (e', run, rest) = ih e₁ v.ready range.1 once.5 in
      (
        e',
        rw (run₁, run),
        record {
          ready = rest.ready;
          holds = simp q (value_lem xor g gs e e₁ e' v rest once, rest.holds);
          keeps = keeps_lem xor g gs e e₁ e' v rest once;
        },
      )
  step g_one g gs q ih e r range once =
      let (e', run, rest) = ih e r range.1 once.5 in
      (
        e',
        run,
        record {
          ready = rest.ready;
          holds = simp q (tt, rest.holds);
          keeps = λ a n w. rest.keeps a n w.1;
        },
      )
  step g_zero g gs q ih e r range once =
      let (e', run, rest) = ih e r range.1 once.5 in
      (
        e',
        run,
        record {
          ready = rest.ready;
          holds = simp q (tt, rest.holds);
          keeps = λ a n w. rest.keeps a n w.1;
        },
      )

  loop_lem : (gs : List Gate) → Loop gs
  unfolding ese_loop
  loop_lem [] e r range once = (e, refl, record { ready = r; holds = tt; keeps = λ a n w. refl })
  loop_lem (g ∷ gs) e r range once = step g.type g gs refl (loop_lem gs) e r range once

-- The number of bytes that the visit allots.
abbrev pub string_width : (A : AddressMap) → List Gate → EseVisitor A → ℕ
string_width A circuit e = u32 (u32 (length circuit + AddressMap.size A e.input_gates) + 7) / 8

-- On a single-assignment circuit whose addresses lie in the string, with a map of input gates that
-- has each key once and a witness bit for each of them, the visit succeeds, and the emitted string
-- has the stated length, holds bytes and satisfies every gate.
pub ese_visit-Satisfies :
    (A : AddressMap) (circuit : List Gate) (e : EseVisitor A)
    → AddressMap.IsMap A e.input_gates
    → AddressMap.IsUnique A e.input_gates
    → e.next_input + AddressMap.size A e.input_gates ≤ 8 * length e.input
    → All (IsInRange A (string_width A circuit e)) circuit
    → IsSingleAssignment circuit
    → (er : EmiterResult) × (e' : EseVisitor A) × (ese_visit A circuit e ≡ some (er, e'))
      × (length er.emitted_string ≡ er.lemitted_string)
      × IsBytes er.emitted_string
      × Satisfies (bit_at er.emitted_string) circuit
unfolding ese_visit
ese_visit-Satisfies A circuit e map unique supply range once =
    let width = string_width A circuit e in
    let start : EseVisitor A = record e { no_and_gates = 0; bit_string = replicate width 0 } in
    let ready : IsReady A width start = record {
      bytes = IsBytes-replicate width;
      wide = length-replicate width 0;
      map = map;
      unique = unique;
      supply = supply;
    } in
    let (e', run, done) = loop_lem A width circuit start ready range once in
    (
      record { emitted_string = e'.bit_string; lemitted_string = width },
      e',
      rw run,
      done.ready.wide,
      done.ready.bytes,
      done.holds,
    )
