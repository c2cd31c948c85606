-- ===== src/Protocol/Run.antt =====
-- What a whole run between an honest prover and the verifier starts from, and the verdict that it
-- should have, for the and-challenge 0.
pub mod Whole
use empirical_zero_knowledge.Prelude.{
  Ensures, Ensures-bind, Ensures-eq, ℕ, ◌+◌, ◌*◌, ◌/◌, ◌-◌, ◌^◌, ◌<◌, ◌≤◌, ◌≡◌, refl, sym, ap, ap₂,
  ◌∙◌, Bool, true, false, ◌&&◌, ◌||◌, not, Option, none, some, ◌>>=◌, List, [], ◌∷◌, ◌++◌, ltb,
  if◌then◌else◌, ◌==◌, ==_iff, length, length-append, All, All-append, IsBytes, replicate, u32,
  arith, xor,
}
use mathlib.Core.Path.{subst}
use empirical_zero_knowledge.BitString.Laws.{bit_at}
use empirical_zero_knowledge.Circuit.{GType, g_and, g_xor, g_one, g_zero, Gate, Satisfies}
use empirical_zero_knowledge.Circuit.AddressMap.{AddressMap, elem}
use empirical_zero_knowledge.Circuit.PatchOne.{poc_visit}
use empirical_zero_knowledge.Circuit.InputGates.{igv_visit, igv_visit-first_read}
use empirical_zero_knowledge.Circuit.OutputGates.{ogv_visit, write_unread, ogv_visit-write_unread}
use empirical_zero_knowledge.Emitter.{EmiterResult, EseVisitor, ese_loop, ese_visit}
use empirical_zero_knowledge.Emitter.Step.{IsInRange}
use empirical_zero_knowledge.Emitter.Satisfies.{
  IsSingleAssignment, string_width, ese_visit-Satisfies,
}
use empirical_zero_knowledge.LinearProof.{ProofTask}
use empirical_zero_knowledge.LinearProof.Generator.{GPam, count_ands}
use empirical_zero_knowledge.Protocol.{XorCommitResult, xor_bytes, build_delta_string, check_tasks}
use empirical_zero_knowledge.Protocol.Xor.{parity}
use empirical_zero_knowledge.Protocol.Linear.{
  all_hold, opened, InRange, check_tasks-build_delta_string,
}
use empirical_zero_knowledge.Protocol.Verdict.{circuit_verdict, all_hold-append}
use empirical_zero_knowledge.Protocol.Honest.{AddressedIn, challenged, Committed, commit_lem}
use empirical_zero_knowledge.Protocol.Range.{ptb_visit-InRange}
use empirical_zero_knowledge.Protocol.Roles.{
  xor_commit, single, check_out_bit, judgement, prover_accepts, Prepared, prepare, Prover,
  prover_commit, prover_tasks, verifier_tasks, execute_proof, permajor,
}

-- The addresses of a gate lie below `n`.
abbrev pub NamesBelow : ℕ → Gate → Type 0
NamesBelow n g = (g.op1 < n) × (g.op2 < n) × (g.dst < n)

pub NamesBelow-Addressed :
    (n m : ℕ) (t : GType) (g : Gate) → n ≤ m → NamesBelow n g → AddressedIn m t g
NamesBelow-Addressed n m g_and g le h = let below = h in (omega arith, omega arith, omega arith)
NamesBelow-Addressed n m g_xor g le h = let below = h in (omega arith, omega arith, omega arith)
NamesBelow-Addressed n m g_one g le h = tt
NamesBelow-Addressed n m g_zero g le h = tt

pub All-Addressed :
    (n m : ℕ) (gs : List Gate)
    → n ≤ m
    → All (NamesBelow n) gs
    → All (λ (g : Gate). AddressedIn m g.type g) gs
All-Addressed n m [] le h = tt
All-Addressed n m (g ∷ gs) le h =
    (NamesBelow-Addressed n m g.type g le h.0, All-Addressed n m gs le h.1)

pub All-InRange :
    (A : AddressMap) (n width : ℕ) (gs : List Gate)
    → n ≤ 8 * width
    → All (NamesBelow n) gs
    → All (IsInRange A width) gs
All-InRange A n width [] le h = tt
All-InRange A n width (g ∷ gs) le h =
    let first = h.0 in ((omega arith, omega arith, omega arith), All-InRange A n width gs le h.1)

pub write_unread-lt :
    (a n : ℕ) (gs : List Gate) → write_unread a gs ≡ true → All (NamesBelow n) gs → a < n
unfolding write_unread
write_unread-lt a n [] h below = cc
write_unread-lt a n (g ∷ gs) h below =
    let written = below.0 in ground (arith, write_unread-lt a n gs)

module _ (A : AddressMap) (one : ℕ) where
  pub record IsPrepared (p : Prepared A one) : Type 0 where
    pub map : AddressMap.IsMap A p.input_gates
    pub unique : AddressMap.IsUnique A p.input_gates
    pub written : write_unread p.output p.circuit ≡ true

  from_outputs :
      (outs : List ℕ) (circuit : List Gate) (inputs : AddressMap.Map A) {p : Prepared A one}
      → AddressMap.IsMap A inputs
      → AddressMap.IsUnique A inputs
      → ((a : ℕ) → elem a outs ≡ write_unread a circuit)
      → (single outs >>= λ output.
          some (record { circuit = circuit; input_gates = inputs; output = output }))
        ≡ some p
      → IsPrepared p
  unfolding single
  from_outputs [] circuit inputs map unique outputs h = cc
  from_outputs (a ∷ []) circuit inputs {p} map unique outputs h =
      subst IsPrepared (ap (λ o. elim o [ some x ↦ x | none ↦ p ]) h)
        (record { map = map; unique = unique; written = sym (outputs a) ∙ ground arith })
  from_outputs (a ∷ b ∷ outs) circuit inputs map unique outputs h = cc

  pub prepared :
      (circuit : List Gate) {p : Prepared A one} → prepare A one circuit ≡ some p → IsPrepared p
  unfolding prepare
  prepared circuit h =
      let patched = poc_visit one circuit in
      let (inputs, read, map, unique, _) = igv_visit-first_read A patched in
      let (outs, found, outputs) = ogv_visit-write_unread A patched in
      from_outputs outs patched inputs map unique outputs (rw (read, found) at h)

  abbrev pub emitter : Prepared A one → List ℕ → EseVisitor A
  emitter p witness = record {
    bit_string = [];
    input = witness;
    input_gates = p.input_gates;
    no_and_gates = 0;
    next_input = 0;
  }

  -- The bits of the string that the prover's emitter gives.
  unfoldable pub emitted : Prepared A one → List ℕ → ℕ → Bool
  emitted p witness = elim (ese_visit A p.circuit (emitter p witness)) [
    | none ↦ λ i. false
    | some (er, e') ↦ bit_at er.emitted_string
  ]

-- How many bits the emitted string is for.
abbrev pub bits_of : (A : AddressMap) (one : ℕ) → Prepared A one → ℕ
bits_of A one p = length p.circuit + AddressMap.size A p.input_gates

-- What both sides should make of a run with the and-challenge 0.
abbrev pub verdict : (A : AddressMap) (one : ℕ) → (ℕ → ℕ) → Prepared A one → List ℕ → ℕ → Bool
verdict A one random p witness challenge =
    challenge == 0
    || (circuit_verdict random (emitted A one p witness) p.circuit 0
        && emitted A one p witness p.output)
