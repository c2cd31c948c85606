-- ===== src/Protocol/Roles.antt =====
-- The two roles of `executeProof` in `empiricalZK/rtz14/src/rtz14.c` as functions between the
-- messages. The network is left out: a message arrives as it was sent. `none` is a run that
-- returns early or reads outside an array.
use empirical_zero_knowledge.Prelude.{
  ℕ, ◌+◌, ◌*◌, ◌/◌, Bool, true, false, Option, none, some, ◌>>=◌, List, [], ◌∷◌, ◌++◌, ◌==◌,
  if◌then◌else◌, length, get_or, replicate, u32,
}
use empirical_zero_knowledge.Circuit.{Gate}
use empirical_zero_knowledge.Circuit.AddressMap.{AddressMap}
use empirical_zero_knowledge.Circuit.PatchOne.{poc_visit}
use empirical_zero_knowledge.Circuit.InputGates.{igv_visit}
use empirical_zero_knowledge.Circuit.OutputGates.{ogv_visit}
use empirical_zero_knowledge.Emitter.{ese_visit}
use empirical_zero_knowledge.LinearProof.{ProofTask}
use empirical_zero_knowledge.LinearProof.Builder.{ptb_visit}
use empirical_zero_knowledge.LinearProof.Generator.{GPam, gpam_visit}
use empirical_zero_knowledge.Protocol.{XorCommitResult, xor_bytes, build_delta_string, check_tasks}
use empirical_zero_knowledge.Protocol.Message.{build_message}

-- The shares of a string. The two copies that should fill the commitment have their arguments
-- swapped: they overwrite the commitments of the shares, and the zeroed field is sent.
unfoldable pub xor_commit : (ℕ → List ℕ) → List ℕ → XorCommitResult
xor_commit rand circuit_string =
    let m0 = rand (length circuit_string) in
    record { m0 = m0; m1 = xor_bytes circuit_string m0; commitment = replicate 128 0 }

unfoldable pub single : List ℕ → Option ℕ
single [] = none
single (a ∷ []) = some a
single (a ∷ b ∷ rest) = none

-- The task that looks at the output bit.
abbrev pub check_out_bit : ℕ → ℕ → ℕ → ProofTask
check_out_bit output address_of_one value = record {
  indicies = output ∷ address_of_one ∷ address_of_one ∷ [];
  value = value;
}

-- "accept " and "reject " with the zero byte; the prover looks at the first character.
abbrev pub judgement : Bool → List ℕ
judgement true = 97 ∷ 99 ∷ 99 ∷ 101 ∷ 112 ∷ 116 ∷ 32 ∷ 0 ∷ []
judgement false = 114 ∷ 101 ∷ 106 ∷ 101 ∷ 99 ∷ 116 ∷ 32 ∷ 0 ∷ []

abbrev pub prover_accepts : List ℕ → Bool
prover_accepts j = get_or j 0 0 == 97

module _ (A : AddressMap) (address_of_one : ℕ) where
  open A use {Map, size}

  -- What both roles compute first.
  pub record Prepared : Type 0 where
    pub circuit : List Gate
    pub input_gates : Map
    pub output : ℕ

  unfoldable pub prepare : List Gate → Option Prepared
  unfolding single
  prepare circuit = do
    let patched = poc_visit address_of_one circuit
    input_gates ← igv_visit A patched
    outputs ← ogv_visit A patched
    output ← single outputs
    some (record { circuit = patched; input_gates = input_gates; output = output })

  -- The tasks of the circuit for the string of permutations or majority tests.
  circuit_tasks : Prepared → ℕ → List ℕ → ℕ → Option (List ProofTask)
  circuit_tasks p and_challenge permaj lpermaj = ptb_visit p.circuit (record {
    permaj = permaj;
    lpermaj = lpermaj;
    and_challenge = and_challenge;
    and_count = 0;
    circuit_size = 0;
    no_inputs = size p.input_gates;
    address_of_one = address_of_one;
    result = [];
  })

  pub record Prover : Type 0 where
    pub message : List ℕ
    pub gpam : GPam
    pub xom : XorCommitResult

  -- The prover up to its commitment.
  unfoldable pub prover_commit : (ℕ → ℕ) → (ℕ → List ℕ) → Prepared → List ℕ → Option Prover
  unfolding xor_commit
  prover_commit random rand p witness = do
    (er, _) ← ese_visit A p.circuit (record {
      bit_string = [];
      input = witness;
      input_gates = p.input_gates;
      no_and_gates = 0;
      next_input = 0;
    })
    let empty : GPam = record { permutations = []; majority = []; aux = []; no_ands = 0 }
    gpam ←
        gpam_visit random p.circuit
          (record { evaled_circuit = er.emitted_string; and_count = 0; calls = 0; result = empty })
    message ←
        build_message (length p.circuit) (size p.input_gates) er.emitted_string gpam.aux
          gpam.no_ands
    some (record { message = message; gpam = gpam; xom = xor_commit rand message })

  -- The permutations or the majority tests that the prover sends for the and-challenge.
  abbrev pub permajor : Prover → ℕ → List ℕ
  permajor s and_challenge = if and_challenge == 0 then s.gpam.permutations else s.gpam.majority

  -- The prover's tasks; the test of the output bit is always one of them.
  unfoldable pub prover_tasks : Prepared → Prover → ℕ → Option (List ProofTask)
  unfolding circuit_tasks
  prover_tasks p s and_challenge = do
    let no_ands = s.gpam.no_ands
    let bits = if and_challenge == 0 then 3 else 2
    tasks ← circuit_tasks p and_challenge (permajor s and_challenge) (u32 (no_ands * bits + 7) / 8)
    let value = if and_challenge == 0 then 3 else 2
    some (tasks ++ check_out_bit p.output address_of_one value ∷ [])

  -- The verifier's tasks; the output bit is tested for the and-challenge 0 only.
  unfoldable pub verifier_tasks : Prepared → List ℕ → ℕ → Option (List ProofTask)
  unfolding circuit_tasks
  verifier_tasks p received and_challenge = do
    tasks ← circuit_tasks p and_challenge received (length received)
    some (
        if and_challenge == 0 then tasks ++ check_out_bit p.output address_of_one 3 ∷ [] else tasks)

  abbrev pub open_share : ℕ → XorCommitResult → List ℕ
  open_share epsilon xom = if epsilon == 0 then xom.m0 else xom.m1

  -- A run between two parties that follow the code: the verdict of the verifier, and what the
  -- prover makes of the judgement that it receives.
  unfoldable pub execute_proof :
      (ℕ → ℕ) → (ℕ → List ℕ) → List Gate → List ℕ → ℕ → ℕ → Option (Bool × Bool)
  unfolding prepare prover_commit prover_tasks verifier_tasks
  execute_proof random rand circuit witness and_challenge challenge = do
    p ← prepare circuit
    s ← prover_commit random rand p witness
    proof_tasks ← prover_tasks p s and_challenge
    delta ← build_delta_string proof_tasks s.xom.m0
    tasks ← verifier_tasks p (permajor s and_challenge) and_challenge
    accept ← check_tasks tasks delta (open_share challenge s.xom) challenge
    some (accept, prover_accepts (judgement accept))
