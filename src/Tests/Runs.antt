-- ===== src/Tests/Runs.antt =====
-- Whole runs of the protocol on small circuits.
use empirical_zero_knowledge.Prelude.{
  ℕ, zero, suc, length-replicate, none, ◌≡◌, refl, Bool, false, Option, some, List, [], ◌∷◌,
  replicate, IsBytes, arith,
}
use empirical_zero_knowledge.Circuit.InputGates.{igv_visit}
use empirical_zero_knowledge.HashMap
use empirical_zero_knowledge.Circuit.OutputGates.{ogv_visit}
use empirical_zero_knowledge.Circuit.PatchOne.{poc_visit}
use empirical_zero_knowledge.Circuit.Hashed.{locate_hash, locate_cmp}
use empirical_zero_knowledge.Emitter.{ese_visit}
use empirical_zero_knowledge.BitString.{get_bit, set_bit, test_bit, write_bit}
use empirical_zero_knowledge.LinearProof.Generator.{gpam_visit}
use empirical_zero_knowledge.LinearProof.Builder.{ptb_visit, apply_permutation}
use empirical_zero_knowledge.LinearProof.Tables.{reorder}
use empirical_zero_knowledge.LinearProof.{xor_bits}
use empirical_zero_knowledge.Protocol.{build_delta_string, check_tasks, xor_bytes}
use empirical_zero_knowledge.Prelude.{xor}
use empirical_zero_knowledge.BitString.Laws.{bit_at}
use empirical_zero_knowledge.Circuit.{g_and, g_xor, Gate}
use empirical_zero_knowledge.Circuit.Hashed.{hash_map}
use empirical_zero_knowledge.Protocol.Message.{build_message}
use empirical_zero_knowledge.Protocol.Roles.{execute_proof, Prepared, prepare}
use empirical_zero_knowledge.Protocol.Run.{emitted, verdict}
use empirical_zero_knowledge.Protocol.Run.Whole.{execute_proof-verdict}
use empirical_zero_knowledge.HashMap.{HashMap}
use empirical_zero_knowledge.LinearProof.Generator.{count_ands}

abbrev exclusive : List Gate
exclusive = record { type = g_xor; dst = 2; op1 = 0; op2 = 1 } ∷ []

abbrev conjunction : List Gate
conjunction = record { type = g_and; dst = 2; op1 = 0; op2 = 1 } ∷ []

abbrev fives : ℕ → List ℕ
fives n = replicate n 5

IsBytes-fives : (n : ℕ) → IsBytes (fives n)
IsBytes-fives zero = tt
IsBytes-fives (suc n) = (omega arith, IsBytes-fives n)

abbrev run_xor : ℕ → ℕ → Option (Bool × Bool)
run_xor and_challenge challenge =
    execute_proof hash_map 0 (λ i. 0) fives exclusive (1 ∷ []) and_challenge challenge

abbrev run_and : ℕ → ℕ → Option (Bool × Bool)
run_and and_challenge challenge =
    execute_proof hash_map 0 (λ i. 0) fives conjunction (3 ∷ []) and_challenge challenge

-- A prover whose witness makes the AND gate one is rejected, for permutations and challenge 1.
honest_rejected : run_and 0 1 ≡ some (false, false)
unfolding execute_proof igv_visit HashMap.new ogv_visit HashMap.get_keys poc_visit HashMap.contains
    locate_hash HashMap.put ese_visit locate_cmp get_bit set_bit HashMap.size HashMap.rem gpam_visit
    test_bit write_bit ptb_visit apply_permutation reorder xor_bits build_delta_string check_tasks
    xor_bytes build_message xor
honest_rejected = refl

abbrev inputs_of : Option (HashMap ℕ Gate) → HashMap ℕ Gate
inputs_of (some m) = m
inputs_of none = record { buckets = [] }

abbrev conjunction_prepared : Prepared hash_map 0
conjunction_prepared = record {
  circuit = conjunction;
  input_gates = inputs_of (igv_visit hash_map conjunction);
  output = 2;
}

execute_proof-verdict_example :
    execute_proof hash_map 0 (λ i. 0) fives conjunction (3 ∷ []) 0 1
    ≡ some (
      verdict hash_map 0 (λ i. 0) conjunction_prepared (3 ∷ []) 1,
      verdict hash_map 0 (λ i. 0) conjunction_prepared (3 ∷ []) 1,
    )
unfolding prepare igv_visit HashMap.new ogv_visit HashMap.get_keys poc_visit HashMap.contains
    locate_hash HashMap.put locate_cmp HashMap.size HashMap.rem emitted ese_visit get_bit set_bit
    test_bit write_bit bit_at count_ands
execute_proof-verdict_example =
    execute_proof-verdict hash_map 0 (λ i. 0) fives conjunction conjunction_prepared (3 ∷ []) 1 refl
      (omega arith) (omega arith) (omega arith) (omega arith) refl (omega arith) (omega arith)
      (λ m. (length-replicate m 5, IsBytes-fives m)) (omega arith)
