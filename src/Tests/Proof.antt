-- ===== src/Tests/Proof.antt =====
-- The linear proof and the lookups on small strings.
use empirical_zero_knowledge.Prelude.{
  ℕ, ◌≡◌, refl, true, some, List, [], ◌∷◌, ◌==◌, ◌||◌, xor, arith,
}
use empirical_zero_knowledge.BitString.{get_bit, set_bit, test_bit, write_bit}
use empirical_zero_knowledge.BitString.Laws.{bit_at, IsWritten, set_bit-IsWritten}
use empirical_zero_knowledge.LinearProof.{ProofTask, xor_bits}
use empirical_zero_knowledge.Protocol.{xor_bytes, build_delta_string, check_tasks}
use empirical_zero_knowledge.Protocol.Linear.{all_hold, opened, check_tasks-build_delta_string}

-- Bits 0, 1 and 2 of 7 have the exclusive or 1.
abbrev message : List ℕ
message = 7 ∷ []

abbrev mask : List ℕ
mask = 90 ∷ []

abbrev tasks : List ProofTask
tasks =
    record { indicies = 0 ∷ 1 ∷ 3 ∷ []; value = 6 }
    ∷ record { indicies = 2 ∷ 3 ∷ 0 ∷ []; value = 5 }
    ∷ []

delta_run : build_delta_string tasks mask ≡ some (2 ∷ [])
unfolding build_delta_string xor_bits get_bit set_bit test_bit write_bit xor
delta_run = refl

set_bit-IsWritten_example :
    (a' : List ℕ) × (set_bit message 3 true ≡ some a') × IsWritten message 3 true a'
set_bit-IsWritten_example = set_bit-IsWritten message 3 true (omega arith) (omega arith)

check_tasks-build_delta_string_example :
    (delta : List ℕ) × (build_delta_string tasks mask ≡ some delta)
    × (check_tasks tasks delta (opened 1 mask (xor_bytes message mask)) 1
        ≡ some (1 == 0 || all_hold (bit_at message) tasks))
check_tasks-build_delta_string_example =
    check_tasks-build_delta_string message mask tasks 1 (omega arith) (omega arith) refl
      (omega arith) (omega arith) (omega arith)
