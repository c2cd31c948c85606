-- ===== src/Tests/Gates.antt =====
-- The generator on one AND gate, and the tasks that it gives.
use empirical_zero_knowledge.Prelude.{
  ◌+◌, refl, Bool, List, true, ℕ, ◌≡◌, some, [], ◌∷◌, ◌++◌, arith,
}
use empirical_zero_knowledge.Circuit.{g_and, g_xor, Gate}
use empirical_zero_knowledge.LinearProof.Generator.{GPam, GPamImpl}
use empirical_zero_knowledge.BitString.{test_bit}
use empirical_zero_knowledge.LinearProof.{ProofTask}
use empirical_zero_knowledge.LinearProof.Tables.{perms, reorder, identity}
use empirical_zero_knowledge.LinearProof.Builder.{Ptb, apply_permutation, ptb_visit_and}
use empirical_zero_knowledge.Protocol.Linear.{all_hold}
use empirical_zero_knowledge.Protocol.AndTasks.{verdict, ptb_visit_and-all_hold}
use empirical_zero_knowledge.LinearProof.Gate.{HasRoom}

abbrev conjunction : Gate
conjunction = record { type = g_and; dst = 2; op1 = 0; op2 = 1 }

abbrev blank : GPam
blank = record { permutations = 0 ∷ []; majority = 0 ∷ []; aux = 0 ∷ []; no_ands = 1 }

abbrev waiting : GPamImpl
waiting = record { evaled_circuit = 7 ∷ []; and_count = 0; calls = 0; result = blank }

abbrev ten : ℕ → ℕ
ten i = 10

waiting-HasRoom : HasRoom conjunction waiting
waiting-HasRoom = record {
  permutations_bytes = omega arith;
  aux_bytes = omega arith;
  majority_bytes = omega arith;
  permutations_room = omega arith;
  aux_room = omega arith;
  majority_room = omega arith;
  few = omega arith;
  dst_in = omega arith;
  op1_in = omega arith;
  op2_in = omega arith;
}

abbrev all_true : ℕ → Bool
all_true i = true

abbrev building : Ptb
building = record {
  permaj = 0 ∷ [];
  lpermaj = 1;
  and_challenge = 0;
  and_count = 0;
  circuit_size = 1;
  no_inputs = 2;
  address_of_one = 0;
  result = [];
}

found : apply_permutation (0 ∷ []) 1 identity 0 ≡ some (reorder perms 0 identity)
unfolding apply_permutation test_bit
found = refl

ptb_visit_and-all_hold_example :
    (ts : List ProofTask) × (ptb_visit_and conjunction building
      ≡ some
          (record building { result = building.result ++ ts; and_count = building.and_count + 1 }))
    × (all_hold all_true ts ≡ verdict all_true conjunction building 0)
ptb_visit_and-all_hold_example =
    ptb_visit_and-all_hold all_true conjunction building 0 (omega arith) refl (omega arith) found
      refl refl (refl, refl, refl)

-- An AND gate and an exclusive or of its output and the first input, for the inputs 1 and 0.
abbrev two_gates : List Gate
two_gates = conjunction ∷ record { type = g_xor; dst = 3; op1 = 2; op2 = 0 } ∷ []
