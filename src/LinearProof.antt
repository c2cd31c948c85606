-- ===== src/LinearProof.antt =====
-- Proof tasks and their auxiliary data: `empiricalZK/rtz14/src/linear_proof.c`. `Builder` has the
-- visitor that turns a circuit into proof tasks, `Generator` the one by which the prover draws
-- permutations and writes the auxiliary bits.
pub mod Tables
pub mod Builder
pub mod Generator
pub mod Position
pub mod Three
pub mod Gate
pub mod Drawing
use empirical_zero_knowledge.Prelude.{
  ℕ, ◌/◌, ◌%◌, Bool, true, false, xor, Option, some, ◌>>=◌, List, [], ◌∷◌, ◌==◌, take,
}
use empirical_zero_knowledge.BitString.{get_bit}

-- `indicies` has three places; the bits above the lowest of `value` say how many are used, and the
-- lowest bit is the expected exclusive or.
pub record ProofTask : Type 0 where
  pub indicies : List ℕ
  pub value : ℕ

-- The exclusive or of the bits at some indices, as the loops of `build_delta_string` and of the
-- verifier compute it.
unfoldable pub xor_bits : List ℕ → List ℕ → Bool → Option Bool
xor_bits m [] acc = some acc
xor_bits m (i ∷ is) acc = do bit ← get_bit m i; xor_bits m is (xor acc bit)

-- The indices that a task uses.
abbrev pub used : ProofTask → List ℕ
used pt = take (pt.value / 2) pt.indicies

abbrev pub expected : ProofTask → Bool
expected pt = pt.value % 2 == 1
