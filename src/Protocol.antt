-- ===== src/Protocol.antt =====
-- The RTZ14 protocol of `empiricalZK/rtz14/src/rtz14.c`. This file has the steps that the two
-- roles compute: the exclusive-or commitment, the delta string and the verifier's check of the
-- linear relations. `Roles` puts them together. `none` is an access outside an array.
pub mod Xor
pub mod Linear
pub mod AndTasks
pub mod Verdict
pub mod Honest
pub mod Message
pub mod Roles
pub mod Range
pub mod Run
use empirical_zero_knowledge.Prelude.{
  ℕ, suc, ◌+◌, ◌/◌, ◌%◌, ◌≤◌, bit_xor, Bool, true, false, ◌&&◌, not, xor, Option, some, ◌>>=◌, List,
  [], ◌∷◌, ◌++◌, ◌==◌, ltb, if◌then◌else◌, length, take, drop, replicate, u32,
}
use empirical_zero_knowledge.BitString.{get_bit, set_bit}
use empirical_zero_knowledge.LinearProof.{ProofTask, xor_bits, used, expected}

pub record XorCommitResult : Type 0 where
  pub m0 : List ℕ
  pub m1 : List ℕ
  pub commitment : List ℕ

-- `m1[i] = circuit_string[i] ^ m0[i]`
unfoldable pub xor_bytes : List ℕ → List ℕ → List ℕ
xor_bytes [] ys = []
xor_bytes (x ∷ xs) [] = []
xor_bytes (x ∷ xs) (y ∷ ys) = bit_xor x y ∷ xor_bytes xs ys

-- The exclusive or of the bits of `m0` at the indices of each task, from task number `i` on.
delta_loop : List ℕ → List ProofTask → ℕ → List ℕ → Option (List ℕ)
delta_loop m0 [] i result = some result
delta_loop m0 (pt ∷ pts) i result = do
  delta ← xor_bits m0 (used pt) false
  result' ← set_bit result i delta
  delta_loop m0 pts (i + 1) result'

unfoldable pub build_delta_string : List ProofTask → List ℕ → Option (List ℕ)
unfolding delta_loop
build_delta_string proof_tasks m0 =
    delta_loop m0 proof_tasks 0 (replicate (u32 (length proof_tasks + 7) / 8) 0)

-- `challenge->data[0] & b`, for `b` the lowest bit of a task's value.
abbrev pub masked : ℕ → Bool → Bool
masked challenge b = challenge % 2 == 1 && b

-- The verifier's loop: every task is read, and one that fails turns `accept` to false for good.
check_loop : List ℕ → List ℕ → ℕ → List ProofTask → ℕ → Bool → Option Bool
check_loop delta m_challenge challenge [] i accept = some accept
check_loop delta m_challenge challenge (cur ∷ rest) i accept = do
  found ← xor_bits m_challenge (used cur) false
  bit ← get_bit delta i
  let fails = xor found (xor bit (masked challenge (expected cur)))
  check_loop delta m_challenge challenge rest (i + 1) (if fails then false else accept)

unfoldable pub check_tasks : List ProofTask → List ℕ → List ℕ → ℕ → Option Bool
unfolding check_loop
check_tasks proof_tasks delta m_challenge challenge =
    check_loop delta m_challenge challenge proof_tasks 0 true
