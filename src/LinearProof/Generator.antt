-- ===== src/LinearProof/Generator.antt =====
-- The visitor by which the prover draws a permutation for each AND gate and writes the permuted
-- bits and the majority test of the gate. `random i` is the byte that the `i`-th call of the random
-- source gives. `none` is an access outside the evaluated circuit or the result arrays.
use empirical_zero_knowledge.Prelude.{
  ℕ, ◌+◌, ◌*◌, ◌/◌, ◌%◌, Bool, true, false, Option, some, ◌>>=◌, List, [], ◌∷◌, ◌==◌, get_or, set,
  replicate, u32,
}
use empirical_zero_knowledge.BitString.{get_bit, set_bit, test_bit}
use empirical_zero_knowledge.Circuit.{GType, g_and, g_xor, g_one, g_zero, Gate}
use empirical_zero_knowledge.LinearProof.Tables.{perms, entry}

pub record GPam : Type 0 where
  pub permutations : List ℕ
  pub majority : List ℕ
  pub aux : List ℕ
  pub no_ands : ℕ

pub record GPamImpl : Type 0 where
  pub evaled_circuit : List ℕ
  pub and_count : ℕ
  pub calls : ℕ
  pub result : GPam

-- `#AND_GATES`
unfoldable pub count_ands : List Gate → ℕ
count_ands [] = 0
count_ands (g ∷ gs) = (elim g.type [ g_and ↦ 1 | _ ↦ 0 ]) + count_ands gs

unfoldable pub set_three : List ℕ → ℕ → Bool → Bool → Bool → Option (List ℕ)
set_three a i b₁ b₂ b₃ = do
  a₁ ← set_bit a i b₁
  a₂ ← set_bit a₁ (u32 (i + 1)) b₂
  set_bit a₂ (u32 (i + 2)) b₃

unfoldable pub set_two : List ℕ → ℕ → Bool → Bool → Option (List ℕ)
set_two a i b₁ b₂ = do a₁ ← set_bit a i b₁; set_bit a₁ (u32 (i + 1)) b₂

-- The five patterns that are tested one after the other; no two of them hold at once.
unfoldable pub set_majority : List ℕ → ℕ → Bool → Bool → Bool → Option (List ℕ)
unfolding set_two
set_majority a i false false false = set_two a i false false
set_majority a i true true true = set_two a i false false
set_majority a i false false true = set_two a i false false
set_majority a i false true false = set_two a i true false
set_majority a i true false false = set_two a i false true
set_majority a i _ _ _ = some a

-- `bits[pi[0]] = bit1; bits[pi[1]] = bit2; bits[pi[2]] = bit3`
unfoldable pub permute_bits : ℕ → Bool → Bool → Bool → List Bool
permute_bits r bit1 bit2 bit3 =
    set (set (set (false ∷ false ∷ false ∷ []) (entry perms r 0) bit1) (entry perms r 1) bit2)
      (entry perms r 2) bit3

module _ (random : ℕ → ℕ) where
  unfoldable pub gpam_visit_and : Gate → GPamImpl → Option GPamImpl
  unfolding set_three set_majority permute_bits
  gpam_visit_and and impl = do
    let r = random impl.calls % 6
    let k = impl.and_count
    bit1 ← get_bit impl.evaled_circuit and.dst
    bit2 ← get_bit impl.evaled_circuit and.op1
    bit3 ← get_bit impl.evaled_circuit and.op2
    permutations ←
        set_three impl.result.permutations (u32 (k * 3)) (r % 2 == 1) (test_bit r 1) (test_bit r 2)
    let bits = permute_bits r bit1 bit2 bit3
    let b₁ = get_or bits 0 false
    let b₂ = get_or bits 1 false
    let b₃ = get_or bits 2 false
    aux ← set_three impl.result.aux (u32 (k * 3)) b₁ b₂ b₃
    majority ← set_majority impl.result.majority (u32 (k * 2)) b₁ b₂ b₃
    some (record impl {
      and_count = k + 1;
      calls = impl.calls + 1;
      result = record {
        permutations = permutations;
        majority = majority;
        aux = aux;
        no_ands = impl.result.no_ands;
      };
    })

  unfoldable pub gpam_dispatch : GType → Gate → GPamImpl → Option GPamImpl
  gpam_dispatch g_and g impl = gpam_visit_and g impl
  gpam_dispatch g_xor g impl = some impl
  gpam_dispatch g_one g impl = some impl
  gpam_dispatch g_zero g impl = some impl

  unfoldable pub gpam_loop : List Gate → GPamImpl → Option GPamImpl
  gpam_loop [] impl = some impl
  gpam_loop (g ∷ gs) impl = gpam_dispatch g.type g impl >>= gpam_loop gs

  unfoldable pub gpam_visit : List Gate → GPamImpl → Option GPam
  unfolding gpam_loop gpam_dispatch gpam_visit_and count_ands
  gpam_visit circuit impl = do
    let no_ands = count_ands circuit
    let empty : GPam = record {
      permutations = replicate (u32 (no_ands * 3 + 7) / 8) 0;
      majority = replicate (u32 (no_ands * 2 + 7) / 8) 0;
      aux = replicate (u32 (no_ands * 3 + 7) / 8) 0;
      no_ands = no_ands;
    }
    done ← gpam_loop circuit (record impl { result = empty })
    some done.result
