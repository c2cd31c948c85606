-- ===== src/LinearProof/Builder.antt =====
-- The proof task builder. `permaj` is the string of permutations or majority tests that the
-- challenge selects. Messages to the log are left out; a warning that returns is a return. `none`
-- is a read outside `permaj`.
use empirical_zero_knowledge.Prelude.{
  ℕ, ◌^◌, ◌+◌, ◌-◌, ◌*◌, ◌/◌, Bool, true, false, Option, some, ◌>>=◌, List, [], ◌∷◌, ◌++◌, ◌==◌,
  ltb, leb, if◌then◌else◌, length, get_elem?, get_or, u32,
}
use empirical_zero_knowledge.BitString.{test_bit}
use empirical_zero_knowledge.Circuit.{GType, g_and, g_xor, g_one, g_zero, Gate}
use empirical_zero_knowledge.LinearProof.{ProofTask}
use empirical_zero_knowledge.LinearProof.Tables.{majs, perms, reorder, identity}

abbrev pub to_nat : Bool → ℕ
to_nat true = 1
to_nat false = 0

-- `((0x01 << bit_idx) & p[byte_idx]) != 0`
unfoldable pub bit_from : List ℕ → ℕ → ℕ → Option Bool
bit_from p byte_idx bit_idx = get_elem? p byte_idx >>= λ b. some (test_bit b bit_idx)

-- The third bit, and the permutation that the three bits select; 6 and 7 select none.
unfoldable pub third_bit : List ℕ → List ℕ → ℕ → ℕ → Bool → Bool → Option (List ℕ)
unfolding bit_from
third_bit p indx byte_idx bit_idx bit1 bit2 = do
  bit3 ← bit_from p byte_idx bit_idx
  let perm_to_use = to_nat bit3 * 4 + to_nat bit2 * 2 + to_nat bit1
  some (if ltb 5 perm_to_use then indx else reorder perms perm_to_use indx)

-- The second bit; the position moves over a byte boundary after it, as after the first.
unfoldable pub second_bit : List ℕ → ℕ → List ℕ → ℕ → ℕ → Bool → Option (List ℕ)
unfolding bit_from third_bit
second_bit p lp indx byte_idx bit_idx bit1 = do
  bit2 ← bit_from p byte_idx bit_idx
  if ltb 6 bit_idx
      then if ltb lp (byte_idx + 1) then some indx else third_bit p indx (byte_idx + 1) 0 bit1 bit2
      else third_bit p indx byte_idx (bit_idx + 1) bit1 bit2

unfoldable pub apply_permutation : List ℕ → ℕ → List ℕ → ℕ → Option (List ℕ)
unfolding bit_from second_bit
apply_permutation p lp indx permidx = do
  let byte_idx = u32 (3 * permidx) / 8
  let bit_idx = u32 (3 * permidx) - byte_idx * 8
  bit1 ← bit_from p byte_idx bit_idx
  if ltb 6 bit_idx
      then if ltb lp (byte_idx + 1) then some indx else second_bit p lp indx (byte_idx + 1) 0 bit1
      else second_bit p lp indx byte_idx (bit_idx + 1) bit1

-- `bit_idx` does not move between the two reads, unless it is above 6.
unfoldable pub maj_second : List ℕ → List ℕ → ℕ → ℕ → Bool → Option (List ℕ)
unfolding bit_from
maj_second m indx byte_idx bit_idx bit1 = do
  bit2 ← bit_from m byte_idx bit_idx
  let index = to_nat bit2 * 2 + to_nat bit1
  some (if ltb 2 index then indx else reorder majs index indx)

unfoldable pub apply_majority : List ℕ → ℕ → List ℕ → ℕ → Option (List ℕ)
unfolding bit_from maj_second
apply_majority m lm indx majidx = do
  let byte_idx = u32 (2 * majidx) / 8
  let bit_idx = u32 (u32 (2 * majidx + 7) / 8 + 2 ^ 32 - byte_idx)
  bit1 ← bit_from m byte_idx bit_idx
  if ltb 6 bit_idx
      then if leb lm (byte_idx + 1) then some indx else maj_second m indx (byte_idx + 1) 0 bit1
      else maj_second m indx byte_idx bit_idx bit1

pub record Ptb : Type 0 where
  pub permaj : List ℕ
  pub lpermaj : ℕ
  pub and_challenge : ℕ
  pub and_count : ℕ
  pub circuit_size : ℕ
  pub no_inputs : ℕ
  pub address_of_one : ℕ
  pub result : List ProofTask

unfoldable pub ptb_visit_xor : Gate → Ptb → Ptb
ptb_visit_xor g ptb = record ptb {
  result = ptb.result ++ record { indicies = g.dst ∷ g.op1 ∷ g.op2 ∷ []; value = 6 } ∷ [];
}

-- A test that two bits are equal, or differ.
abbrev pub eq_task : ℕ → ℕ → ℕ → ProofTask
eq_task i j value = record { indicies = i ∷ j ∷ 0 ∷ []; value = value }

-- The index of the auxiliary bit `k` of the current AND gate, at `stride` bits a gate.
abbrev pub aux_index : Ptb → ℕ → ℕ → ℕ
aux_index ptb stride k = u32 (ptb.and_count * stride + ptb.circuit_size + ptb.no_inputs + k)

unfoldable pub permutation_tasks : Gate → Ptb → Option (List ProofTask)
permutation_tasks g ptb = do
  indx ← apply_permutation ptb.permaj ptb.lpermaj identity ptb.and_count
  some (
      eq_task ptb.address_of_one (aux_index ptb 3 (get_or indx 0 0)) 5
      ∷ eq_task g.op1 (aux_index ptb 3 (get_or indx 1 0)) 4
      ∷ eq_task g.op2 (aux_index ptb 3 (get_or indx 2 0)) 4
      ∷ [])

majority_tasks : Gate → Ptb → Option (List ProofTask)
majority_tasks g ptb = do
  indx ← apply_majority ptb.permaj ptb.lpermaj identity ptb.and_count
  some (
      eq_task g.op1 (aux_index ptb 2 (get_or indx 0 0)) 4
      ∷ eq_task g.op2 (aux_index ptb 2 (get_or indx 1 0)) 4
      ∷ [])

unfoldable pub ptb_visit_and : Gate → Ptb → Option Ptb
unfolding permutation_tasks majority_tasks
ptb_visit_and g ptb = do
  tasks ←
      if ptb.and_challenge == 0
      then permutation_tasks g ptb
      else if ptb.and_challenge == 1
      then majority_tasks g ptb
      else some []
  some (record ptb { result = ptb.result ++ tasks; and_count = ptb.and_count + 1 })

unfoldable pub ptb_dispatch : GType → Gate → Ptb → Option Ptb
ptb_dispatch g_and g ptb = ptb_visit_and g ptb
ptb_dispatch g_xor g ptb = some (ptb_visit_xor g ptb)
ptb_dispatch g_one g ptb = some ptb
ptb_dispatch g_zero g ptb = some ptb

unfoldable pub ptb_loop : List Gate → Ptb → Option Ptb
ptb_loop [] ptb = some ptb
ptb_loop (g ∷ gs) ptb = ptb_dispatch g.type g ptb >>= ptb_loop gs

-- `ptb_visit`
unfoldable pub ptb_visit : List Gate → Ptb → Option (List ProofTask)
unfolding ptb_loop ptb_dispatch ptb_visit_and ptb_visit_xor
ptb_visit circuit ptb = do
  done ← ptb_loop circuit (record ptb { result = []; and_count = 0; circuit_size = length circuit })
  some done.result
