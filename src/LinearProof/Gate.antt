-- ===== src/LinearProof/Gate.antt =====
-- What the generator writes for one AND gate, and what the task builder reads there.
use empirical_zero_knowledge.Prelude.{
  ltb, if◌then◌else◌, ℕ, ◌+◌, ◌*◌, ◌%◌, ◌^◌, ◌<◌, ◌≤◌, ◌≡◌, refl, ap, ◌∙◌, Bool, false, some, List,
  ◌==◌, length, get_or, u32, IsBytes, arith,
}
use empirical_zero_knowledge.BitString.{get_bit, test_bit}
use empirical_zero_knowledge.BitString.Laws.{bit_at, get_bit-eq-bit_at}
use empirical_zero_knowledge.Circuit.{Gate}
use empirical_zero_knowledge.LinearProof.Tables.{perms, entry, reorder, identity, below_six}
use empirical_zero_knowledge.LinearProof.Builder.{apply_permutation}
use empirical_zero_knowledge.LinearProof.Position.{select, apply_permutation_lem}
use empirical_zero_knowledge.LinearProof.Generator.{
  GPamImpl, set_three, set_majority, permute_bits, gpam_visit_and,
}
use empirical_zero_knowledge.LinearProof.Three.{
  three, IsAlike, set_three-IsThree, set_majority-total, at_first, at_second, at_third,
}

-- The three bits of a number below six select its permutation.
selects :
    (r : ℕ)
    → r < 6
    → select (r % 2 == 1) (test_bit r 1) (test_bit r 2) identity ≡ reorder perms r identity
unfolding test_bit reorder
selects r h =
    below_six
      (λ r. select (r % 2 == 1) (test_bit r 1) (test_bit r 2) identity ≡ reorder perms r identity) r
      h refl refl refl refl refl refl

-- The bits of `dst`, `op1` and `op2` stand at the places that the permutation gives them.
abbrev pub Places : ℕ → ℕ → (ℕ → Bool) → Bool → Bool → Bool → Type 0
Places i r a d o₁ o₂ =
    (a (i + entry perms r 0) ≡ d) × (a (i + entry perms r 1) ≡ o₁) × (a (i + entry perms r 2) ≡ o₂)

abbrev permuted : ℕ → ℕ → Bool → Bool → Bool → (ℕ → Bool) → ℕ → Bool
permuted i r d o₁ o₂ old =
    let bits = permute_bits r d o₁ o₂ in
    three i (get_or bits 0 false) (get_or bits 1 false) (get_or bits 2 false) old

permuted-Places :
    (i r : ℕ) (a old : ℕ → Bool) (d o₁ o₂ : Bool)
    → r < 6
    → ((j : ℕ) → a j ≡ permuted i r d o₁ o₂ old j)
    → Places i r a d o₁ o₂
unfolding permute_bits
permuted-Places i r a old d o₁ o₂ h =
    below_six (λ r. ((j : ℕ) → a j ≡ permuted i r d o₁ o₂ old j) → Places i r a d o₁ o₂) r h
      (λ e.
        (e _ ∙ at_first i old d o₁ o₂, e _ ∙ at_second i old d o₁ o₂, e _ ∙ at_third i old d o₁ o₂))
      (λ e.
        (e _ ∙ at_first i old d o₂ o₁, e _ ∙ at_third i old d o₂ o₁, e _ ∙ at_second i old d o₂ o₁))
      (λ e.
        (e _ ∙ at_second i old o₁ d o₂, e _ ∙ at_first i old o₁ d o₂, e _ ∙ at_third i old o₁ d o₂))
      (λ e.
        (e _ ∙ at_second i old o₂ d o₁, e _ ∙ at_third i old o₂ d o₁, e _ ∙ at_first i old o₂ d o₁))
      (λ e.
        (e _ ∙ at_third i old o₁ o₂ d, e _ ∙ at_first i old o₁ o₂ d, e _ ∙ at_second i old o₁ o₂ d))
      (λ e.
        (e _ ∙ at_third i old o₂ o₁ d, e _ ∙ at_second i old o₂ o₁ d, e _ ∙ at_first i old o₂ o₁ d))

-- The three bits of gate number `c` in a string of permutations are those of `r`.
abbrev pub IsSelected : List ℕ → ℕ → ℕ → Type 0
IsSelected p c r =
    (bit_at p (c * 3 + 0) ≡ (r % 2 == 1))
    × (bit_at p (c * 3 + 1) ≡ test_bit r 1)
    × (bit_at p (c * 3 + 2) ≡ test_bit r 2)

-- The lookup finds the permutation whose bits stand at the place of the gate.
pub apply_permutation-IsSelected :
    (p : List ℕ) (r c lp : ℕ)
    → r < 6
    → IsSelected p c r
    → 3 * c + 2 < 8 * length p
    → 3 * c + 2 < 2 ^ 32
    → length p ≤ lp
    → apply_permutation p lp identity c ≡ some (reorder perms r identity)
apply_permutation-IsSelected p r c lp h bits range few fits =
    let i₀ : 3 * c ≡ c * 3 + 0 = omega arith in
    let i₁ : 3 * c + 1 ≡ c * 3 + 1 = omega arith in
    let i₂ : 3 * c + 2 ≡ c * 3 + 2 = omega arith in
    apply_permutation_lem p lp fits identity c (omega arith) range
    ∙ ap (λ b. some (select b (bit_at p (3 * c + 1)) (bit_at p (3 * c + 2)) identity))
        (ap (bit_at p) i₀ ∙ bits.0)
    ∙ ap (λ b. some (select (r % 2 == 1) b (bit_at p (3 * c + 2)) identity))
        (ap (bit_at p) i₁ ∙ bits.1)
    ∙ ap (λ b. some (select (r % 2 == 1) (test_bit r 1) b identity)) (ap (bit_at p) i₂ ∙ bits.2)
    ∙ ap some (selects r h)

below_kept :
    (i : ℕ) (new old : ℕ → Bool) (b₁ b₂ b₃ : Bool)
    → ((j : ℕ) → new j ≡ three i b₁ b₂ b₃ old j)
    → (j : ℕ) → (if ltb j i then new j else old j) ≡ old j
below_kept i new old b₁ b₂ b₃ reads j = ground (arith, reads j)

-- The arrays have room for one more AND gate, and the gate's addresses lie in the string.
pub record HasRoom (g : Gate) (impl : GPamImpl) : Type 0 where
  pub permutations_bytes : IsBytes impl.result.permutations
  pub aux_bytes : IsBytes impl.result.aux
  pub majority_bytes : IsBytes impl.result.majority
  pub permutations_room : 3 * impl.and_count + 2 < 8 * length impl.result.permutations
  pub aux_room : 3 * impl.and_count + 2 < 8 * length impl.result.aux
  pub majority_room : 2 * impl.and_count + 1 < 8 * length impl.result.majority
  pub few : 3 * impl.and_count + 2 < 2 ^ 32
  pub dst_in : g.dst < 8 * length impl.evaled_circuit
  pub op1_in : g.op1 < 8 * length impl.evaled_circuit
  pub op2_in : g.op2 < 8 * length impl.evaled_circuit

-- The gate has the number `impl.and_count` and the permutation `r`: the lookup of the task
-- builder finds that permutation, the auxiliary bits are the gate's bits in its order, the
-- bits of earlier gates and the evaluated circuit are as before, one call was made of the random
-- source, and the arrays keep their sizes.
pub record IsDrawn (r : ℕ) (g : Gate) (impl impl' : GPamImpl) : Type 0 where
  pub counted : impl'.and_count ≡ impl.and_count + 1
  pub called : impl'.calls ≡ impl.calls + 1
  pub same_circuit : impl'.evaled_circuit ≡ impl.evaled_circuit
  pub selected : IsSelected impl'.result.permutations impl.and_count r
  pub permutations_alike : IsAlike impl.result.permutations impl'.result.permutations
  pub aux_alike : IsAlike impl.result.aux impl'.result.aux
  pub majority_alike : IsAlike impl.result.majority impl'.result.majority
  pub same_ands : impl'.result.no_ands ≡ impl.result.no_ands
  pub lookup :
      apply_permutation impl'.result.permutations
        (length impl'.result.permutations)
        identity
        impl.and_count
      ≡ some (reorder perms r identity)
  pub places :
      Places
        (impl.and_count * 3)
        r
        (bit_at impl'.result.aux)
        (bit_at impl.evaled_circuit g.dst)
        (bit_at impl.evaled_circuit g.op1)
        (bit_at impl.evaled_circuit g.op2)
  pub kept_permutations :
      (j : ℕ)
      → (if ltb j (impl.and_count * 3)
          then bit_at impl'.result.permutations j
          else bit_at impl.result.permutations j)
        ≡ bit_at impl.result.permutations j
  pub kept_aux :
      (j : ℕ)
      → (if ltb j (impl.and_count * 3) then bit_at impl'.result.aux j else bit_at impl.result.aux j)
        ≡ bit_at impl.result.aux j

module _ (random : ℕ → ℕ) (g : Gate) (impl : GPamImpl) where
  abbrev drawn : ℕ
  drawn = random impl.calls % 6

  abbrev d : Bool
  d = bit_at impl.evaled_circuit g.dst

  abbrev o₁ : Bool
  o₁ = bit_at impl.evaled_circuit g.op1

  abbrev o₂ : Bool
  o₂ = bit_at impl.evaled_circuit g.op2

  abbrev aux_bit : ℕ → Bool
  aux_bit k = get_or (permute_bits drawn d o₁ o₂) k false

  abbrev after : List ℕ → List ℕ → List ℕ → GPamImpl
  after permutations aux majority = record impl {
    and_count = impl.and_count + 1;
    calls = impl.calls + 1;
    result = record {
      permutations = permutations;
      majority = majority;
      aux = aux;
      no_ands = impl.result.no_ands;
    };
  }

  visit-chain :
      (permutations aux majority : List ℕ)
      → 3 * impl.and_count + 2 < 2 ^ 32
      → get_bit impl.evaled_circuit g.dst ≡ some d
      → get_bit impl.evaled_circuit g.op1 ≡ some o₁
      → get_bit impl.evaled_circuit g.op2 ≡ some o₂
      → set_three impl.result.permutations
          (impl.and_count * 3)
          (drawn % 2 == 1)
          (test_bit drawn 1)
          (test_bit drawn 2)
        ≡ some permutations
      → set_three impl.result.aux (impl.and_count * 3) (aux_bit 0) (aux_bit 1) (aux_bit 2)
        ≡ some aux
      → set_majority impl.result.majority (impl.and_count * 2) (aux_bit 0) (aux_bit 1) (aux_bit 2)
        ≡ some majority
      → gpam_visit_and random g impl ≡ some (after permutations aux majority)
  unfolding gpam_visit_and
  visit-chain permutations aux majority few e₁ e₂ e₃ e₄ e₅ e₆ =
      let same₃ : u32 (impl.and_count * 3) ≡ impl.and_count * 3 = omega arith in
      let same₂ : u32 (impl.and_count * 2) ≡ impl.and_count * 2 = omega arith in
      rw (e₁, e₂, e₃, same₃, same₂, e₄, e₅, e₆) refl

  -- The visit of an AND gate succeeds if there is room; the task builder's lookup then finds the
  -- permutation that was drawn, the auxiliary bits are the gate's bits in its order, the bits of
  -- earlier gates and the evaluated circuit are kept, one call was made of the random source, and
  -- the arrays keep their sizes.
  pub gpam_visit_and-IsDrawn :
      HasRoom g impl
      → (impl' : GPamImpl) × (gpam_visit_and random g impl ≡ some impl')
        × IsDrawn (random impl.calls % 6) g impl impl'
  gpam_visit_and-IsDrawn room =
      let c = impl.and_count in
      let few : 3 * c + 2 < 2 ^ 32 = room.few in
      let p_room : 3 * c + 2 < 8 * length impl.result.permutations = room.permutations_room in
      let a_room : 3 * c + 2 < 8 * length impl.result.aux = room.aux_room in
      let m_room : 2 * c + 1 < 8 * length impl.result.majority = room.majority_room in
      let below : drawn < 6 = omega arith in
      let (ps, e₄, wp) =
        set_three-IsThree impl.result.permutations (c * 3) (drawn % 2 == 1) (test_bit drawn 1)
          (test_bit drawn 2) room.permutations_bytes (omega arith) (omega arith) in
      let (aux, e₅, wa) =
        set_three-IsThree impl.result.aux (c * 3) (aux_bit 0) (aux_bit 1) (aux_bit 2) room.aux_bytes
          (omega arith) (omega arith) in
      let (majority, e₆, same_majority) =
        set_majority-total impl.result.majority (c * 2) (aux_bit 0) (aux_bit 1) (aux_bit 2)
          room.majority_bytes (omega arith) (omega arith) in
      let same : length ps ≡ length impl.result.permutations = wp.same_length in
      let b₁ = drawn % 2 == 1 in
      let b₂ = test_bit drawn 1 in
      let b₃ = test_bit drawn 2 in
      let old = bit_at impl.result.permutations in
      let selected : IsSelected ps c drawn = (
        wp.reads _ ∙ at_first (c * 3) old b₁ b₂ b₃,
        wp.reads _ ∙ at_second (c * 3) old b₁ b₂ b₃,
        wp.reads _ ∙ at_third (c * 3) old b₁ b₂ b₃,
      ) in
      (
        after ps aux majority,
        visit-chain ps aux majority few (get_bit-eq-bit_at impl.evaled_circuit g.dst room.dst_in)
            (get_bit-eq-bit_at impl.evaled_circuit g.op1 room.op1_in)
            (get_bit-eq-bit_at impl.evaled_circuit g.op2 room.op2_in) e₄ e₅ e₆,
        record {
          counted = refl;
          called = refl;
          same_circuit = refl;
          selected = selected;
          permutations_alike = (wp.bytes, wp.same_length);
          aux_alike = (wa.bytes, wa.same_length);
          majority_alike = same_majority;
          same_ands = refl;
          lookup =
              apply_permutation-IsSelected ps drawn c (length ps) below selected (omega arith) few
                (omega arith);
          places =
              permuted-Places (c * 3) drawn (bit_at aux) (bit_at impl.result.aux) d o₁ o₂ below
                wa.reads;
          kept_permutations =
              below_kept (c * 3) (bit_at ps) (bit_at impl.result.permutations) (drawn % 2 == 1)
                (test_bit drawn 1) (test_bit drawn 2) wp.reads;
          kept_aux =
              below_kept (c * 3) (bit_at aux) (bit_at impl.result.aux) (aux_bit 0) (aux_bit 1)
                (aux_bit 2) wa.reads;
        },
      )
