-- ===== src/Protocol/AndTasks.antt =====
-- What the tasks of an AND gate for the and-challenge 0 say of an honest message: they hold for
-- some gates only, although the message follows the circuit.
use empirical_zero_knowledge.Prelude.{
  ℕ, ◌+◌, ◌*◌, ◌^◌, ◌<◌, ◌≡◌, refl, ◌∙◌, Bool, true, not, ◌&&◌, ◌||◌, xor, some, List, [], ◌∷◌,
  ◌++◌, ◌==◌, if◌then◌else◌, get_or, arith,
}
use empirical_zero_knowledge.Circuit.{Gate}
use empirical_zero_knowledge.LinearProof.{ProofTask}
use empirical_zero_knowledge.LinearProof.Tables.{perms, reorder, identity, below_six}
use empirical_zero_knowledge.LinearProof.Builder.{
  Ptb, eq_task, aux_index, apply_permutation, ptb_visit_and,
}
use empirical_zero_knowledge.LinearProof.Gate.{Places}
use empirical_zero_knowledge.Protocol.Linear.{all_hold, task_holds}
use empirical_zero_knowledge.Protocol.Xor.{parity}

-- The permutations that are no involutions.
abbrev pub is_cycle : ℕ → Bool
is_cycle r = r == 3 || r == 4

module _ (s : ℕ → Bool) (i j : ℕ) where
  task_differs : s i ≡ true → task_holds s (eq_task i j 5) ≡ not (s j)
  unfolding parity xor
  task_differs e = ground arith

  task_agrees : task_holds s (eq_task i j 4) ≡ not (xor (s i) (s j))
  unfolding parity xor
  task_agrees = ground arith

module _ (d o₁ o₂ : Bool) (e : d ≡ (o₁ && o₂)) where
  plain_verdict : (not d && (not (xor o₁ o₁) && not (xor o₂ o₂))) ≡ not (o₁ && o₂)
  unfolding xor
  plain_verdict = ground arith

  third_verdict : (not o₁ && (not (xor o₁ o₂) && not (xor o₂ d))) ≡ (not o₁ && not o₂)
  unfolding xor
  third_verdict = ground arith

  fourth_verdict : (not o₂ && (not (xor o₁ d) && not (xor o₂ o₁))) ≡ (not o₁ && not o₂)
  unfolding xor
  fourth_verdict = ground arith

module _ (s : ℕ → Bool) (g : Gate) (ptb : Ptb) where
  -- The index of the first auxiliary bit of the gate.
  abbrev pub base : ℕ
  base = ptb.and_count * 3 + ptb.circuit_size + ptb.no_inputs

  abbrev tasks : List ℕ → List ProofTask
  tasks indx =
      eq_task ptb.address_of_one (aux_index ptb 3 (get_or indx 0 0)) 5
      ∷ eq_task g.op1 (aux_index ptb 3 (get_or indx 1 0)) 4
      ∷ eq_task g.op2 (aux_index ptb 3 (get_or indx 2 0)) 4
      ∷ []

  visit_lem :
      (indx : List ℕ)
      → (ptb.and_challenge == 0) ≡ true
      → apply_permutation ptb.permaj ptb.lpermaj identity ptb.and_count ≡ some indx
      → ptb_visit_and g ptb
        ≡ some (record ptb { result = ptb.result ++ tasks indx; and_count = ptb.and_count + 1 })
  unfolding ptb_visit_and
  visit_lem indx zero_challenge found = rw (zero_challenge, found) refl

  all_hold-tasks :
      (a b c : ℕ) (x y z : Bool)
      → base + a < 2 ^ 32
      → base + b < 2 ^ 32
      → base + c < 2 ^ 32
      → s ptb.address_of_one ≡ true
      → s (base + a) ≡ x
      → s (base + b) ≡ y
      → s (base + c) ≡ z
      → all_hold s (tasks (a ∷ b ∷ c ∷ []))
        ≡ (not x && (not (xor (s g.op1) y) && not (xor (s g.op2) z)))
  unfolding all_hold
  all_hold-tasks a b c x y z h₁ h₂ h₃ one e₁ e₂ e₃ =
      let w₁ : aux_index ptb 3 a ≡ base + a = omega arith in
      let w₂ : aux_index ptb 3 b ≡ base + b = omega arith in
      let w₃ : aux_index ptb 3 c ≡ base + c = omega arith in
      rw
        (
          w₁,
          w₂,
          w₃,
          task_differs s ptb.address_of_one (base + a) one,
          task_agrees s g.op1 (base + b),
          task_agrees s g.op2 (base + c),
          e₁,
          e₂,
          e₃,
        )
        (ground arith)

  -- What the tasks say: for a 3-cycle that both operands are zero, otherwise that the output is.
  abbrev pub verdict : ℕ → Bool
  verdict r = if is_cycle r then not (s g.op1) && not (s g.op2) else not (s g.op1 && s g.op2)

  tasks-verdict :
      (r : ℕ)
      → r < 6
      → base + 2 < 2 ^ 32
      → s ptb.address_of_one ≡ true
      → s g.dst ≡ (s g.op1 && s g.op2)
      → Places base r s (s g.dst) (s g.op1) (s g.op2)
      → all_hold s (tasks (reorder perms r identity)) ≡ verdict r
  unfolding reorder
  tasks-verdict r h small one holds =
      let h₀ : base + 0 < 2 ^ 32 = omega arith in
      let h₁ : base + 1 < 2 ^ 32 = omega arith in
      let plain = plain_verdict (s g.dst) (s g.op1) (s g.op2) holds in
      below_six
        (λ r.
          Places base r s (s g.dst) (s g.op1) (s g.op2)
          → all_hold s (tasks (reorder perms r identity)) ≡ verdict r)
        r h (λ e. all_hold-tasks 0 1 2 _ _ _ h₀ h₁ small one e.0 e.1 e.2 ∙ plain)
        (λ e. all_hold-tasks 0 2 1 _ _ _ h₀ small h₁ one e.0 e.1 e.2 ∙ plain)
        (λ e. all_hold-tasks 1 0 2 _ _ _ h₁ h₀ small one e.0 e.1 e.2 ∙ plain)
        (λ e.
          all_hold-tasks 2 0 1 _ _ _ small h₀ h₁ one e.1 e.2 e.0
          ∙ third_verdict (s g.dst) (s g.op1) (s g.op2) holds)
        (λ e.
          all_hold-tasks 1 2 0 _ _ _ h₁ small h₀ one e.2 e.0 e.1
          ∙ fourth_verdict (s g.dst) (s g.op1) (s g.op2) holds)
        (λ e. all_hold-tasks 2 1 0 _ _ _ small h₁ h₀ one e.0 e.1 e.2 ∙ plain)

  -- For an AND gate and the and-challenge 0, if the lookup finds the permutation `r`, the
  -- auxiliary indices do not wrap, the address of one holds one, the output is the conjunction of
  -- the operands and the auxiliary bits are the gate's bits in the order of `r`: the visit
  -- succeeds, and the tasks that it adds hold exactly if both operands are zero, for a 3-cycle
  -- `r`, or if the output is zero, for any other `r`.
  pub ptb_visit_and-all_hold :
      (r : ℕ)
      → r < 6
      → ptb.and_challenge ≡ 0
      → base + 2 < 2 ^ 32
      → apply_permutation ptb.permaj ptb.lpermaj identity ptb.and_count
        ≡ some (reorder perms r identity)
      → s ptb.address_of_one ≡ true
      → s g.dst ≡ (s g.op1 && s g.op2)
      → Places base r s (s g.dst) (s g.op1) (s g.op2)
      → (ts : List ProofTask) × (ptb_visit_and g ptb
          ≡ some (record ptb { result = ptb.result ++ ts; and_count = ptb.and_count + 1 }))
        × (all_hold s ts ≡ verdict r)
  ptb_visit_and-all_hold r h challenge small found one holds places = (
    tasks (reorder perms r identity),
    visit_lem (reorder perms r identity) (ground arith) found,
    tasks-verdict r h small one holds places,
  )
