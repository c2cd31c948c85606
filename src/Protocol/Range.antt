-- ===== src/Protocol/Range.antt =====
-- How many tasks a circuit gives for the and-challenge 0, and where their indices lie.
use empirical_zero_knowledge.Prelude.{
  Ensures, Ensures-bind, Ensures-bind_with, Ensures-weaken, Ensures-eq, Ensures-if, ℕ, ◌+◌, ◌*◌,
  ◌/◌, ◌-◌, ◌^◌, ◌<◌, ◌≤◌, ◌≡◌, refl, ap, Bool, true, false, Option, some, ◌>>=◌, List, [], ◌∷◌,
  ◌++◌, ltb, if◌then◌else◌, ◌==◌, length, length-append, get_or, All, All-append, u32, arith,
}
use mathlib.Core.Path.{subst}
use empirical_zero_knowledge.Circuit.{GType, g_and, g_xor, g_one, g_zero, Gate}
use empirical_zero_knowledge.LinearProof.{ProofTask}
use empirical_zero_knowledge.LinearProof.Tables.{perms, reorder, identity}
use empirical_zero_knowledge.LinearProof.Generator.{count_ands}
use empirical_zero_knowledge.LinearProof.Drawing.{next_and, ands_lem}
use empirical_zero_knowledge.LinearProof.Builder.{
  to_nat, bit_from, third_bit, second_bit, apply_permutation, permutation_tasks, Ptb, ptb_visit_and,
  ptb_visit_xor, ptb_dispatch, ptb_loop, ptb_visit, eq_task, aux_index,
}
use empirical_zero_knowledge.Protocol.Linear.{InRange}
use empirical_zero_knowledge.Protocol.Honest.{AddressedIn}

-- Three places below three.
abbrev IsSmall : List ℕ → Type 0
IsSmall indx = (get_or indx 0 0 < 3) × (get_or indx 1 0 < 3) × (get_or indx 2 0 < 3)

selected-IsSmall :
    (b₁ b₂ b₃ : Bool)
    → IsSmall (
        let r = to_nat b₃ * 4 + to_nat b₂ * 2 + to_nat b₁ in
        if ltb 5 r then identity else reorder perms r identity)
unfolding reorder
selected-IsSmall false false false = omega arith
selected-IsSmall false false true = omega arith
selected-IsSmall false true false = omega arith
selected-IsSmall false true true = omega arith
selected-IsSmall true false false = omega arith
selected-IsSmall true false true = omega arith
selected-IsSmall true true false = omega arith
selected-IsSmall true true true = omega arith

third_bit-IsSmall :
    (p : List ℕ) (byte_idx bit_idx : ℕ) (b₁ b₂ : Bool)
    → Ensures IsSmall (third_bit p identity byte_idx bit_idx b₁ b₂)
unfolding third_bit
third_bit-IsSmall p byte_idx bit_idx b₁ b₂ =
    Ensures-bind IsSmall (bit_from p byte_idx bit_idx) _ (λ b₃. selected-IsSmall b₁ b₂ b₃)

second_bit-IsSmall :
    (p : List ℕ) (lp byte_idx bit_idx : ℕ) (b₁ : Bool)
    → Ensures IsSmall (second_bit p lp identity byte_idx bit_idx b₁)
unfolding second_bit
second_bit-IsSmall p lp byte_idx bit_idx b₁ =
    Ensures-bind IsSmall (bit_from p byte_idx bit_idx) _ (λ b₂.
      Ensures-if IsSmall (ltb 6 bit_idx) _ _
        (Ensures-if IsSmall (ltb lp (byte_idx + 1)) _ _ (omega arith)
          (third_bit-IsSmall p (byte_idx + 1) 0 b₁ b₂))
        (third_bit-IsSmall p byte_idx (bit_idx + 1) b₁ b₂))

apply_permutation-IsSmall :
    (p : List ℕ) (lp permidx : ℕ) → Ensures IsSmall (apply_permutation p lp identity permidx)
unfolding apply_permutation
apply_permutation-IsSmall p lp permidx =
    let byte_idx : ℕ = u32 (3 * permidx) / 8 in
    let bit_idx : ℕ = u32 (3 * permidx) - byte_idx * 8 in
    Ensures-bind IsSmall (bit_from p byte_idx bit_idx) _ (λ b₁.
      Ensures-if IsSmall (ltb 6 bit_idx) _ _
        (Ensures-if IsSmall (ltb lp (byte_idx + 1)) _ _ (omega arith)
          (second_bit-IsSmall p lp (byte_idx + 1) 0 b₁))
        (second_bit-IsSmall p lp byte_idx (bit_idx + 1) b₁))

visit_and_zero :
    (g : Gate) (ptb : Ptb)
    → ptb.and_challenge ≡ 0
    → ptb_visit_and g ptb ≡ (
        permutation_tasks g ptb >>= λ tasks.
        some (record ptb { result = ptb.result ++ tasks; and_count = ptb.and_count + 1 }))
unfolding ptb_visit_and
visit_and_zero g ptb zeroth =
    ap
      (λ (m : Option (List ProofTask)). m >>= λ tasks.
        some (record ptb { result = ptb.result ++ tasks; and_count = ptb.and_count + 1 }))
      (chosen ptb.and_challenge (permutation_tasks g ptb) _ zeroth)
  where
    chosen : (c : ℕ) (x y : Option (List ProofTask)) → c ≡ 0 → (if c == 0 then x else y) ≡ x
    chosen c x y e = rw e refl

-- All indices lie below `bound`.
module _ (bound : ℕ) (fits : bound < 2 ^ 32) where
  record IsWithin (rest : ℕ) (ptb : Ptb) : Type 0 where
    challenge : ptb.and_challenge ≡ 0
    one : ptb.address_of_one < bound
    room : ptb.circuit_size + ptb.no_inputs + 3 * (ptb.and_count + rest) ≤ bound
    tasks : All (InRange bound) ptb.result

  -- So many tasks at most, with their indices in range.
  abbrev AtMost : ℕ → Ptb → Type 0
  AtMost n ptb = All (InRange bound) ptb.result × (length ptb.result ≤ n)

  permutation_tasks_lem :
      (g : Gate) (rest : ℕ) (ptb : Ptb)
      → IsWithin (rest + 1) ptb
      → AddressedIn bound g_and g
      → Ensures (λ ts. All (InRange bound) ts × (length ts ≡ 3)) (permutation_tasks g ptb)
  unfolding permutation_tasks
  permutation_tasks_lem g rest ptb within inside =
      Ensures-bind_with IsSmall _ (apply_permutation ptb.permaj ptb.lpermaj identity ptb.and_count)
        _ (apply_permutation-IsSmall ptb.permaj ptb.lpermaj ptb.and_count)
        (λ indx small. tasks_lem indx small)
    where
      wrapped : (a b i : ℕ) → i < 3 → a * 3 + b + 3 ≤ bound → u32 (a * 3 + b + i) < bound
      wrapped a b i lt le = omega arith

      place : (i : ℕ) → i < 3 → aux_index ptb 3 i < bound
      place i lt =
          let room = within.room in
          let whole : ptb.and_count * 3 + ptb.circuit_size + ptb.no_inputs + i < bound =
            omega arith in
          omega arith

      tasks_lem :
          (indx : List ℕ)
          → IsSmall indx
          → All (InRange bound) (
              eq_task ptb.address_of_one (aux_index ptb 3 (get_or indx 0 0)) 5
              ∷ eq_task g.op1 (aux_index ptb 3 (get_or indx 1 0)) 4
              ∷ eq_task g.op2 (aux_index ptb 3 (get_or indx 2 0)) 4
              ∷ [])
            × (◌≡◌ {A = ℕ} 3 3)
      tasks_lem indx small = (
        (
          (within.one, (place (get_or indx 0 0) small.0, tt)),
          (
            (inside.1, (place (get_or indx 1 0) small.1, tt)),
            ((inside.2, (place (get_or indx 2 0) small.2, tt)), tt),
          ),
        ),
        refl,
      )

  -- One gate adds at most a task, and three more if it is an AND gate.
  abbrev Grows : GType → ℕ → Ptb → Ptb → Type 0
  Grows t rest ptb ptb' =
      IsWithin rest ptb' × (length ptb'.result ≤ length ptb.result + 1 + 3 * next_and t 0)

  add_tasks :
      (t : GType) (rest n : ℕ) (ptb : Ptb) (ts : List ProofTask)
      → IsWithin (next_and t rest) ptb
      → n + rest ≤ ptb.and_count + next_and t rest
      → All (InRange bound) ts
      → length ts ≤ 1 + 3 * next_and t 0
      → Grows t rest ptb (record ptb { result = ptb.result ++ ts; and_count = n })
  add_tasks t rest n ptb ts within counted range few = (
    record {
      challenge = within.challenge;
      one = within.one;
      room = let room = within.room in omega arith;
      tasks = All-append (InRange bound) ptb.result ts within.tasks range;
    },
    omega (arith, length-append ptb.result ts),
  )

  dispatch_lem :
      (t : GType) (g : Gate) (rest : ℕ) (ptb : Ptb)
      → IsWithin (next_and t rest) ptb
      → AddressedIn bound t g
      → Ensures (Grows t rest ptb) (ptb_dispatch t g ptb)
  unfolding ptb_dispatch ptb_visit_xor
  dispatch_lem g_and g rest ptb within inside = rw (visit_and_zero g ptb within.challenge) (
      Ensures-bind_with _ (Grows g_and rest ptb) (permutation_tasks g ptb) _
        (permutation_tasks_lem g rest ptb within inside)
        (λ ts made.
          add_tasks g_and rest (ptb.and_count + 1) ptb ts within (omega arith) made.0
            (let three = made.1 in omega arith)))
  dispatch_lem g_xor g rest ptb within inside =
      add_tasks g_xor rest ptb.and_count ptb
        (record { indicies = g.dst ∷ g.op1 ∷ g.op2 ∷ []; value = 6 } ∷ []) within (omega arith)
        ((inside.0, (inside.1, (inside.2, tt))), tt) (omega arith)
  dispatch_lem g_one g rest ptb within inside = (within, omega arith)
  dispatch_lem g_zero g rest ptb within inside = (within, omega arith)

  next_and-add : (t : GType) (c : ℕ) → next_and t c ≡ next_and t 0 + c
  next_and-add g_and c = omega arith
  next_and-add g_xor c = omega arith
  next_and-add g_one c = omega arith
  next_and-add g_zero c = omega arith

  loop_lem :
      (random : ℕ → ℕ) (gs : List Gate) (ptb : Ptb)
      → IsWithin (count_ands gs) ptb
      → All (λ (g : Gate). AddressedIn bound g.type g) gs
      → Ensures (AtMost (length ptb.result + length gs + 3 * count_ands gs)) (ptb_loop gs ptb)
  unfolding ptb_loop
  loop_lem random [] ptb within inside = (within.tasks, omega arith)
  loop_lem random (g ∷ gs) ptb within inside =
      let count = ands_lem random g.type g gs refl in
      let split = next_and-add g.type (count_ands gs) in
      Ensures-bind_with (Grows g.type (count_ands gs) ptb) _ (ptb_dispatch g.type g ptb)
        (ptb_loop gs)
        (dispatch_lem g.type g (count_ands gs) ptb (subst (λ n. IsWithin n ptb) count within)
          inside.0)
        (λ ptb' grown.
          Ensures-weaken _ _ (ptb_loop gs ptb') (loop_lem random gs ptb' grown.0 inside.1)
            (λ done most. (most.0, let m = most.1 in let g' = grown.1 in omega arith)))

-- The tasks of a circuit for the and-challenge 0.
pub ptb_visit-InRange :
    (circuit : List Gate) (ptb : Ptb) (bound : ℕ) {ts : List ProofTask}
    → ptb.and_challenge ≡ 0
    → ptb.address_of_one < bound
    → All (λ (g : Gate). AddressedIn bound g.type g) circuit
    → length circuit + ptb.no_inputs + 3 * count_ands circuit ≤ bound
    → bound < 2 ^ 32
    → ptb_visit circuit ptb ≡ some ts
    → All (InRange bound) ts × (length ts ≤ length circuit + 3 * count_ands circuit)
unfolding ptb_visit
ptb_visit-InRange circuit ptb bound challenge one inside room fits visit =
    let start : Ptb = record ptb { result = []; and_count = 0; circuit_size = length circuit } in
    let within : IsWithin bound fits (count_ands circuit) start = record {
      challenge = challenge;
      one = one;
      room = omega arith;
      tasks = tt;
    } in
    Ensures-eq _ (ptb_visit circuit ptb)
      (Ensures-bind_with (AtMost bound fits (0 + length circuit + 3 * count_ands circuit))
        (λ (r : List ProofTask).
          All (InRange bound) r × (length r ≤ length circuit + 3 * count_ands circuit))
        (ptb_loop circuit start) (λ done. some done.result)
        (loop_lem bound fits (λ i. 0) circuit start within inside)
        (λ done most. (most.0, let m = most.1 in omega arith)))
      visit
