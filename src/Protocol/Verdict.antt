-- ===== src/Protocol/Verdict.antt =====
-- What the tasks of a whole circuit for the and-challenge 0 say of a string that follows the circuit.
use empirical_zero_knowledge.Prelude.{
  ℕ, ◌+◌, ◌*◌, ◌%◌, ◌^◌, ◌<◌, ◌≤◌, ◌≡◌, refl, sym, ap, ap₂, ◌∙◌, Bool, true, not, ◌&&◌, xor, some,
  ◌>>=◌, List, [], ◌∷◌, ◌++◌, if◌then◌else◌, length, append_assoc, arith,
}
use mathlib.Core.List.{append-nil}
use mathlib.Core.Path.{subst}
use empirical_zero_knowledge.Circuit.{GType, g_and, g_xor, g_one, g_zero, Gate, HoldsAt, Satisfies}
use empirical_zero_knowledge.LinearProof.{ProofTask}
use empirical_zero_knowledge.LinearProof.Generator.{count_ands}
use empirical_zero_knowledge.LinearProof.Builder.{Ptb, ptb_visit_xor, ptb_dispatch, ptb_loop}
use empirical_zero_knowledge.LinearProof.Gate.{apply_permutation-IsSelected}
use empirical_zero_knowledge.LinearProof.Drawing.{DrawnAt, IsAllDrawn, next_and, ands_lem}
use empirical_zero_knowledge.Protocol.Linear.{all_hold}
use empirical_zero_knowledge.Protocol.Xor.{parity}
use empirical_zero_knowledge.Protocol.AndTasks.{is_cycle, ptb_visit_and-all_hold}

-- What the tasks of a gate say, `c` the number of the AND gate and `random c % 6` its permutation.
abbrev pub gate_verdict : (ℕ → ℕ) → (ℕ → Bool) → GType → Gate → ℕ → Bool
gate_verdict random s g_and g c =
    if is_cycle (random c % 6) then not (s g.op1) && not (s g.op2) else not (s g.op1 && s g.op2)
gate_verdict random s g_xor g c = true
gate_verdict random s g_one g c = true
gate_verdict random s g_zero g c = true

-- For each AND gate: both operands are zero, if its permutation is a 3-cycle, and else the output is.
unfoldable pub circuit_verdict : (ℕ → ℕ) → (ℕ → Bool) → List Gate → ℕ → Bool
circuit_verdict random s [] c = true
circuit_verdict random s (g ∷ gs) c =
    gate_verdict random s g.type g c && circuit_verdict random s gs (next_and g.type c)

pub all_hold-append :
    (s : ℕ → Bool) (xs ys : List ProofTask)
    → all_hold s (xs ++ ys) ≡ (all_hold s xs && all_hold s ys)
unfolding all_hold
all_hold-append s [] ys = refl
all_hold-append s (x ∷ xs) ys = rw (all_hold-append s xs ys) (ground arith)

xor_holds :
    (s : ℕ → Bool) (g : Gate)
    → s g.dst ≡ xor (s g.op1) (s g.op2)
    → all_hold s (record { indicies = g.dst ∷ g.op1 ∷ g.op2 ∷ []; value = 6 } ∷ []) ≡ true
unfolding all_hold parity xor
xor_holds s g h = ground arith

module _ (random : ℕ → ℕ) (s : ℕ → Bool) where
  -- The tasks `ts` are added, and so many AND gates counted.
  abbrev pub Adds : Ptb → (List ProofTask) → ℕ → Ptb
  Adds ptb ts n = record ptb { result = ptb.result ++ ts; and_count = n }

  abbrev pub bits_behind : Ptb → ℕ → Bool
  bits_behind ptb j = s (ptb.circuit_size + ptb.no_inputs + j)

  pub record IsSetUp (n : ℕ) (ptb : Ptb) : Type 0 where
    pub challenge : ptb.and_challenge ≡ 0
    pub one : s ptb.address_of_one ≡ true
    pub no_wrap : ptb.circuit_size + ptb.no_inputs + 3 * (ptb.and_count + n) < 2 ^ 32
    pub room : 3 * (ptb.and_count + n) ≤ 8 * length ptb.permaj
    pub whole : length ptb.permaj ≤ ptb.lpermaj

  and_step :
      (g : Gate) (n : ℕ) (ptb : Ptb)
      → IsSetUp (n + 1) ptb
      → HoldsAt g_and s g
      → DrawnAt random s ptb.permaj (bits_behind ptb) g_and g ptb.and_count
      → (ts : List ProofTask) × (ptb_dispatch g_and g ptb ≡ some (Adds ptb ts (ptb.and_count + 1)))
        × (all_hold s ts ≡ gate_verdict random s g_and g ptb.and_count)
  unfolding ptb_dispatch
  and_step g n ptb set holds (selected, places) =
      let c = ptb.and_count in
      let r : ℕ = random c % 6 in
      let base : ℕ = c * 3 + ptb.circuit_size + ptb.no_inputs in
      let at : (k : ℕ) → s (base + k) ≡ bits_behind ptb (c * 3 + k) = λ k. ap s (omega arith) in
      let (ts, visit, said) =
        ptb_visit_and-all_hold s g ptb r (omega arith) set.challenge (omega (arith, set.no_wrap))
          (apply_permutation-IsSelected ptb.permaj r c ptb.lpermaj (omega arith) selected
            (omega (arith, set.room)) (omega (arith, set.no_wrap)) set.whole)
          set.one holds (at _ ∙ places.0, at _ ∙ places.1, at _ ∙ places.2) in
      (ts, visit, said)

  abbrev pub Loop : List Gate → Type 0
  Loop gs =
      (ptb : Ptb)
      → IsSetUp (count_ands gs) ptb
      → Satisfies s gs
      → IsAllDrawn random s ptb.permaj (bits_behind ptb) gs ptb.and_count
      → (ts : List ProofTask) × (ptb_loop gs ptb
          ≡ some (Adds ptb ts (ptb.and_count + count_ands gs)))
        × (all_hold s ts ≡ circuit_verdict random s gs ptb.and_count)

  -- After tasks `new` for the first gate, which leave `k` AND gates counted.
  module _ (t : GType) (g : Gate) (gs : List Gate) (q : g.type ≡ t) (ih : Loop gs) (ptb : Ptb)
      (set : IsSetUp (next_and t (count_ands gs)) ptb) (rest : Satisfies s gs)
      (drawn : IsAllDrawn random s ptb.permaj (bits_behind ptb) gs (next_and t ptb.and_count))
      (counts : next_and t ptb.and_count + count_ands gs
        ≡ ptb.and_count + next_and t (count_ands gs))
      (new : List ProofTask) where
    continue_lem :
        ptb_dispatch t g ptb ≡ some (Adds ptb new (next_and t ptb.and_count))
        → all_hold s new ≡ gate_verdict random s t g ptb.and_count
        → (ts : List ProofTask) × ((ptb_dispatch t g ptb >>= ptb_loop gs)
            ≡ some (Adds ptb ts (ptb.and_count + next_and t (count_ands gs))))
          × (all_hold s ts ≡ (
              gate_verdict random s t g ptb.and_count
              && circuit_verdict random s gs (next_and t ptb.and_count)))
    continue_lem visit said =
        let ptb' : Ptb = Adds ptb new (next_and t ptb.and_count) in
        let set' : IsSetUp (count_ands gs) ptb' = record {
          challenge = set.challenge;
          one = set.one;
          no_wrap = omega (arith, set.no_wrap, counts);
          room = omega (arith, set.room, counts);
          whole = set.whole;
        } in
        let (ts, run, holds) = ih ptb' set' rest drawn in
        (
          new ++ ts,
          rw visit run
              ∙ ap₂ (λ r n. some (record ptb { result = r; and_count = n }))
                  (append_assoc ptb.result new ts) counts,
          all_hold-append s new ts ∙ ap₂ ◌&&◌ said holds,
        )

  step :
      (t : GType) (g : Gate) (gs : List Gate)
      → g.type ≡ t
      → Loop gs
      → (ptb : Ptb) → IsSetUp (next_and t (count_ands gs)) ptb
      → HoldsAt t s g
      → Satisfies s gs
      → DrawnAt random s ptb.permaj (bits_behind ptb) t g ptb.and_count
      → IsAllDrawn random s ptb.permaj (bits_behind ptb) gs (next_and t ptb.and_count)
      → (ts : List ProofTask) × ((ptb_dispatch t g ptb >>= ptb_loop gs)
          ≡ some (Adds ptb ts (ptb.and_count + next_and t (count_ands gs))))
        × (all_hold s ts ≡ (
            gate_verdict random s t g ptb.and_count
            && circuit_verdict random s gs (next_and t ptb.and_count)))
  unfolding ptb_dispatch ptb_visit_xor
  step g_and g gs q ih ptb set here rest at drawn =
      let (new, visit, said) = and_step g (count_ands gs) ptb set here at in
      continue_lem g_and g gs q ih ptb set rest drawn (omega arith) new visit said
  step g_xor g gs q ih ptb set here rest at drawn =
      continue_lem g_xor g gs q ih ptb set rest drawn refl
        (record { indicies = g.dst ∷ g.op1 ∷ g.op2 ∷ []; value = 6 } ∷ []) refl (xor_holds s g here)
  step g_one g gs q ih ptb set here rest at drawn =
      continue_lem g_one g gs q ih ptb set rest drawn refl []
        (ap (λ r. some (record ptb { result = r })) (sym (append-nil ptb.result)))
        (unfold all_hold in refl)
  step g_zero g gs q ih ptb set here rest at drawn =
      continue_lem g_zero g gs q ih ptb set rest drawn refl []
        (ap (λ r. some (record ptb { result = r })) (sym (append-nil ptb.result)))
        (unfold all_hold in refl)

  pub loop_lem : (gs : List Gate) → Loop gs
  unfolding ptb_loop circuit_verdict
  loop_lem [] ptb set holds drawn = (
    [],
    ap₂ (λ r n. some (record ptb { result = r; and_count = n })) (sym (append-nil ptb.result))
        (unfold count_ands in omega arith),
    unfold all_hold in refl,
  )
  loop_lem (g ∷ gs) ptb set holds drawn =
      let count = ands_lem random g.type g gs refl in
      let (ts, run, said) =
        step g.type g gs refl (loop_lem gs) ptb (subst (λ n. IsSetUp n ptb) count set) holds.0
          holds.1 drawn.0 drawn.1 in
      (ts, run ∙ ap (λ n. some (Adds ptb ts (ptb.and_count + n))) (sym count), said)
