-- ===== src/Protocol/Honest.antt =====
-- The message of an honest prover, and what its tasks for the and-challenge 0 say of it.
use empirical_zero_knowledge.Prelude.{
  ℕ, ◌+◌, ◌-◌, ◌*◌, ◌/◌, ◌%◌, ◌^◌, ◌<◌, ◌≤◌, ◌≡◌, refl, sym, ap, ap₂, ◌∙◌, Bool, true, false, ◌&&◌,
  xor, some, List, [], ◌∷◌, ltb, if◌then◌else◌, length, All, IsBytes, arith,
}
use empirical_zero_knowledge.BitString.Laws.{bit_at}
use empirical_zero_knowledge.Circuit.{GType, g_and, g_xor, g_one, g_zero, Gate, HoldsAt, Satisfies}
use empirical_zero_knowledge.LinearProof.{ProofTask}
use empirical_zero_knowledge.LinearProof.Tables.{perms, entry}
use empirical_zero_knowledge.LinearProof.Generator.{GPam, count_ands, gpam_visit}
use empirical_zero_knowledge.LinearProof.Builder.{Ptb, ptb_visit}
use empirical_zero_knowledge.LinearProof.Drawing.{
  DrawnAt, IsAllDrawn, AndIn, next_and, ands_lem, entry-lt, gpam_visit-IsAllDrawn,
}
use empirical_zero_knowledge.Protocol.Linear.{all_hold}
use empirical_zero_knowledge.Protocol.Message.{build_message, build_message_lem}
use empirical_zero_knowledge.Protocol.Verdict.{gate_verdict, circuit_verdict, IsSetUp, loop_lem}

-- The addresses of a gate that the visitors look at lie below `n`.
abbrev pub AddressedIn : ℕ → GType → Gate → Type 0
AddressedIn n g_and g = (g.dst < n) × (g.op1 < n) × (g.op2 < n)
AddressedIn n g_xor g = (g.dst < n) × (g.op1 < n) × (g.op2 < n)
AddressedIn n g_one g = Unit {0}
AddressedIn n g_zero g = Unit {0}

-- The string `s` has the bits of `e` below `n`, and those of `a` behind them.
module _ (random : ℕ → ℕ) (s e a : ℕ → Bool) (p : List ℕ) (n total : ℕ)
    (same : (i : ℕ) → i < n → s i ≡ e i) (behind : (j : ℕ) → j < 3 * total → s (n + j) ≡ a j) where
  abbrev shifted : ℕ → Bool
  shifted j = s (n + j)

  abbrev Carried : GType → Gate → ℕ → Type 0
  Carried t g c =
      HoldsAt t s g
      × DrawnAt random s p shifted t g c
      × (gate_verdict random s t g c ≡ gate_verdict random e t g c)

  gate-Carried :
      (t : GType) (g : Gate) (c : ℕ)
      → AddressedIn n t g
      → next_and t c ≤ total
      → HoldsAt t e g
      → DrawnAt random e p a t g c
      → Carried t g c
  gate-Carried g_and g c (d, o₁, o₂) below holds (selected, places) =
      let same_d = same g.dst d in
      let same₁ = same g.op1 o₁ in
      let same₂ = same g.op2 o₂ in
      let r : ℕ = random c % 6 in
      let three : r < 6 = omega arith in
      let inside = entry-lt r three in
      let at : (k : ℕ) → k < 3 → shifted (c * 3 + k) ≡ a (c * 3 + k) =
        λ k lt. behind (c * 3 + k) (omega arith) in
      (
        same_d ∙ holds ∙ sym (ap₂ ◌&&◌ same₁ same₂),
        (
          selected,
          (
            at (entry perms r 0) inside.0 ∙ places.0 ∙ sym same_d,
            at (entry perms r 1) inside.1 ∙ places.1 ∙ sym same₁,
            at (entry perms r 2) inside.2 ∙ places.2 ∙ sym same₂,
          ),
        ),
        rw (same₁, same₂) refl,
      )
  gate-Carried g_xor g c (d, o₁, o₂) below holds drawn =
      (same g.dst d ∙ holds ∙ sym (ap₂ xor (same g.op1 o₁) (same g.op2 o₂)), tt, refl)
  gate-Carried g_one g c inside below holds drawn = (tt, tt, refl)
  gate-Carried g_zero g c inside below holds drawn = (tt, tt, refl)

  next_and-add : (t : GType) (c m : ℕ) → next_and t c + m ≡ c + next_and t m
  next_and-add g_and c m = omega arith
  next_and-add g_xor c m = refl
  next_and-add g_one c m = refl
  next_and-add g_zero c m = refl

  circuit_carried :
      (gs : List Gate) (c : ℕ)
      → All (λ (g : Gate). AddressedIn n g.type g) gs
      → c + count_ands gs ≤ total
      → Satisfies e gs
      → IsAllDrawn random e p a gs c
      → Satisfies s gs
        × IsAllDrawn random s p shifted gs c
        × (circuit_verdict random s gs c ≡ circuit_verdict random e gs c)
  unfolding circuit_verdict
  circuit_carried [] c inside below holds drawn = (tt, tt, refl)
  circuit_carried (g ∷ gs) c inside below holds drawn =
      let count = ands_lem random g.type g gs refl in
      let moved = next_and-add g.type c (count_ands gs) in
      let first = gate-Carried g.type g c inside.0 (omega (arith, count, moved)) holds.0 drawn.0 in
      let rest =
        circuit_carried gs (next_and g.type c) inside.1 (omega (arith, count, moved)) holds.1
          drawn.1 in
      ((first.0, rest.0), (first.1, rest.1), ap₂ ◌&&◌ first.2 rest.2)

Addressed-AndIn : (n m : ℕ) (t : GType) (g : Gate) → n ≤ m → AddressedIn n t g → AndIn m t g
Addressed-AndIn n m g_and g le inside = (omega arith, omega arith, omega arith)
Addressed-AndIn n m g_xor g le inside = tt
Addressed-AndIn n m g_one g le inside = tt
Addressed-AndIn n m g_zero g le inside = tt

All-AndIn :
    (n m : ℕ) (gs : List Gate)
    → n ≤ m
    → All (λ (g : Gate). AddressedIn n g.type g) gs
    → All (λ (g : Gate). AndIn m g.type g) gs
All-AndIn n m [] le inside = tt
All-AndIn n m (g ∷ gs) le inside =
    (Addressed-AndIn n m g.type g le inside.0, All-AndIn n m gs le inside.1)

-- The task builder's arguments for the and-challenge 0.
abbrev pub challenged : List ℕ → ℕ → ℕ → Ptb
challenged permutations no_inputs address_of_one = record {
  permaj = permutations;
  lpermaj = length permutations;
  and_challenge = 0;
  and_count = 0;
  circuit_size = 0;
  no_inputs = no_inputs;
  address_of_one = address_of_one;
  result = [];
}

visited :
    (random : ℕ → ℕ) (s : ℕ → Bool) (circuit : List Gate) (p : List ℕ) (no_inputs one : ℕ)
    → s one ≡ true
    → length circuit + no_inputs + 3 * count_ands circuit < 2 ^ 32
    → 3 * count_ands circuit ≤ 8 * length p
    → Satisfies s circuit
    → IsAllDrawn random s p (λ j. s (length circuit + no_inputs + j)) circuit 0
    → (ts : List ProofTask) × (ptb_visit circuit (challenged p no_inputs one) ≡ some ts)
      × (all_hold s ts ≡ circuit_verdict random s circuit 0)
unfolding ptb_visit
visited random s circuit p no_inputs one is_one small room holds drawn =
    let start : Ptb = record (challenged p no_inputs one) { circuit_size = length circuit } in
    let set : IsSetUp random s (count_ands circuit) start = record {
      challenge = refl;
      one = is_one;
      no_wrap = omega arith;
      room = omega arith;
      whole = omega arith;
    } in
    let (ts, run, said) = loop_lem random s circuit start set holds drawn in (ts, rw run refl, said)

-- What an honest prover computes from an evaluated string, with the tasks that it gets.
pub record Committed (random : ℕ → ℕ) (circuit : List Gate) (evaled : List ℕ) (no_inputs one : ℕ)
    (none_yet gpam : GPam) (message : List ℕ) (ts : List ProofTask) : Type 0 where
  pub drew :
      gpam_visit random circuit
        (record { evaled_circuit = evaled; and_count = 0; calls = 0; result = none_yet })
      ≡ some gpam
  pub built : build_message (length circuit) no_inputs evaled gpam.aux gpam.no_ands ≡ some message
  pub visit : ptb_visit circuit (challenged gpam.permutations no_inputs one) ≡ some ts
  pub said : all_hold (bit_at message) ts ≡ circuit_verdict random (bit_at evaled) circuit 0
  pub ands : gpam.no_ands ≡ count_ands circuit
  pub wide_permutations : length gpam.permutations ≡ (3 * count_ands circuit + 7) / 8
  pub wide_message : length message ≡ (length circuit + no_inputs + count_ands circuit * 3 + 7) / 8
  pub bytes : IsBytes message
  pub same : (i : ℕ) → i < length circuit + no_inputs → bit_at message i ≡ bit_at evaled i

pub commit_lem :
    (random : ℕ → ℕ) (circuit : List Gate) (evaled : List ℕ) (no_inputs one : ℕ) (none_yet : GPam)
    → Satisfies (bit_at evaled) circuit
    → All (λ (g : Gate). AddressedIn (length circuit + no_inputs) g.type g) circuit
    → length circuit + no_inputs ≤ 8 * length evaled
    → one < length circuit + no_inputs
    → bit_at evaled one ≡ true
    → count_ands circuit < 2 ^ 28
    → length circuit + no_inputs + count_ands circuit * 3 + 7 < 2 ^ 32
    → (gpam : GPam) × (message : List ℕ) × (ts : List ProofTask) × Committed random circuit evaled
        no_inputs one none_yet gpam message ts
commit_lem random circuit evaled no_inputs one none_yet holds inside covers one_in is_one few
      small =
    let n = length circuit + no_inputs in
    let k = count_ands circuit in
    let (gpam, drew, drawn, ps, aux, ands, tight) =
      gpam_visit-IsAllDrawn random circuit evaled none_yet few
        (All-AndIn n (8 * length evaled) circuit covers inside) in
    let (message, built, wide, bytes, reads) =
      build_message_lem (length circuit) no_inputs evaled gpam.aux k small covers
        (omega (arith, aux.1)) in
    let s = bit_at message in
    let same : (i : ℕ) → i < n → s i ≡ bit_at evaled i = λ i lt.
      reads i
      ∙ front i (bit_at evaled i) (bit_at gpam.aux (i - n)) n (n + k * 3) lt (omega arith) in
    let behind : (j : ℕ) → j < 3 * k → s (n + j) ≡ bit_at gpam.aux j = λ j lt.
      reads (n + j)
      ∙ back j (bit_at evaled (n + j)) n (n + k * 3) (bit_at gpam.aux (n + j - n)) (omega arith)
      ∙ ap (bit_at gpam.aux) (omega arith) in
    let moved =
      circuit_carried random s (bit_at evaled) (bit_at gpam.aux) gpam.permutations n k same behind
        circuit 0 inside (omega arith) holds drawn in
    let (ts, visit, said) =
      visited random s circuit gpam.permutations no_inputs one (same one one_in ∙ is_one)
        (omega arith) ps.1 moved.0 moved.1 in
    (
      gpam,
      message,
      ts,
      record {
        drew = drew;
        built = ap (build_message (length circuit) no_inputs evaled gpam.aux) ands ∙ built;
        visit = visit;
        said = said ∙ moved.2;
        ands = ands;
        wide_permutations = tight;
        wide_message = wide;
        bytes = bytes;
        same = same;
      },
    )
  where
    front :
        (i : ℕ) (x y : Bool) (n l : ℕ)
        → i < n
        → n ≤ l
        → (if ltb i l then (if ltb i n then x else y) else false) ≡ x
    front i x y n l lt le = ground arith

    back :
        (j : ℕ) (x : Bool) (n l : ℕ) (y : Bool)
        → n + j < l
        → (if ltb (n + j) l then (if ltb (n + j) n then x else y) else false) ≡ y
    back j x n l y lt = ground arith

-- For an evaluated string that satisfies a circuit of fewer than `2 ^ 28` AND gates, holds the bits of
-- all the circuit's addresses, has a one at the address of one, and for numbers of gates and inputs
-- that do not wrap: the generator, the message and the tasks for the and-challenge 0 are all
-- computed. The tasks hold for the message exactly if for each AND gate both operands are zero, where
-- a 3-cycle was drawn, and the output is zero, where another permutation was drawn.
pub ptb_visit-circuit_verdict :
    (random : ℕ → ℕ) (circuit : List Gate) (evaled : List ℕ) (no_inputs one : ℕ) (none_yet : GPam)
    → Satisfies (bit_at evaled) circuit
    → All (λ (g : Gate). AddressedIn (length circuit + no_inputs) g.type g) circuit
    → length circuit + no_inputs ≤ 8 * length evaled
    → one < length circuit + no_inputs
    → bit_at evaled one ≡ true
    → count_ands circuit < 2 ^ 28
    → length circuit + no_inputs + count_ands circuit * 3 + 7 < 2 ^ 32
    → (gpam : GPam) × (message : List ℕ) × (ts : List ProofTask) × (gpam_visit random circuit
          (record { evaled_circuit = evaled; and_count = 0; calls = 0; result = none_yet })
        ≡ some gpam)
      × (build_message (length circuit) no_inputs evaled gpam.aux gpam.no_ands ≡ some message)
      × (ptb_visit circuit (challenged gpam.permutations no_inputs one) ≡ some ts)
      × (all_hold (bit_at message) ts ≡ circuit_verdict random (bit_at evaled) circuit 0)
ptb_visit-circuit_verdict random circuit evaled no_inputs one none_yet holds inside covers one_in
      is_one few small =
    let (gpam, message, ts, c) =
      commit_lem random circuit evaled no_inputs one none_yet holds inside covers one_in is_one few
        small in
    (gpam, message, ts, c.drew, c.built, c.visit, c.said)
