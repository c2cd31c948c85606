-- ===== src/LinearProof/Drawing.antt =====
-- What the generator writes for a whole circuit: the loop over the gates keeps what it wrote for the
-- earlier AND gates.
use empirical_zero_knowledge.Prelude.{
  ltb, if◌then◌else◌, ℕ, ◌+◌, ◌*◌, ◌/◌, ◌%◌, ◌^◌, ◌<◌, ◌≤◌, ◌≡◌, refl, sym, ap, ◌∙◌, Bool, some,
  ◌>>=◌, List, [], ◌∷◌, length, length-replicate, replicate, All, u32, IsBytes, IsBytes-replicate,
  arith,
}
use mathlib.Core.Path.{subst}
use empirical_zero_knowledge.BitString.Laws.{bit_at}
use empirical_zero_knowledge.Circuit.{GType, g_and, g_xor, g_one, g_zero, Gate}
use empirical_zero_knowledge.LinearProof.Generator.{
  GPam, GPamImpl, count_ands, gpam_dispatch, gpam_loop, gpam_visit,
}
use empirical_zero_knowledge.LinearProof.Tables.{perms, entry, below_six}
use empirical_zero_knowledge.LinearProof.Three.{IsAlike}
use empirical_zero_knowledge.LinearProof.Gate.{
  Places, IsSelected, HasRoom, IsDrawn, gpam_visit_and-IsDrawn,
}

-- The number of the next AND gate.
abbrev pub next_and : GType → ℕ → ℕ
next_and g_and c = c + 1
next_and g_xor c = c
next_and g_one c = c
next_and g_zero c = c

-- In the strings `p` and `a`, AND gate number `c` has the permutation that the random source gives,
-- and its three bits in that order.
abbrev pub DrawnAt : (ℕ → ℕ) → (ℕ → Bool) → List ℕ → (ℕ → Bool) → GType → Gate → ℕ → Type 0
DrawnAt random s p a g_and g c =
    IsSelected p c (random c % 6) × Places (c * 3) (random c % 6) a (s g.dst) (s g.op1) (s g.op2)
DrawnAt random s p a g_xor g c = Unit {0}
DrawnAt random s p a g_one g c = Unit {0}
DrawnAt random s p a g_zero g c = Unit {0}

abbrev pub IsAllDrawn : (ℕ → ℕ) → (ℕ → Bool) → List ℕ → (ℕ → Bool) → List Gate → ℕ → Type 0
IsAllDrawn random s p a [] c = Unit {0}
IsAllDrawn random s p a (g ∷ gs) c =
    DrawnAt random s p a g.type g c × IsAllDrawn random s p a gs (next_and g.type c)

-- The addresses of an AND gate lie below `n`.
abbrev pub AndIn : ℕ → GType → Gate → Type 0
AndIn n g_and g = (g.dst < n) × (g.op1 < n) × (g.op2 < n)
AndIn n g_xor g = Unit {0}
AndIn n g_one g = Unit {0}
AndIn n g_zero g = Unit {0}

-- Room for so many more AND gates.
record HasRoomFor (n : ℕ) (impl : GPamImpl) : Type 0 where
  permutations_bytes : IsBytes impl.result.permutations
  aux_bytes : IsBytes impl.result.aux
  majority_bytes : IsBytes impl.result.majority
  permutations_room : 3 * (impl.and_count + n) ≤ 8 * length impl.result.permutations
  aux_room : 3 * (impl.and_count + n) ≤ 8 * length impl.result.aux
  majority_room : 2 * (impl.and_count + n) ≤ 8 * length impl.result.majority
  few : 3 * (impl.and_count + n) < 2 ^ 32
  in_step : impl.calls ≡ impl.and_count

pub entry-lt :
    (r : ℕ) → r < 6 → (entry perms r 0 < 3) × (entry perms r 1 < 3) × (entry perms r 2 < 3)
entry-lt r h =
    below_six (λ r. (entry perms r 0 < 3) × (entry perms r 1 < 3) × (entry perms r 2 < 3)) r h
      (omega arith) (omega arith) (omega arith) (omega arith) (omega arith) (omega arith)

below : {i j : ℕ} {new old : Bool} → (if ltb j i then new else old) ≡ old → j < i → new ≡ old
below same lt = ground arith

module _ (random : ℕ → ℕ) where
  record IsFilled (gs : List Gate) (impl impl' : GPamImpl) : Type 0 where
    drawn :
        IsAllDrawn random
          (bit_at impl.evaled_circuit)
          impl'.result.permutations
          (bit_at impl'.result.aux)
          gs
          impl.and_count
    kept_permutations :
        (j : ℕ)
        → j < impl.and_count * 3
        → bit_at impl'.result.permutations j ≡ bit_at impl.result.permutations j
    kept_aux :
        (j : ℕ) → j < impl.and_count * 3 → bit_at impl'.result.aux j ≡ bit_at impl.result.aux j
    permutations_alike : IsAlike impl.result.permutations impl'.result.permutations
    aux_alike : IsAlike impl.result.aux impl'.result.aux
    same_ands : impl'.result.no_ands ≡ impl.result.no_ands

  abbrev Loop : List Gate → Type 0
  Loop gs =
      (impl : GPamImpl)
      → HasRoomFor (count_ands gs) impl
      → All (λ (g : Gate). AndIn (8 * length impl.evaled_circuit) g.type g) gs
      → (impl' : GPamImpl) × (gpam_loop random gs impl ≡ some impl') × IsFilled gs impl impl'

  module _ (g : Gate) (gs : List Gate) (impl impl₁ : GPamImpl)
      (h : IsDrawn (random impl.calls % 6) g impl impl₁) (n : ℕ)
      (room : HasRoomFor (n + 1) impl) where
    later_room : HasRoomFor n impl₁
    later_room = record {
      permutations_bytes = h.permutations_alike.0;
      aux_bytes = h.aux_alike.0;
      majority_bytes = h.majority_alike.0;
      permutations_room = omega (arith, room.permutations_room, h.counted, h.permutations_alike.1);
      aux_room = omega (arith, room.aux_room, h.counted, h.aux_alike.1);
      majority_room = omega (arith, room.majority_room, h.counted, h.majority_alike.1);
      few = omega (arith, room.few, h.counted);
      in_step = omega (arith, room.in_step, h.counted, h.called);
    }

    and_lem :
        (impl' : GPamImpl) → IsFilled gs impl₁ impl' → g.type ≡ g_and → IsFilled (g ∷ gs) impl impl'
    and_lem impl' rest q =
        let c = impl.and_count in
        let s = bit_at impl.evaled_circuit in
        let ps = impl'.result.permutations in
        let aux = bit_at impl'.result.aux in
        let r = random c % 6 in
        let before : (j : ℕ) → j < c * 3 → j < impl₁.and_count * 3 =
          λ j lt. omega (arith, h.counted) in
        let kept_ps : (k : ℕ)
            → k < 3
            → bit_at ps (c * 3 + k) ≡ bit_at impl₁.result.permutations (c * 3 + k) =
          λ k lt. rest.kept_permutations (c * 3 + k) (omega (arith, h.counted)) in
        let kept_as : (k : ℕ) → k < 3 → aux (c * 3 + k) ≡ bit_at impl₁.result.aux (c * 3 + k) =
          λ k lt. rest.kept_aux (c * 3 + k) (omega (arith, h.counted)) in
        let same_r : random impl.calls % 6 ≡ r = ap (λ k. random k % 6) room.in_step in
        let selected : IsSelected impl₁.result.permutations c r =
          subst (λ k. IsSelected impl₁.result.permutations c k) same_r h.selected in
        let places : Places (c * 3) r (bit_at impl₁.result.aux) (s g.dst) (s g.op1) (s g.op2) =
          subst (λ k. Places (c * 3) k (bit_at impl₁.result.aux) (s g.dst) (s g.op1) (s g.op2))
            same_r h.places in
        let three : r < 6 = omega arith in
        let inside = entry-lt r three in
        let drawn : IsAllDrawn random s ps aux gs (c + 1) =
          subst (λ k. IsAllDrawn random s ps aux gs k) h.counted
            (subst (λ e. IsAllDrawn random (bit_at e) ps aux gs impl₁.and_count) h.same_circuit
              rest.drawn) in
        record {
          drawn = simp q (
            (
              (
                kept_ps 0 (omega arith) ∙ selected.0,
                kept_ps 1 (omega arith) ∙ selected.1,
                kept_ps 2 (omega arith) ∙ selected.2,
              ),
              (
                kept_as (entry perms r 0) inside.0 ∙ places.0,
                kept_as (entry perms r 1) inside.1 ∙ places.1,
                kept_as (entry perms r 2) inside.2 ∙ places.2,
              ),
            ),
            drawn,
          );
          kept_permutations =
              λ j lt. rest.kept_permutations j (before j lt) ∙ below (h.kept_permutations j) lt;
          kept_aux = λ j lt. rest.kept_aux j (before j lt) ∙ below (h.kept_aux j) lt;
          permutations_alike =
              (rest.permutations_alike.0, rest.permutations_alike.1 ∙ h.permutations_alike.1);
          aux_alike = (rest.aux_alike.0, rest.aux_alike.1 ∙ h.aux_alike.1);
          same_ands = rest.same_ands ∙ h.same_ands;
        }

  other_lem :
      (g : Gate) (gs : List Gate) (impl impl' : GPamImpl)
      → IsFilled gs impl impl'
      → DrawnAt random
          (bit_at impl.evaled_circuit)
          impl'.result.permutations
          (bit_at impl'.result.aux)
          g.type
          g
          impl.and_count
      → next_and g.type impl.and_count ≡ impl.and_count
      → IsFilled (g ∷ gs) impl impl'
  other_lem g gs impl impl' rest here same =
      let s = bit_at impl.evaled_circuit in
      let ps = impl'.result.permutations in
      let aux = bit_at impl'.result.aux in
      record {
        drawn = (here, subst (λ c. IsAllDrawn random s ps aux gs c) (sym same) rest.drawn);
        kept_permutations = rest.kept_permutations;
        kept_aux = rest.kept_aux;
        permutations_alike = rest.permutations_alike;
        aux_alike = rest.aux_alike;
        same_ands = rest.same_ands;
      }

  and_room :
      (g : Gate) (gs : List Gate) (impl : GPamImpl)
      → HasRoomFor (count_ands gs + 1) impl
      → AndIn (8 * length impl.evaled_circuit) g_and g
      → HasRoom g impl
  and_room g gs impl room inside = record {
    permutations_bytes = room.permutations_bytes;
    aux_bytes = room.aux_bytes;
    majority_bytes = room.majority_bytes;
    permutations_room = omega (arith, room.permutations_room);
    aux_room = omega (arith, room.aux_room);
    majority_room = omega (arith, room.majority_room);
    few = omega (arith, room.few);
    dst_in = inside.0;
    op1_in = inside.1;
    op2_in = inside.2;
  }

  step :
      (t : GType) (g : Gate) (gs : List Gate)
      → g.type ≡ t
      → Loop gs
      → (impl : GPamImpl) → HasRoomFor (next_and t (count_ands gs)) impl
      → AndIn (8 * length impl.evaled_circuit) t g
      → All (λ (g : Gate). AndIn (8 * length impl.evaled_circuit) g.type g) gs
      → (impl' : GPamImpl) × ((gpam_dispatch random t g impl >>= gpam_loop random gs) ≡ some impl')
        × IsFilled (g ∷ gs) impl impl'
  unfolding gpam_dispatch
  step g_and g gs q ih impl room inside range =
      let (impl₁, visit, h) =
        gpam_visit_and-IsDrawn random g impl (and_room g gs impl room inside) in
      let (impl', run, rest) = ih impl₁ (later_room g gs impl impl₁ h (count_ands gs) room) (
        subst (λ e. All (λ (g : Gate). AndIn (8 * length e) g.type g) gs) (sym h.same_circuit)
          range) in
      (impl', rw (visit, run), and_lem g gs impl impl₁ h (count_ands gs) room impl' rest q)
  step g_xor g gs q ih impl room inside range =
      let (impl', run, rest) = ih impl room range in
      (impl', run, other_lem g gs impl impl' rest (simp q tt) (simp q refl))
  step g_one g gs q ih impl room inside range =
      let (impl', run, rest) = ih impl room range in
      (impl', run, other_lem g gs impl impl' rest (simp q tt) (simp q refl))
  step g_zero g gs q ih impl room inside range =
      let (impl', run, rest) = ih impl room range in
      (impl', run, other_lem g gs impl impl' rest (simp q tt) (simp q refl))

  pub ands_lem :
      (t : GType) (g : Gate) (gs : List Gate)
      → g.type ≡ t
      → count_ands (g ∷ gs) ≡ next_and t (count_ands gs)
  unfolding count_ands
  ands_lem g_and g gs q = simp q (omega arith)
  ands_lem g_xor g gs q = simp q (omega arith)
  ands_lem g_one g gs q = simp q (omega arith)
  ands_lem g_zero g gs q = simp q (omega arith)

  loop_lem : (gs : List Gate) → Loop gs
  unfolding gpam_loop
  loop_lem [] impl room range = (
    impl,
    refl,
    record {
      drawn = tt;
      kept_permutations = λ j lt. refl;
      kept_aux = λ j lt. refl;
      permutations_alike = (room.permutations_bytes, refl);
      aux_alike = (room.aux_bytes, refl);
      same_ands = refl;
    },
  )
  loop_lem (g ∷ gs) impl room range =
      step g.type g gs refl (loop_lem gs) impl
        (subst (λ n. HasRoomFor n impl) (ands_lem g.type g gs refl) room) range.0 range.1

-- For a circuit of fewer than `2 ^ 28` AND gates, whose addresses lie in the evaluated circuit, the
-- generator succeeds. In what it gives, each AND gate of the circuit has its three bits in the order
-- of the permutation that was drawn for it, and the string of permutations has that permutation's
-- bits at the gate's place; both strings hold bytes and have room for three bits a gate, that of the
-- permutations just that, and the number of AND gates is given.
pub gpam_visit-IsAllDrawn :
    (random : ℕ → ℕ) (circuit : List Gate) (evaled : List ℕ) (none_yet : GPam)
    → count_ands circuit < 2 ^ 28
    → All (λ (g : Gate). AndIn (8 * length evaled) g.type g) circuit
    → (gpam : GPam) × (gpam_visit random circuit
          (record { evaled_circuit = evaled; and_count = 0; calls = 0; result = none_yet })
        ≡ some gpam)
      × IsAllDrawn random (bit_at evaled) gpam.permutations (bit_at gpam.aux) circuit 0
      × (IsBytes gpam.permutations × (3 * count_ands circuit ≤ 8 * length gpam.permutations))
      × (IsBytes gpam.aux × (3 * count_ands circuit ≤ 8 * length gpam.aux))
      × (gpam.no_ands ≡ count_ands circuit)
      × (length gpam.permutations ≡ (3 * count_ands circuit + 7) / 8)
unfolding gpam_visit
gpam_visit-IsAllDrawn random circuit evaled none_yet few range =
    let n = count_ands circuit in
    let wide : ℕ = u32 (n * 3 + 7) / 8 in
    let narrow : ℕ = u32 (n * 2 + 7) / 8 in
    let start : GPamImpl = record {
      evaled_circuit = evaled;
      and_count = 0;
      calls = 0;
      result = record {
        permutations = replicate wide 0;
        majority = replicate narrow 0;
        aux = replicate wide 0;
        no_ands = n;
      };
    } in
    let l₃ : length {A = ℕ} (replicate wide 0) ≡ wide = length-replicate wide 0 in
    let l₂ : length {A = ℕ} (replicate narrow 0) ≡ narrow = length-replicate narrow 0 in
    let room : HasRoomFor n start = record {
      permutations_bytes = IsBytes-replicate wide;
      aux_bytes = IsBytes-replicate wide;
      majority_bytes = IsBytes-replicate narrow;
      permutations_room = omega (arith, l₃);
      aux_room = omega (arith, l₃);
      majority_room = omega (arith, l₂);
      few = omega arith;
      in_step = refl;
    } in
    let (done, run, filled) = loop_lem random circuit start room range in
    (
      done.result,
      rw run refl,
      filled.drawn,
      (filled.permutations_alike.0, omega (arith, filled.permutations_alike.1, l₃)),
      (filled.aux_alike.0, omega (arith, filled.aux_alike.1, l₃)),
      filled.same_ands,
      filled.permutations_alike.1 ∙ l₃ ∙ omega arith,
    )
