-- ===== src/Protocol/Linear.antt =====
-- The linear proof: the verifier's check of an honest answer tells whether the committed message
-- satisfies the tasks.
use empirical_zero_knowledge.Prelude.{
  ℕ, zero, suc, ◌+◌, ◌*◌, ◌/◌, ◌^◌, ◌<◌, ◌≤◌, ◌≡◌, refl, ap, ◌∙◌, Bool, true, false, not, ◌&&◌,
  ◌||◌, xor, some, List, [], ◌∷◌, ◌==◌, if◌then◌else◌, length, length-replicate, replicate, All,
  IsBytes, IsBytes-replicate, u32, arith,
}
use empirical_zero_knowledge.BitString.Laws.{bit_at, get_bit-eq-bit_at, set_bit-IsWritten}
use empirical_zero_knowledge.LinearProof.{ProofTask, used, expected}
use empirical_zero_knowledge.Protocol.{
  xor_bytes, delta_loop, build_delta_string, masked, check_loop, check_tasks,
}
use empirical_zero_knowledge.Protocol.Xor.{
  parity, xor_bits-parity, parity-xor, bit_at-xor_bytes, length-xor_bytes,
}

-- Whether the bits of `s` at the task's indices have the expected exclusive or.
abbrev pub task_holds : (ℕ → Bool) → ProofTask → Bool
task_holds s pt = not (xor (parity s (used pt)) (expected pt))

unfoldable pub all_hold : (ℕ → Bool) → List ProofTask → Bool
all_hold s [] = true
all_hold s (pt ∷ pts) = task_holds s pt && all_hold s pts

-- Every index that a task uses lies below `n`.
abbrev pub InRange : ℕ → ProofTask → Type 0
InRange n pt = All (λ i. i < n) (used pt)

-- Bit number `i` of `d` and those behind it are the parities of the tasks.
abbrev IsDelta : (ℕ → Bool) → List ℕ → ℕ → List ProofTask → Type 0
IsDelta s d i [] = Unit
IsDelta s d i (pt ∷ pts) = (bit_at d i ≡ parity s (used pt)) × IsDelta s d (suc i) pts

module _ (m0 : List ℕ) where
  record Built (pts : List ProofTask) (i : ℕ) (start d : List ℕ) : Type 0 where
    bytes : IsBytes d
    same_length : length d ≡ length start
    before : (j : ℕ) → j < i → bit_at d j ≡ bit_at start j
    delta : IsDelta (bit_at m0) d i pts

  delta_loop_lem :
      (pts : List ProofTask) (i : ℕ) (result : List ℕ)
      → IsBytes result
      → i + length pts ≤ 8 * length result
      → All (InRange (8 * length m0)) pts
      → (d : List ℕ) × (delta_loop m0 pts i result ≡ some d) × Built pts i result d
  unfolding delta_loop
  delta_loop_lem [] i result bytes fits range =
      (result, refl, record { bytes = bytes; same_length = refl; before = λ j h. refl; delta = tt })
  delta_loop_lem (pt ∷ pts) i result bytes fits range =
      let bit = parity (bit_at m0) (used pt) in
      let (result', wrote, w) = set_bit-IsWritten result i bit bytes (omega arith) in
      let (d, run, b) =
        delta_loop_lem pts (suc i) result' w.bytes (rw w.same_length (omega arith)) range.1 in
      let next : i + 1 ≡ suc i = omega arith in
      (
        d,
        rw (xor_bits-parity m0 (used pt) false range.0, xor_false bit, wrote, next) run,
        record {
          bytes = b.bytes;
          same_length = b.same_length ∙ w.same_length;
          before = λ j h. b.before j (omega arith) ∙ w.reads j ∙ ground arith;
          delta = (b.before i (omega arith) ∙ w.reads i ∙ ground arith, b.delta);
        },
      )
    where
      xor_false : (b : Bool) → xor false b ≡ b
      xor_false b = unfold xor in ground arith

-- Whether the verifier's test of one task passes, from the bits of the opened share and of `m0`.
abbrev passes : ℕ → (ℕ → Bool) → (ℕ → Bool) → ProofTask → Bool
passes c s t pt = not (xor (parity s (used pt)) (xor (parity t (used pt)) (masked c (expected pt))))

all_pass : ℕ → (ℕ → Bool) → (ℕ → Bool) → List ProofTask → Bool
all_pass c s t [] = true
all_pass c s t (pt ∷ pts) = passes c s t pt && all_pass c s t pts

module _ (c : ℕ) (t : ℕ → Bool) (d mc : List ℕ) where
  check_loop_lem :
      (pts : List ProofTask) (i : ℕ) (accept : Bool)
      → IsDelta t d i pts
      → i + length pts ≤ 8 * length d
      → All (InRange (8 * length mc)) pts
      → check_loop d mc c pts i accept ≡ some (accept && all_pass c (bit_at mc) t pts)
  unfolding check_loop all_pass
  check_loop_lem [] i accept delta fits range = ground arith
  check_loop_lem (pt ∷ pts) i accept delta fits range =
      let p = parity (bit_at mc) (used pt) in
      let next : i + 1 ≡ suc i = omega arith in
      let fails = xor p (xor (parity t (used pt)) (masked c (expected pt))) in
      rw
        (
          xor_bits-parity mc (used pt) false range.0,
          false_xor p,
          get_bit-eq-bit_at d i (omega arith),
          delta.0,
          next,
          check_loop_lem pts (suc i) (if fails then false else accept) delta.1 (omega arith)
              range.1,
        )
        (settle fails accept (all_pass c (bit_at mc) t pts))
    where
      false_xor : (b : Bool) → xor false b ≡ b
      false_xor b = unfold xor in ground arith

      settle :
          (fails accept rest : Bool)
          → some ((if fails then false else accept) && rest) ≡ some (accept && (not fails && rest))
      settle fails accept rest = ground arith

-- The prover opens `m0` for challenge 0 and `m1` for challenge 1.
abbrev pub opened : ℕ → List ℕ → List ℕ → List ℕ
opened c m0 m1 = if c == 0 then m0 else m1

module _ (m m0 : List ℕ) (hm : IsBytes m) (h0 : IsBytes m0) (same : length m ≡ length m0) where
  all_pass-m0 : (pts : List ProofTask) → all_pass 0 (bit_at m0) (bit_at m0) pts ≡ true
  unfolding all_pass xor
  all_pass-m0 [] = refl
  all_pass-m0 (pt ∷ pts) = rw (all_pass-m0 pts) (ground arith)

  all_pass-m1 :
      (pts : List ProofTask)
      → all_pass 1 (bit_at (xor_bytes m m0)) (bit_at m0) pts ≡ all_hold (bit_at m) pts
  unfolding all_pass all_hold
  all_pass-m1 [] = refl
  all_pass-m1 (pt ∷ pts) =
      let linear =
        parity-xor (bit_at m) (bit_at m0) (bit_at (xor_bytes m m0)) (used pt)
          (λ i. bit_at-xor_bytes m m0 i hm h0 same) in
      rw (linear, all_pass-m1 pts)
        (unfold xor in
          cancel (parity (bit_at m) (used pt)) (parity (bit_at m0) (used pt)) (expected pt)
            (all_hold (bit_at m) pts))
    where
      cancel :
          (p q e rest : Bool) → (not (xor (xor p q) (xor q e)) && rest) ≡ (not (xor p e) && rest)
      cancel p q e rest = unfold xor in ground arith

  answer_lem :
      (c : ℕ) (pts : List ProofTask) (d : List ℕ)
      → c < 2
      → IsDelta (bit_at m0) d 0 pts
      → length pts ≤ 8 * length d
      → All (InRange (8 * length m0)) pts
      → check_loop d (opened c m0 (xor_bytes m m0)) c pts 0 true
        ≡ some (c == 0 || all_hold (bit_at m) pts)
  answer_lem zero pts d small delta fits range =
      check_loop_lem 0 (bit_at m0) d m0 pts 0 true delta (omega arith) range
      ∙ ap some (all_pass-m0 pts)
  answer_lem (suc zero) pts d small delta fits range =
      check_loop_lem 1 (bit_at m0) d (xor_bytes m m0) pts 0 true delta (omega arith)
        (rw (length-xor_bytes m m0 same) range)
      ∙ ap some (all_pass-m1 pts)
  answer_lem (suc (suc c)) pts d small delta fits range = absurd (omega arith)

-- For a message of bytes, a mask of bytes of the same length, less than `2 ^ 32 - 7` tasks with
-- indices inside the message and a challenge 0 or 1, the delta string can be built, and the
-- verifier's check of the opened share accepts exactly if the challenge is 0 or the message
-- satisfies every task.
pub check_tasks-build_delta_string :
    (m m0 : List ℕ) (pts : List ProofTask) (c : ℕ)
    → IsBytes m
    → IsBytes m0
    → length m ≡ length m0
    → length pts + 7 < 2 ^ 32
    → All (InRange (8 * length m)) pts
    → c < 2
    → (delta : List ℕ) × (build_delta_string pts m0 ≡ some delta)
      × (check_tasks pts delta (opened c m0 (xor_bytes m m0)) c
          ≡ some (c == 0 || all_hold (bit_at m) pts))
unfolding build_delta_string check_tasks
check_tasks-build_delta_string m m0 pts c hm h0 same few range small =
    let width = u32 (length pts + 7) / 8 in
    let wide : length {A = ℕ} (replicate width 0) ≡ width = length-replicate width 0 in
    let range0 : All (InRange (8 * length m0)) pts = rw same at range in
    let (d, run, b) =
      delta_loop_lem m0 pts 0 (replicate width 0) (IsBytes-replicate width) (rw wide (omega arith))
        range0 in
    let fits : length pts ≤ 8 * length d = rw (b.same_length, wide) (omega arith) in
    (d, run, answer_lem m m0 hm h0 same c pts d small b.delta fits range0)
