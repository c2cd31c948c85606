-- ===== src/Protocol/Run/Whole.antt =====
-- What a whole run comes to, from the steps of both roles in their order.
use empirical_zero_knowledge.Prelude.{
  Ensures-bind, Ensures-eq, ℕ, ◌+◌, ◌*◌, ◌/◌, ◌^◌, ◌<◌, ◌≤◌, ◌≡◌, refl, sym, ap, ap₂, ◌∙◌, Bool,
  true, false, ◌&&◌, ◌||◌, some, List, [], ◌∷◌, ◌++◌, ◌==◌, length, length-append, All, All-append,
  IsBytes, replicate, u32, arith, xor,
}
use empirical_zero_knowledge.BitString.Laws.{bit_at}
use empirical_zero_knowledge.Circuit.{Gate, Satisfies}
use empirical_zero_knowledge.Circuit.AddressMap.{AddressMap}
use empirical_zero_knowledge.Emitter.{EmiterResult, EseVisitor, ese_loop, ese_visit}
use empirical_zero_knowledge.Emitter.Satisfies.{
  IsSingleAssignment, string_width, ese_visit-Satisfies,
}
use empirical_zero_knowledge.LinearProof.{ProofTask}
use empirical_zero_knowledge.LinearProof.Generator.{GPam, count_ands}
use empirical_zero_knowledge.Protocol.Xor.{parity}
use empirical_zero_knowledge.Protocol.Linear.{all_hold, InRange, check_tasks-build_delta_string}
use empirical_zero_knowledge.Protocol.Verdict.{circuit_verdict, all_hold-append}
use empirical_zero_knowledge.Protocol.Honest.{challenged, Committed, commit_lem}
use empirical_zero_knowledge.Protocol.Range.{ptb_visit-InRange}
use empirical_zero_knowledge.Protocol.Roles.{
  xor_commit, check_out_bit, judgement, prover_accepts, Prepared, prepare, Prover, prover_commit,
  prover_tasks, verifier_tasks, execute_proof, permajor,
}
use empirical_zero_knowledge.Protocol.Run.{
  NamesBelow, All-Addressed, All-InRange, write_unread-lt, prepared, emitter, emitted, bits_of,
  verdict,
}

out_task_holds :
    (s : ℕ → Bool) (output one : ℕ) → all_hold s (check_out_bit output one 3 ∷ []) ≡ s output
unfolding all_hold parity xor
out_task_holds s output one = ground arith

prover_accepts-judgement : (accept : Bool) → prover_accepts (judgement accept) ≡ accept
prover_accepts-judgement true = refl
prover_accepts-judgement false = refl

width_lem :
    (A : AddressMap) (circuit : List Gate) (e : EseVisitor A) {er : EmiterResult}
    {e' : EseVisitor A}
    → ese_visit A circuit e ≡ some (er, e')
    → er.lemitted_string ≡ string_width A circuit e
unfolding ese_visit
width_lem A circuit e ran =
    let zeros : List ℕ =
      replicate (u32 (u32 (length circuit + AddressMap.size A e.input_gates) + 7) / 8) 0 in
    Ensures-eq (λ (r : EmiterResult × EseVisitor A). r.0.lemitted_string ≡ string_width A circuit e)
      (ese_visit A circuit e)
      (Ensures-bind _ (ese_loop A circuit (record e { no_and_gates = 0; bit_string = zeros })) _
        (λ e''. refl))
      ran

module _ (A : AddressMap) (one : ℕ) (random : ℕ → ℕ) (rand : ℕ → List ℕ) (p : Prepared A one)
    (witness : List ℕ) {er : EmiterResult} {e' : EseVisitor A}
    (ran : ese_visit A p.circuit (emitter A one p witness) ≡ some (er, e')) where
  emitted_lem : emitted A one p witness ≡ bit_at er.emitted_string
  unfolding emitted
  emitted_lem = rw (ran, emitted) refl

  abbrev blank : GPam
  blank = record { permutations = []; majority = []; aux = []; no_ands = 0 }

  module _ {gpam : GPam} {message : List ℕ} {ts : List ProofTask}
      (c : Committed random p.circuit er.emitted_string
        (AddressMap.size A p.input_gates)
        one
        blank
        gpam
        message
        ts)
      (few : count_ands p.circuit < 2 ^ 28) where
    abbrev prover : Prover A one
    prover = record { message = message; gpam = gpam; xom = xor_commit rand message }

    commit_run : prover_commit A one random rand p witness ≡ some prover
    unfolding prover_commit
    commit_run = rw (ran, c.drew, c.built) refl

    permutations_lem : u32 (gpam.no_ands * 3 + 7) / 8 ≡ length gpam.permutations
    permutations_lem = omega (arith, c.ands, c.wide_permutations)

    abbrev all_tasks : List ProofTask
    all_tasks = ts ++ check_out_bit p.output one 3 ∷ []

    prover_run : prover_tasks A one p prover 0 ≡ some all_tasks
    unfolding prover_tasks
    prover_run = rw (permutations_lem, c.visit) refl

    verifier_run : verifier_tasks A one p (permajor A one prover 0) 0 ≡ some all_tasks
    unfolding verifier_tasks
    verifier_run = rw c.visit refl

    -- The verdict, if all indices lie in the message and the tasks are few.
    run_lem :
        (circuit : List Gate) (challenge : ℕ)
        → prepare A one circuit ≡ some p
        → challenge < 2
        → length (rand (length message)) ≡ length message
        → IsBytes (rand (length message))
        → length all_tasks + 7 < 2 ^ 32
        → All (InRange (8 * length message)) all_tasks
        → let verdict = challenge == 0 || all_hold (bit_at message) all_tasks in
          execute_proof A one random rand circuit witness 0 challenge ≡ some (verdict, verdict)
    unfolding execute_proof xor_commit
    run_lem circuit challenge ready small wide bytes short range =
        let verdict : Bool = challenge == 0 || all_hold (bit_at message) all_tasks in
        let (delta, made, checked) =
          check_tasks-build_delta_string message (rand (length message)) all_tasks challenge c.bytes
            bytes (sym wide) short range small in
        rw (ready, commit_run, prover_run, made, verifier_run, checked)
          (ap (λ b. some (verdict, b)) (prover_accepts-judgement verdict))

    -- The same in terms of the emitted string.
    finish :
        (circuit : List Gate) (challenge : ℕ)
        → prepare A one circuit ≡ some p
        → challenge < 2
        → ((m : ℕ) → (length (rand m) ≡ m) × IsBytes (rand m))
        → All (NamesBelow (bits_of A one p)) p.circuit
        → one < bits_of A one p
        → p.output < bits_of A one p
        → bits_of A one p + 3 * count_ands p.circuit + 8 < 2 ^ 32
        → execute_proof A one random rand circuit witness 0 challenge
          ≡ some
              (verdict A one random p witness challenge, verdict A one random p witness challenge)
    finish circuit challenge ready c_small source below one_in out_in small =
        let n = length p.circuit + AddressMap.size A p.input_gates in
        let bound : ℕ = 8 * length message in
        let wide = c.wide_message in
        let (made, least) = source (length message) in
        let (range, most) =
          ptb_visit-InRange p.circuit
            (challenged gpam.permutations (AddressMap.size A p.input_gates) one) bound refl
            (omega arith) (All-Addressed n bound p.circuit (omega arith) below) (omega arith)
            (omega arith) c.visit in
        let out_task = check_out_bit p.output one 3 ∷ [] in
        let in_all : All (InRange bound) all_tasks =
          All-append (InRange bound) ts out_task range ((omega arith, tt), tt) in
        let few_tasks : length all_tasks + 7 < 2 ^ 32 = omega (arith, length-append ts out_task) in
        let verdict_eq =
          all_hold-append (bit_at message) ts out_task
          ∙ ap₂ ◌&&◌ (c.said ∙ ap (λ s. circuit_verdict random s p.circuit 0) (sym emitted_lem)) (
              out_task_holds (bit_at message) p.output one
              ∙ c.same p.output out_in
              ∙ ap (λ (s : ℕ → Bool). s p.output) (sym emitted_lem)) in
        run_lem circuit challenge ready c_small made least few_tasks in_all
        ∙ ap (λ v. some (challenge == 0 || v, challenge == 0 || v)) verdict_eq

  after_visit :
      (circuit : List Gate) (challenge : ℕ)
      → prepare A one circuit ≡ some p
      → Satisfies (bit_at er.emitted_string) p.circuit
      → bits_of A one p ≤ 8 * length er.emitted_string
      → All (NamesBelow (bits_of A one p)) p.circuit
      → one < bits_of A one p
      → p.output < bits_of A one p
      → emitted A one p witness one ≡ true
      → count_ands p.circuit < 2 ^ 28
      → bits_of A one p + 3 * count_ands p.circuit + 8 < 2 ^ 32
      → ((m : ℕ) → (length (rand m) ≡ m) × IsBytes (rand m))
      → challenge < 2
      → execute_proof A one random rand circuit witness 0 challenge
        ≡ some (verdict A one random p witness challenge, verdict A one random p witness challenge)
  after_visit circuit challenge ready holds covers below one_in out_in is_one few small source
        c_small =
      let n = length p.circuit + AddressMap.size A p.input_gates in
      let (gpam, message, ts, c) =
        commit_lem random p.circuit er.emitted_string (AddressMap.size A p.input_gates) one blank
          holds (All-Addressed n n p.circuit (omega arith) below) covers one_in
          (ap (λ (s : ℕ → Bool). s one) (sym emitted_lem) ∙ is_one) few (omega arith) in
      finish c few circuit challenge ready c_small source below one_in out_in small

-- Between an honest prover and the verifier, for the and-challenge 0 and the challenge 0 or 1, the run
-- ends, and both sides have the same verdict: for the challenge 0 they accept, and for the challenge 1
-- exactly if the emitted string has a one at the output and, for each AND gate, both operands are zero,
-- where a 3-cycle was drawn, and the output is zero, where another permutation was drawn. This is for
-- a single-assignment circuit with one output, whose addresses lie below the number of its gates and
-- inputs, with a witness bit for each input, a one at the address of one, which lies below that number
-- too, fewer than 2 ^ 28 AND gates and numbers that do not wrap, and a random source that gives as
-- many bytes as it is asked for.
pub execute_proof-verdict :
    (A : AddressMap) (one : ℕ) (random : ℕ → ℕ) (rand : ℕ → List ℕ) (circuit : List Gate)
    (p : Prepared A one) (witness : List ℕ) (challenge : ℕ)
    → prepare A one circuit ≡ some p
    → AddressMap.size A p.input_gates ≤ 8 * length witness
    → IsSingleAssignment p.circuit
    → All (NamesBelow (bits_of A one p)) p.circuit
    → one < bits_of A one p
    → emitted A one p witness one ≡ true
    → count_ands p.circuit < 2 ^ 28
    → bits_of A one p + 3 * count_ands p.circuit + 8 < 2 ^ 32
    → ((m : ℕ) → (length (rand m) ≡ m) × IsBytes (rand m))
    → challenge < 2
    → execute_proof A one random rand circuit witness 0 challenge
      ≡ some (verdict A one random p witness challenge, verdict A one random p witness challenge)
execute_proof-verdict A one random rand circuit p witness challenge ready supply once below one_in
      is_one few small source c_small =
    let n = length p.circuit + AddressMap.size A p.input_gates in
    let is = prepared A one circuit ready in
    let width : ℕ = u32 (u32 n + 7) / 8 in
    let covers : n ≤ 8 * width = omega arith in
    let (er, e', ran, wide, bytes, holds) =
      ese_visit-Satisfies A p.circuit (emitter A one p witness) is.map is.unique (omega arith)
        (All-InRange A n width p.circuit covers below) once in
    after_visit A one random rand p witness ran circuit challenge ready holds
      (rw (wide ∙ width_lem A p.circuit (emitter A one p witness) ran) covers) below one_in
      (write_unread-lt p.output n p.circuit is.written below) is_one few small source c_small
