-- ===== src/Osal/Mutex/Exclusion.antt =====
-- No two threads have the lock at once (`platform/osal/posix_src/mutex2.c`).
use empirical_zero_knowledge.Prelude.{
  ℕ, ◌≡◌, ◌≢◌, refl, sym, ◌∙◌, Bool-cases, inl, inr, ◌==◌, ==_iff, ==_refl, ap, arith,
}
use empirical_zero_knowledge.Osal.Mutex.{
  exchange_word, mutex_unlock, Phase, outside, spinning, inside, Locked, move, Step, call, round,
  release, IsOwn, IsFair, Reach, here, next, free,
}

-- While the word is 0 no thread has the lock, and else just one.
pub record IsExclusive (s : Locked) : Type 0 where
  pub free_word : s.word ≡ 0 → (i : ℕ) → s.phase i ≢ inside
  pub held : s.word ≢ 0 → (i : ℕ) × (s.phase i ≡ inside)
  pub alone : (i j : ℕ) → s.phase i ≡ inside → s.phase j ≡ inside → i ≡ j

was_inside :
    (phase : ℕ → Phase) (i j : ℕ) (p : Phase)
    → p ≢ inside
    → move i p phase j ≡ inside
    → (phase j ≡ inside) × (i ≢ j)
was_inside phase i j p out h = elim (Bool-cases (i == j)) [
  | inl same ↦ absurd (out (rw same at h))
  | inr other ↦ (rw other at h, λ e. ground arith)
]

stays : (phase : ℕ → Phase) (i j : ℕ) (p : Phase) → i ≢ j → move i p phase j ≡ phase j
stays phase i j p ne = ground arith

moved : (phase : ℕ → Phase) (i : ℕ) (p : Phase) → move i p phase i ≡ p
moved phase i p = rw (==_refl i) refl

module _ (s : Locked) (h : IsExclusive s) (i : ℕ) where
  -- A thread without the lock stays without it.
  move_out :
      (p : Phase)
      → p ≢ inside
      → s.phase i ≢ inside
      → IsExclusive (record s { phase = move i p s.phase })
  move_out p out was = record {
    free_word = λ e j now. h.free_word e j (was_inside s.phase i j p out now).0;
    held = λ taken.
        let (j, there) = h.held taken in
        (j, stays s.phase i j p (λ same. was (ap s.phase same ∙ there)) ∙ there);
    alone = λ j k a b.
        h.alone j k (was_inside s.phase i j p out a).0 (was_inside s.phase i k p out b).0;
  }

  -- A thread takes the free lock.
  take : s.word ≡ 0 → IsExclusive (record { word = 1; phase = move i inside s.phase })
  take zeroth = record {
    free_word = λ e. absurd (omega arith);
    held = λ taken. (i, moved s.phase i inside);
    alone = λ j k a b. sym (only j a) ∙ only k b;
  }
    where
      only : (j : ℕ) → move i inside s.phase j ≡ inside → i ≡ j
      only j a = elim (Bool-cases (i == j)) [
        | inl same ↦ (==_iff i j).0 same
        | inr other ↦ absurd (h.free_word zeroth j (rw other at a))
      ]

  leave : s.phase i ≡ inside → IsExclusive (record { word = 0; phase = move i outside s.phase })
  leave had = record {
    free_word = λ e j now.
        let (there, ne) = was_inside s.phase i j outside (λ e'. cc) now in
        ne (h.alone i j had there);
    held = λ taken. absurd (taken refl);
    alone = λ j k a b.
        h.alone j k (was_inside s.phase i j outside (λ e'. cc) a).0
          (was_inside s.phase i k outside (λ e'. cc) b).0;
  }

Step-IsExclusive : {s t : Locked} (step : Step s t) → IsOwn step → IsExclusive s → IsExclusive t
unfolding exchange_word mutex_unlock
Step-IsExclusive {s} (call i out) own h = move_out s h i spinning (λ e. cc) (λ e. cc)
Step-IsExclusive {s} (round i spins) own h = elim (Bool-cases (s.word == 0)) [
  | inl is_free ↦ rw is_free (take s h i ((==_iff s.word 0).0 is_free))
  | inr is_taken ↦ rw is_taken (move_out s h i spinning (λ e. cc) (λ e. cc))
]
Step-IsExclusive {s} (release i calm) had h = leave s h i had

-- However threads call, spin and release, starting from a free lock, if only threads that have the
-- lock release it, which the code does not test: while its word is 0 no thread has it, else one thread
-- has it, and no two ever have it at once.
pub Reach-IsExclusive : {s : Locked} (run : Reach free s) → IsFair run → IsExclusive s
Reach-IsExclusive here fair = record {
  free_word = λ e i now. cc;
  held = λ taken. absurd (taken refl);
  alone = λ i j a b. cc;
}
Reach-IsExclusive (next before step) fair =
    Step-IsExclusive step fair.1 (Reach-IsExclusive before fair.0)
