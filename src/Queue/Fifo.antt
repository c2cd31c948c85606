-- ===== src/Queue/Fifo.antt =====
-- What the queue promises to its threads: first in, first out, and no more elements than its size.
use empirical_zero_knowledge.Prelude.{
  ℕ, suc, ◌+◌, ◌-◌, ◌^◌, ◌%◌, ◌<◌, ◌≤◌, ◌≡◌, sym, ap, ap₂, ◌∙◌, some, List, ◌++◌, length, u32, ltb,
  true, false, arith,
}
use native.Mathlib.Decide.{dec_lt}
use native.Mathlib.Nat.{mod-eq_of_lt, mod-eq-sub-mod}
use empirical_zero_knowledge.Queue.{BlkQueue, new, queue_size}
use empirical_zero_knowledge.Queue.Ring.{wrap, window, length-window}
use empirical_zero_knowledge.Queue.Threads.{System, Reach, initial}
use empirical_zero_knowledge.Queue.Locked.{IsRing}
use empirical_zero_knowledge.Queue.Sound.{IsSound}
use empirical_zero_knowledge.Queue.Invariant.{Reach-IsSound, initial-IsSound}

-- In every state that threads reach from a new queue of a size below 2 ^ 31, the cells from the front on hold what was pushed
-- and not yet taken, in order, and each place of the queue is counted once: free in `inserts`, in use
-- in `takeouts`, or held by a thread between its `down` and its `up`.
pub Reach-new-IsSound :
    (size n : ℕ) {q : BlkQueue} {s : System}
    → new size ≡ some q
    → size < 2 ^ 31
    → Reach (initial q n) s
    → IsSound size s
Reach-new-IsSound size n {q} made small reached =
    Reach-IsSound size (initial-IsSound size q n small made) reached

distance :
    (n p k : ℕ)
    → n + n ≤ 2 ^ 32
    → p < n
    → k < n
    → u32 (u32 (wrap n (p + k) + 2 ^ 32 - p) + n) % n ≡ k
unfolding wrap
distance n p k small place count = elim (dec_lt (p + k) n) [
  | yes below ↦
      let test : ltb (p + k) n ≡ true = ground arith in
      let left : u32 (u32 (p + k + 2 ^ 32 - p) + n) ≡ k + n = omega arith in
      rw (test, left)
        (mod-eq-sub-mod (omega arith) ∙ ap (λ m. m % n) (omega arith) ∙ mod-eq_of_lt count)
  | no above ↦
      let test : ltb (p + k) n ≡ false = ground arith in
      let left : u32 (u32 (p + k - n + 2 ^ 32 - p) + n) ≡ k = omega arith in
      rw (test, left) (mod-eq_of_lt count)
]

-- The number of cells in use, as `BlkQueue_size` computes it.
queue_size_lem :
    (size : ℕ) (q : BlkQueue) (pushed taken cells : List ℕ) (used : ℕ)
    → size < 2 ^ 31
    → IsRing size q pushed taken cells used
    → queue_size q ≡ used
unfolding queue_size
queue_size_lem size q pushed taken cells used small r =
    ap₂ (λ b n. u32 (u32 (b + 2 ^ 32 - q.front) + n) % n) r.back_place r.capacity
    ∙ distance (suc size) q.front used (omega arith) r.front_inside (omega (arith, r.used_most))

-- In every state that threads reach from a new queue of a size below `2 ^ 31`, what was taken is, in
-- order, the beginning of what was pushed; the rest are as many as `BlkQueue_size` says, and at most
-- the size.
pub Reach-fifo :
    (size n : ℕ) {q : BlkQueue} {s : System}
    → new size ≡ some q
    → size < 2 ^ 31
    → Reach (initial q n) s
    → (held : List ℕ) × (s.pushed ≡ s.taken ++ held)
      × (length held ≡ queue_size s.queue)
      × (length held ≤ size)
Reach-fifo size n {q} {s} made small reached =
    let h = Reach-new-IsSound size n made small reached in
    let held = window (suc size) h.cells s.queue.front h.used in
    let count = length-window (suc size) h.cells s.queue.front h.used in
    (
      held,
      h.ring.contents,
      count ∙ sym (queue_size_lem size s.queue s.pushed s.taken h.cells h.used small h.ring),
      omega (arith, h.ring.used_most),
    )
