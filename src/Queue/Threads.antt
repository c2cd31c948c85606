-- ===== src/Queue/Threads.antt =====
-- Threads that call `BlkQueue_push` and `BlkQueue_take` on one queue, in any order. A step is a
-- call, a `down` of a semaphore, the part under the lock, or an `up`; `down` waits while the counter is
-- zero or, as an `int`, negative, and its thread does nothing else.
use empirical_zero_knowledge.Prelude.{
  ℕ, zero, suc, ◌+◌, ◌-◌, ◌^◌, ◌<◌, ◌≡◌, refl, Bool, true, false, none, some, List, [], ◌∷◌, ◌++◌,
  get_elem?, set, replicate, arith,
}
use empirical_zero_knowledge.Queue.{BlkQueue, push_locked, take_locked}

-- Where a thread is.
pub data Phase : Type 0 where
  idle : Phase
  push_waits : ℕ → Phase
  take_waits : Phase
  pushing : ℕ → Phase
  pushed_one : Phase
  taking : Phase
  took : ℕ → Phase

-- The queue, the threads, and what they have put in and taken out, in order.
pub record System : Type 0 where
  pub queue : BlkQueue
  pub threads : List Phase
  pub pushed : List ℕ
  pub taken : List ℕ

-- A count above zero, as an `int`.
abbrev pub IsPositive : ℕ → Type 0
IsPositive count = (0 < count) × (count < 2 ^ 31)

pub data Step : System → System → Type 0 where
  push_call :
      (s : System) (i x : ℕ)
      → get_elem? s.threads i ≡ some idle
      → Step s (record s { threads = set s.threads i (push_waits x) })
  take_call :
      (s : System) (i : ℕ)
      → get_elem? s.threads i ≡ some idle
      → Step s (record s { threads = set s.threads i take_waits })
  push_down :
      (s : System) (i x : ℕ)
      → get_elem? s.threads i ≡ some (push_waits x)
      → IsPositive s.queue.inserts
      → Step s (record s {
        queue = record s.queue { inserts = s.queue.inserts - 1 };
        threads = set s.threads i (pushing x);
      })
  push_store :
      (s : System) (i x : ℕ) (q : BlkQueue)
      → get_elem? s.threads i ≡ some (pushing x)
      → push_locked s.queue x ≡ some q
      → Step s (record s {
        queue = q;
        threads = set s.threads i pushed_one;
        pushed = s.pushed ++ x ∷ [];
      })
  push_gone :
      (s : System) (i x : ℕ)
      → get_elem? s.threads i ≡ some (pushing x)
      → push_locked s.queue x ≡ none
      → Step s (record s { threads = set s.threads i idle })
  push_up :
      (s : System) (i : ℕ)
      → get_elem? s.threads i ≡ some pushed_one
      → Step s (record s {
        queue = record s.queue { takeouts = s.queue.takeouts + 1 };
        threads = set s.threads i idle;
      })
  take_down :
      (s : System) (i : ℕ)
      → get_elem? s.threads i ≡ some take_waits
      → IsPositive s.queue.takeouts
      → Step s (record s {
        queue = record s.queue { takeouts = s.queue.takeouts - 1 };
        threads = set s.threads i taking;
      })
  take_load :
      (s : System) (i x : ℕ) (q : BlkQueue)
      → get_elem? s.threads i ≡ some taking
      → take_locked s.queue ≡ some (x, q)
      → Step s
          (record s { queue = q; threads = set s.threads i (took x); taken = s.taken ++ x ∷ [] })
  take_gone :
      (s : System) (i : ℕ)
      → get_elem? s.threads i ≡ some taking
      → take_locked s.queue ≡ none
      → Step s (record s { threads = set s.threads i idle })
  take_up :
      (s : System) (i x : ℕ)
      → get_elem? s.threads i ≡ some (took x)
      → Step s (record s {
        queue = record s.queue { inserts = s.queue.inserts + 1 };
        threads = set s.threads i idle;
      })

-- Whether a step is the beginning of a call.
abbrev pub is_call : {s t : System} → Step s t → Bool
is_call (push_call s i x at) = true
is_call (take_call s i at) = true
is_call _ = false

pub data Reach (s : System) : System → Type 0 where
  here : Reach s s
  next : {t u : System} → Reach s t → Step t u → Reach s u

-- `n` threads that have not begun, on a queue.
unfoldable pub initial : BlkQueue → ℕ → System
initial q n = record { queue = q; threads = replicate n idle; pushed = []; taken = [] }

-- How many threads there are of a kind.
unfoldable pub total : (Phase → ℕ) → List Phase → ℕ
total f [] = 0
total f (p ∷ ps) = f p + total f ps

pub total-set :
    (f : Phase → ℕ) (ps : List Phase) (i : ℕ) (p q : Phase)
    → get_elem? ps i ≡ some p
    → total f (set ps i q) + f p ≡ total f ps + f q
unfolding total
total-set f [] i p q h = cc
total-set f (x ∷ ps) zero p q h = let same : x ≡ p = cc in rw same (omega arith)
total-set f (x ∷ ps) (suc i) p q h = omega (arith, total-set f ps i p q h)

unfoldable pub is_pushing : Phase → ℕ
is_pushing (pushing x) = 1
is_pushing _ = 0

unfoldable pub is_pushed_one : Phase → ℕ
is_pushed_one pushed_one = 1
is_pushed_one _ = 0

unfoldable pub is_taking : Phase → ℕ
is_taking taking = 1
is_taking _ = 0

unfoldable pub is_took : Phase → ℕ
is_took (took x) = 1
is_took _ = 0

pub total-idle : (f : Phase → ℕ) (n : ℕ) → f idle ≡ 0 → total f (replicate n idle) ≡ 0
unfolding total
total-idle f zero h = refl
total-idle f (suc n) h = omega (arith, total-idle f n h)
