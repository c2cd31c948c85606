-- ===== src/Queue.antt =====
-- The blocking queue (`common/ds/src/blockingqueue.c`): a ring of `lelements` cells with a semaphore
-- for the free places and one for the taken ones. An element is a pointer, given by a number.
pub mod Ring
pub mod Threads
pub mod Locked
pub mod Sound
pub mod Invariant
pub mod Fifo
pub mod Progress
use empirical_zero_knowledge.Prelude.{
  ℕ, zero, suc, ◌+◌, ◌-◌, ◌^◌, ◌%◌, Option, none, some, List, [], ◌∷◌, length, get_elem?, get_or,
  set, replicate, ltb, ◌==◌, if◌then◌else◌, u32,
}

-- The counters of the semaphores are fields. `elements` is null after a destruction.
pub record BlkQueue : Type 0 where
  pub elements : Option (List ℕ)
  pub lelements : ℕ
  pub front : ℕ
  pub back : ℕ
  pub inserts : ℕ
  pub takeouts : ℕ

-- No queue of size zero is made. The count of a semaphore is an `int`, which is negative for a size from
-- 2 ^ 31 on.
unfoldable pub new : ℕ → Option BlkQueue
new size =
    if size == 0
    then none
    else some (record {
      elements = some (replicate (u32 (size + 1)) 0);
      lelements = u32 (size + 1);
      front = 0;
      back = 0;
      inserts = size;
      takeouts = 0;
    })

unfoldable pub queue_size : BlkQueue → ℕ
queue_size q = u32 (u32 (q.back + 2 ^ 32 - q.front) + q.lelements) % q.lelements

-- The part of `BlkQueue_push` under the lock; `none` where the queue is gone.
unfoldable pub push_locked : BlkQueue → ℕ → Option BlkQueue
push_locked q element = elim q.elements [
  | none ↦ none
  | some es ↦
      some (record q { elements = some (set es q.back element); back = (q.back + 1) % q.lelements })
]

-- The part of `BlkQueue_take` under the lock.
unfoldable pub take_locked : BlkQueue → Option (ℕ × BlkQueue)
take_locked q = elim q.elements [
  | none ↦ none
  | some es ↦ some (
    get_or es q.front 0,
    record q { elements = some (set es q.front 0); front = (q.front + 1) % q.lelements },
  )
]
