-- ===== src/Tests/Queue.antt =====
-- A queue of one place with two threads: one pushes, the other takes.
use empirical_zero_knowledge.Prelude.{ℕ, ◌≡◌, ◌≤◌, refl, some, List, [], ◌∷◌, ◌++◌, length, arith}
use empirical_zero_knowledge.Queue.{BlkQueue, new, queue_size, push_locked, take_locked}
use empirical_zero_knowledge.Queue.Threads.{
  idle, push_waits, take_waits, push_call, take_call, pushed_one, took, System, push_down,
  push_store, push_up, take_down, take_load, Reach, here, next, initial,
}
use empirical_zero_knowledge.Queue.Fifo.{Reach-fifo}
use empirical_zero_knowledge.Queue.Progress.{GoesOn, Reach-GoesOn}

abbrev ring : List ℕ → ℕ → ℕ → ℕ → ℕ → BlkQueue
ring cells front back inserts takeouts = record {
  elements = some cells;
  lelements = 2;
  front = front;
  back = back;
  inserts = inserts;
  takeouts = takeouts;
}

abbrev empty : BlkQueue
empty = ring (0 ∷ 0 ∷ []) 0 0 1 0

new_one : new 1 ≡ some empty
unfolding new
new_one = refl

-- The first thread has pushed 7 and is between the part under the lock and its `up`.
abbrev stored : System
stored = record {
  queue = ring (7 ∷ 0 ∷ []) 0 1 0 0;
  threads = pushed_one ∷ idle ∷ [];
  pushed = 7 ∷ [];
  taken = [];
}

-- The second thread has taken it.
abbrev loaded : System
loaded = record {
  queue = ring (0 ∷ 0 ∷ []) 1 1 0 0;
  threads = idle ∷ took 7 ∷ [];
  pushed = 7 ∷ [];
  taken = 7 ∷ [];
}

reach_stored : Reach (initial empty 2) stored
unfolding initial push_locked
reach_stored =
    next (next (next here (push_call _ 0 7 refl)) (push_down _ 0 7 refl (omega arith, omega arith)))
      (push_store _ 0 7 _ refl refl)

reach_loaded : Reach (initial empty 2) loaded
unfolding push_locked take_locked
reach_loaded =
    next
      (next (next (next reach_stored (push_up _ 0 refl)) (take_call _ 1 refl))
        (take_down _ 1 refl (omega arith, omega arith)))
      (take_load _ 1 7 _ refl refl)

Reach-fifo_example :
    (held : List ℕ) × (7 ∷ [] ≡ [] ++ held)
    × (length held ≡ queue_size stored.queue)
    × (length held ≤ 1)
Reach-fifo_example = Reach-fifo 1 2 new_one (omega arith) reach_stored

-- Both threads have begun a call.
abbrev waiting : System
waiting = record {
  queue = empty;
  threads = push_waits 7 ∷ take_waits ∷ [];
  pushed = [];
  taken = [];
}

reach_waiting : Reach (initial empty 2) waiting
unfolding initial
reach_waiting = next (next here (push_call _ 0 7 refl)) (take_call _ 1 refl)

Reach-GoesOn_example : GoesOn waiting
Reach-GoesOn_example = Reach-GoesOn 1 2 0 1 7 new_one (omega arith) reach_waiting refl refl
