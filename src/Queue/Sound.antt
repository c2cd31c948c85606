-- ===== src/Queue/Sound.antt =====
-- What is said of the queue and its threads, and how one thread's move changes their numbers.
use empirical_zero_knowledge.Prelude.{ℕ, ◌+◌, ◌≡◌, some, List, get_elem?, set}
use empirical_zero_knowledge.Queue.{BlkQueue}
use empirical_zero_knowledge.Queue.Threads.{
  Phase, System, total, total-set, is_pushing, is_pushed_one, is_taking, is_took,
}
use empirical_zero_knowledge.Queue.Locked.{IsRing}

-- Every place of the queue is free, in use or on its way: the counters of the semaphores and the
-- threads between a `down` and the next `up` add up to the size.
pub record IsSound (size : ℕ) (s : System) : Type 0 where
  pub cells : List ℕ
  pub used : ℕ
  pub ring : IsRing size s.queue s.pushed s.taken cells used
  pub places :
      s.queue.inserts
        + total is_pushing s.threads
        + total is_pushed_one s.threads
        + s.queue.takeouts
        + total is_taking s.threads
        + total is_took s.threads
      ≡ size
  pub in_use : used ≡ total is_pushed_one s.threads + s.queue.takeouts + total is_taking s.threads

-- What one thread's move does to the number of threads of each kind.
abbrev pub Moved : System → List Phase → Phase → Phase → Type 0
Moved s threads p p' =
    (total is_pushing threads + is_pushing p ≡ total is_pushing s.threads + is_pushing p')
    × (total is_pushed_one threads + is_pushed_one p
        ≡ total is_pushed_one s.threads + is_pushed_one p')
    × (total is_taking threads + is_taking p ≡ total is_taking s.threads + is_taking p')
    × (total is_took threads + is_took p ≡ total is_took s.threads + is_took p')

pub moved :
    (s : System) (i : ℕ) (p p' : Phase)
    → get_elem? s.threads i ≡ some p
    → Moved s (set s.threads i p') p p'
moved s i p p' at = (
  total-set is_pushing s.threads i p p' at,
  total-set is_pushed_one s.threads i p p' at,
  total-set is_taking s.threads i p p' at,
  total-set is_took s.threads i p p' at,
)

pub some_injective {ℓ} : {A : Type ℓ} {a b : A} → some a ≡ some b → a ≡ b
some_injective {A} {a} {b} h = cc

module _ (size : ℕ) where
  -- The ring does not depend on the counters of the semaphores.
  pub recount :
      (q : BlkQueue) (pushed taken cells : List ℕ) (used a b : ℕ)
      → IsRing size q pushed taken cells used
      → IsRing size (record q { inserts = a; takeouts = b }) pushed taken cells used
  recount q pushed taken cells used a b r = record {
    alive = r.alive;
    cells_length = r.cells_length;
    capacity = r.capacity;
    front_inside = r.front_inside;
    used_most = r.used_most;
    back_place = r.back_place;
    contents = r.contents;
  }
