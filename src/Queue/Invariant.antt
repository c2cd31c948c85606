-- ===== src/Queue/Invariant.antt =====
-- What holds of the queue and its threads in every state that they reach.
use empirical_zero_knowledge.Prelude.{
  ℕ, suc, ◌+◌, ◌-◌, ◌^◌, ◌<◌, ◌≡◌, refl, sym, ◌∙◌, some, Bool-cases, inl, inr, ◌==◌, u32, [], ◌∷◌,
  ◌++◌, get_elem?, get_or, set, replicate, length-replicate, arith,
}
use mathlib.Core.Path.{subst}
use empirical_zero_knowledge.Queue.{BlkQueue, new, push_locked, take_locked}
use empirical_zero_knowledge.Queue.Ring.{wrap, window}
use empirical_zero_knowledge.Queue.Threads.{
  Phase, IsPositive, idle, push_waits, take_waits, push_call, take_call, pushing, pushed_one,
  taking, took, System, Step, push_down, push_store, push_gone, push_up, take_down, take_load,
  take_gone, take_up, Reach, here, next, initial, total, is_pushing, is_pushed_one, is_taking,
  is_took, total-idle,
}
use empirical_zero_knowledge.Queue.Locked.{
  after_push, push_locked_lem, after_push-IsRing, after_take, take_locked_lem, after_take-IsRing,
}
use empirical_zero_knowledge.Queue.Sound.{IsSound, moved, some_injective, recount}

waiting_is_none :
    (x : ℕ)
    → (is_pushing (push_waits x) ≡ 0)
      × (is_pushed_one (push_waits x) ≡ 0)
      × (is_taking (push_waits x) ≡ 0)
      × (is_took (push_waits x) ≡ 0)
unfolding is_pushing is_pushed_one is_taking is_took
waiting_is_none x = (refl, refl, refl, refl)

taker_is_none :
    (is_pushing take_waits ≡ 0)
    × (is_pushed_one take_waits ≡ 0)
    × (is_taking take_waits ≡ 0)
    × (is_took take_waits ≡ 0)
unfolding is_pushing is_pushed_one is_taking is_took
taker_is_none = (refl, refl, refl, refl)

module _ (size : ℕ) where
  -- A thread that begins to wait.
  call-IsSound :
      (s : System) (i : ℕ) (p : Phase)
      → IsSound size s
      → get_elem? s.threads i ≡ some idle
      → (is_pushing p ≡ 0) × (is_pushed_one p ≡ 0) × (is_taking p ≡ 0) × (is_took p ≡ 0)
      → IsSound size (record s { threads = set s.threads i p })
  unfolding is_pushing is_pushed_one is_taking is_took
  call-IsSound s i p h at none_of =
      let m = moved s i idle p at in
      record {
        cells = h.cells;
        used = h.used;
        ring = h.ring;
        places = omega (arith, h.places, none_of);
        in_use = omega (arith, h.in_use, none_of);
      }

  push_down-IsSound :
      (s : System) (i x : ℕ)
      → IsSound size s
      → get_elem? s.threads i ≡ some (push_waits x)
      → IsPositive s.queue.inserts
      → IsSound size (record s {
        queue = record s.queue { inserts = s.queue.inserts - 1 };
        threads = set s.threads i (pushing x);
      })
  unfolding is_pushing is_pushed_one is_taking is_took
  push_down-IsSound s i x h at free =
      let m = moved s i (push_waits x) (pushing x) at in
      record {
        cells = h.cells;
        used = h.used;
        ring =
            recount size s.queue s.pushed s.taken h.cells h.used (s.queue.inserts - 1)
              s.queue.takeouts h.ring;
        places = omega (arith, h.places);
        in_use = omega (arith, h.in_use);
      }

  push_store-IsSound :
      (s : System) (i x : ℕ) (q : BlkQueue)
      → IsSound size s
      → get_elem? s.threads i ≡ some (pushing x)
      → push_locked s.queue x ≡ some q
      → IsSound size (record s {
        queue = q;
        threads = set s.threads i pushed_one;
        pushed = s.pushed ++ x ∷ [];
      })
  unfolding is_pushing is_pushed_one is_taking is_took
  push_store-IsSound s i x q h at stored =
      let m = moved s i (pushing x) pushed_one at in
      let q' = after_push size s.queue s.pushed s.taken h.cells h.used h.ring x in
      let same : q' ≡ q =
        some_injective
          (sym (push_locked_lem size s.queue s.pushed s.taken h.cells h.used h.ring x) ∙ stored) in
      let free : h.used < size = omega (arith, h.places, h.in_use) in
      subst
        (λ q. IsSound size (record s {
          queue = q;
          threads = set s.threads i pushed_one;
          pushed = s.pushed ++ x ∷ [];
        }))
        same
        (record {
          cells = set h.cells s.queue.back x;
          used = suc h.used;
          ring = after_push-IsRing size s.queue s.pushed s.taken h.cells h.used h.ring x free;
          places = omega (arith, h.places);
          in_use = omega (arith, h.in_use);
        })

  push_up-IsSound :
      (s : System) (i : ℕ)
      → IsSound size s
      → get_elem? s.threads i ≡ some pushed_one
      → IsSound size (record s {
        queue = record s.queue { takeouts = s.queue.takeouts + 1 };
        threads = set s.threads i idle;
      })
  unfolding is_pushing is_pushed_one is_taking is_took
  push_up-IsSound s i h at =
      let m = moved s i pushed_one idle at in
      record {
        cells = h.cells;
        used = h.used;
        ring =
            recount size s.queue s.pushed s.taken h.cells h.used s.queue.inserts
              (s.queue.takeouts + 1) h.ring;
        places = omega (arith, h.places);
        in_use = omega (arith, h.in_use);
      }

  take_down-IsSound :
      (s : System) (i : ℕ)
      → IsSound size s
      → get_elem? s.threads i ≡ some take_waits
      → IsPositive s.queue.takeouts
      → IsSound size (record s {
        queue = record s.queue { takeouts = s.queue.takeouts - 1 };
        threads = set s.threads i taking;
      })
  unfolding is_pushing is_pushed_one is_taking is_took
  take_down-IsSound s i h at there =
      let m = moved s i take_waits taking at in
      record {
        cells = h.cells;
        used = h.used;
        ring =
            recount size s.queue s.pushed s.taken h.cells h.used s.queue.inserts
              (s.queue.takeouts - 1) h.ring;
        places = omega (arith, h.places);
        in_use = omega (arith, h.in_use);
      }

  take_load-IsSound :
      (s : System) (i x : ℕ) (q : BlkQueue)
      → IsSound size s
      → get_elem? s.threads i ≡ some taking
      → take_locked s.queue ≡ some (x, q)
      → IsSound size
          (record s { queue = q; threads = set s.threads i (took x); taken = s.taken ++ x ∷ [] })
  unfolding is_pushing is_pushed_one is_taking is_took
  take_load-IsSound s i x q h at loaded =
      let m = moved s i taking (took (get_or h.cells s.queue.front 0)) at in
      let some_taking : 0 < total is_taking s.threads = omega arith in
      let left =
        total is_pushed_one s.threads + s.queue.takeouts + (total is_taking s.threads - 1) in
      let some_used : h.used ≡ suc left = omega (arith, h.in_use) in
      let v = get_or h.cells s.queue.front 0 in
      let q' = after_take size s.queue s.pushed s.taken h.cells h.used h.ring in
      let same : (v, q') ≡ (x, q) =
        some_injective
          (sym (take_locked_lem size s.queue s.pushed s.taken h.cells h.used h.ring) ∙ loaded) in
      subst
        (λ r. IsSound size (record s {
          queue = r.1;
          threads = set s.threads i (took (r.0));
          taken = s.taken ++ r.0 ∷ [];
        }))
        same
        (record {
          cells = set h.cells s.queue.front 0;
          used = left;
          ring =
              after_take-IsRing size s.queue s.pushed s.taken h.cells h.used h.ring left some_used;
          places = omega (arith, h.places);
          in_use = omega arith;
        })

  take_up-IsSound :
      (s : System) (i x : ℕ)
      → IsSound size s
      → get_elem? s.threads i ≡ some (took x)
      → IsSound size (record s {
        queue = record s.queue { inserts = s.queue.inserts + 1 };
        threads = set s.threads i idle;
      })
  unfolding is_pushing is_pushed_one is_taking is_took
  take_up-IsSound s i x h at =
      let m = moved s i (took x) idle at in
      record {
        cells = h.cells;
        used = h.used;
        ring =
            recount size s.queue s.pushed s.taken h.cells h.used (s.queue.inserts + 1)
              s.queue.takeouts h.ring;
        places = omega (arith, h.places);
        in_use = omega (arith, h.in_use);
      }

  Step-IsSound : {s t : System} → Step s t → IsSound size s → IsSound size t
  Step-IsSound (push_call s i x at) h = call-IsSound s i (push_waits x) h at (waiting_is_none x)
  Step-IsSound (take_call s i at) h = call-IsSound s i take_waits h at taker_is_none
  Step-IsSound (push_down s i x at free) h = push_down-IsSound s i x h at free
  Step-IsSound (push_store s i x q at stored) h = push_store-IsSound s i x q h at stored
  Step-IsSound (push_gone s i x at gone) h =
      absurd (cc (push_locked_lem size s.queue s.pushed s.taken h.cells h.used h.ring x))
  Step-IsSound (push_up s i at) h = push_up-IsSound s i h at
  Step-IsSound (take_down s i at there) h = take_down-IsSound s i h at there
  Step-IsSound (take_load s i x q at loaded) h = take_load-IsSound s i x q h at loaded
  Step-IsSound (take_gone s i at gone) h =
      absurd (cc (take_locked_lem size s.queue s.pushed s.taken h.cells h.used h.ring))
  Step-IsSound (take_up s i x at) h = take_up-IsSound s i x h at

  pub Reach-IsSound : {s t : System} → IsSound size s → Reach s t → IsSound size t
  Reach-IsSound h here = h
  Reach-IsSound h (next r st) = Step-IsSound st (Reach-IsSound h r)

  abbrev made : BlkQueue
  made = record {
    elements = some (replicate (size + 1) 0);
    lelements = size + 1;
    front = 0;
    back = 0;
    inserts = size;
    takeouts = 0;
  }

  new_lem : {q : BlkQueue} → size < 2 ^ 31 → new size ≡ some q → made ≡ q
  unfolding new
  new_lem small h =
      let cells : u32 (size + 1) ≡ size + 1 = omega arith in
      elim (Bool-cases (size == 0)) [ inl empty ↦ absurd (cc) | inr some_size ↦ cc ]

  pub initial-IsSound :
      (q : BlkQueue) (n : ℕ) → size < 2 ^ 31 → new size ≡ some q → IsSound size (initial q n)
  unfolding initial is_pushing is_pushed_one is_taking is_took window
  initial-IsSound q n small h =
      let zeros = length-replicate {A = ℕ} (size + 1) 0 in
      subst (λ q. IsSound size (initial q n)) (new_lem small h)
        (record {
          cells = replicate (size + 1) 0;
          used = 0;
          ring = record {
            alive = refl;
            cells_length = omega arith;
            capacity = omega arith;
            front_inside = omega arith;
            used_most = omega arith;
            back_place = unfold wrap in (ground arith);
            contents = refl;
          };
          places = omega (
            arith,
            total-idle is_pushing n refl,
            total-idle is_pushed_one n refl,
            total-idle is_taking n refl,
            total-idle is_took n refl,
          );
          in_use = omega (arith, total-idle is_pushed_one n refl, total-idle is_taking n refl);
        })
