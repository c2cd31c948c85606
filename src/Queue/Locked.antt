-- ===== src/Queue/Locked.antt =====
-- The parts of push and take under the lock, on the ring of cells.
use empirical_zero_knowledge.Prelude.{
  ℕ, suc, ◌+◌, ◌%◌, ◌<◌, ◌≤◌, ◌≡◌, refl, sym, ap, ap₂, ◌∙◌, some, List, [], ◌∷◌, ◌++◌, length,
  get_or, set, length-set, append_assoc, arith,
}
use mathlib.Core.Path.{subst}
use empirical_zero_knowledge.Queue.{BlkQueue, push_locked, take_locked}
use empirical_zero_knowledge.Queue.Ring.{
  wrap, window, mod-eq-wrap, wrap-lt, ring_next, ring_second, window_push, window_take,
}

-- The ring: `used` cells from `front` on hold what was put in and not yet taken out.
pub record IsRing (size : ℕ) (q : BlkQueue) (pushed taken cells : List ℕ) (used : ℕ) : Type 0 where
  pub alive : q.elements ≡ some cells
  pub cells_length : length cells ≡ suc size
  pub capacity : q.lelements ≡ suc size
  pub front_inside : q.front < suc size
  pub used_most : used ≤ size
  pub back_place : q.back ≡ wrap (suc size) (q.front + used)
  pub contents : pushed ≡ taken ++ window (suc size) cells q.front used

module _ (size : ℕ) (q : BlkQueue) (pushed taken cells : List ℕ) (used : ℕ)
    (r : IsRing size q pushed taken cells used) where
  abbrev pub after_push : ℕ → BlkQueue
  after_push x = record q {
    elements = some (set cells q.back x);
    back = (q.back + 1) % q.lelements;
  }

  pub push_locked_lem : (x : ℕ) → push_locked q x ≡ some (after_push x)
  unfolding push_locked
  push_locked_lem x = ground (arith, r.alive)

  pub after_push-IsRing :
      (x : ℕ)
      → used < size
      → IsRing size (after_push x) (pushed ++ x ∷ []) taken (set cells q.back x) (suc used)
  after_push-IsRing x free = record {
    alive = refl;
    cells_length = length-set cells q.back x ∙ r.cells_length;
    capacity = r.capacity;
    front_inside = r.front_inside;
    used_most = omega arith;
    back_place =
        ap₂ (λ b n. (b + 1) % n) r.back_place r.capacity
        ∙ ring_next (suc size) q.front used r.front_inside (omega arith);
    contents =
        ap (λ xs. xs ++ x ∷ []) r.contents
        ∙ append_assoc taken (window (suc size) cells q.front used) (x ∷ [])
        ∙ ap (λ xs. taken ++ xs)
            (sym (
              ap (λ b. window (suc size) (set cells b x) q.front (suc used)) r.back_place
              ∙ window_push (suc size) cells q.front used x r.cells_length r.front_inside
                  (omega arith)));
  }

  abbrev pub after_take : BlkQueue
  after_take = record q {
    elements = some (set cells q.front 0);
    front = (q.front + 1) % q.lelements;
  }

  pub take_locked_lem : take_locked q ≡ some (get_or cells q.front 0, after_take)
  unfolding take_locked
  take_locked_lem = ground (arith, r.alive)

  pub after_take-IsRing :
      (left : ℕ)
      → used ≡ suc left
      → IsRing size after_take pushed
          (taken ++ get_or cells q.front 0 ∷ [])
          (set cells q.front 0)
          left
  after_take-IsRing left some_used =
      let front_next : (q.front + 1) % q.lelements ≡ wrap (suc size) (q.front + 1) =
        ap (λ n. (q.front + 1) % n) r.capacity
        ∙ mod-eq-wrap (suc size) (q.front + 1) (omega (arith, r.front_inside)) in
      record {
        alive = refl;
        cells_length = length-set cells q.front 0 ∙ r.cells_length;
        capacity = r.capacity;
        front_inside =
            subst (λ f. f < suc size) (sym front_next)
              (wrap-lt (suc size) (q.front + 1) (omega (arith, r.front_inside)));
        used_most = omega arith;
        back_place =
            r.back_place
            ∙ ap (λ k. wrap (suc size) (q.front + k)) some_used
            ∙ ring_second (suc size) q.front left r.front_inside (omega arith)
            ∙ ap (λ f. wrap (suc size) (f + left)) (sym front_next);
        contents =
            r.contents
            ∙ ap (λ xs. taken ++ xs)
                (ap (window (suc size) cells q.front) some_used
                  ∙ window_take (suc size) cells q.front left r.cells_length r.front_inside
                      (omega arith)
                  ∙ ap
                      (λ f. get_or cells q.front 0 ∷ window (suc size) (set cells q.front 0) f left)
                      (sym front_next))
            ∙ sym (
                append_assoc taken (get_or cells q.front 0 ∷ [])
                  (window (suc size) (set cells q.front 0) ((q.front + 1) % q.lelements) left));
      }
