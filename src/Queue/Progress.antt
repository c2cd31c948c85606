-- ===== src/Queue/Progress.antt =====
-- No push and take that wait for each other: a thread between a `down` and its `up` can go on, and else
-- one of the two semaphores lets a thread pass.
use empirical_zero_knowledge.Prelude.{
  ℕ, suc, ◌+◌, ◌^◌, false, ◌<◌, ◌≡◌, refl, some, List, [], ◌∷◌, get_elem?, arith,
}
use native.Mathlib.Decide.{dec_lt}
use empirical_zero_knowledge.Queue.{BlkQueue, new}
use empirical_zero_knowledge.Queue.Threads.{
  Phase, idle, push_waits, take_waits, is_call, pushing, pushed_one, taking, took, System, Step,
  push_down, push_store, push_up, take_down, take_load, take_up, Reach, initial, total, is_pushing,
  is_pushed_one, is_taking, is_took,
}
use empirical_zero_knowledge.Queue.Locked.{push_locked_lem, take_locked_lem}
use empirical_zero_knowledge.Queue.Sound.{IsSound}
use empirical_zero_knowledge.Queue.Fifo.{Reach-new-IsSound}

-- A thread between a `down` and its `up`.
is_busy : Phase → ℕ
is_busy p = is_pushing p + is_pushed_one p + is_taking p + is_took p

total-is_busy :
    (ps : List Phase)
    → total is_busy ps
      ≡ total is_pushing ps + total is_pushed_one ps + total is_taking ps + total is_took ps
unfolding total is_busy
total-is_busy [] = refl
total-is_busy (p ∷ ps) = omega (arith, total-is_busy ps)

find_busy :
    (ps : List Phase)
    → 0 < total is_busy ps
    → (i : ℕ) × (p : Phase) × (get_elem? ps i ≡ some p) × (0 < is_busy p)
unfolding total
find_busy [] h = absurd (omega arith)
find_busy (p ∷ ps) h = elim (dec_lt 0 (is_busy p)) [
  | yes busy ↦ (0, p, refl, busy)
  | no free ↦ let (i, p', at, busy) = find_busy ps (omega arith) in (suc i, p', at, busy)
]

-- A step that is not the beginning of a call.
abbrev pub GoesOn : System → Type 0
GoesOn s = (t : System) × (step : Step s t) × (is_call step ≡ false)

module _ (size : ℕ) (s : System) (h : IsSound size s) where
  busy-GoesOn : (i : ℕ) (p : Phase) → get_elem? s.threads i ≡ some p → 0 < is_busy p → GoesOn s
  unfolding is_busy is_pushing is_pushed_one is_taking is_took
  busy-GoesOn i idle at busy = absurd (omega arith)
  busy-GoesOn i (push_waits x) at busy = absurd (omega arith)
  busy-GoesOn i take_waits at busy = absurd (omega arith)
  busy-GoesOn i (pushing x) at busy = (
    _,
    push_store s i x _ at (push_locked_lem size s.queue s.pushed s.taken h.cells h.used h.ring x),
    refl,
  )
  busy-GoesOn i pushed_one at busy = (_, push_up s i at, refl)
  busy-GoesOn i taking at busy = (
    _,
    take_load s i _ _ at (take_locked_lem size s.queue s.pushed s.taken h.cells h.used h.ring),
    refl,
  )
  busy-GoesOn i (took x) at busy = (_, take_up s i x at, refl)

  -- No thread is between a `down` and its `up`: all places are free or in use.
  waiting-GoesOn :
      (i j x : ℕ)
      → 0 < size
      → size < 2 ^ 31
      → get_elem? s.threads i ≡ some (push_waits x)
      → get_elem? s.threads j ≡ some take_waits
      → total is_busy s.threads ≡ 0
      → GoesOn s
  waiting-GoesOn i j x pos small pushes takes free =
      let all_places = total-is_busy s.threads in
      let places = h.places in
      elim (dec_lt 0 s.queue.inserts) [
        | yes room ↦ (_, push_down s i x pushes (omega arith, omega arith), refl)
        | no full ↦ (_, take_down s j takes (omega arith, omega arith), refl)
      ]

new_pos : (size : ℕ) {q : BlkQueue} → new size ≡ some q → 0 < size
unfolding new
new_pos size h = ground arith

-- In every state that threads reach from a new queue of a size below 2 ^ 31, if one thread waits to push
-- and another to take, some thread can go on with the call that it is in: a push and a take never wait
-- for each other.
pub Reach-GoesOn :
    (size n i j x : ℕ) {q : BlkQueue} {s : System}
    → new size ≡ some q
    → size < 2 ^ 31
    → Reach (initial q n) s
    → get_elem? s.threads i ≡ some (push_waits x)
    → get_elem? s.threads j ≡ some take_waits
    → GoesOn s
Reach-GoesOn size n i j x {q} {s} made small reached pushes takes =
    let h = Reach-new-IsSound size n made small reached in
    elim (dec_lt 0 (total is_busy s.threads)) [
      | yes busy ↦ let (k, p, at, b) = find_busy s.threads busy in busy-GoesOn size s h k p at b
      | no free ↦ waiting-GoesOn size s h i j x (new_pos size made) small pushes takes (omega arith)
    ]
