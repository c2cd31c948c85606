-- ===== src/Osal/Semaphore/Count.antt =====
-- How many threads a semaphore lets pass (`platform/osal/posix_src/osal.c`).
use empirical_zero_knowledge.Prelude.{ℕ, ◌+◌, ◌^◌, ◌<◌, ◌≤◌, ◌≡◌, some, arith}
use empirical_zero_knowledge.Osal.Semaphore.{
  Semaphore, semaphore_new, semaphore_up, take_one, taken, wait_round, semaphore_close, System,
  Step, up, enter, turn_back, take_first, wait_first, take_later, leave, close, Reach, here, next,
  idle,
}

up-count :
    (c : Semaphore) {c' : Semaphore}
    → c.count + 1 < 2 ^ 31
    → semaphore_up c ≡ some c'
    → c'.count ≡ c.count + 1
unfolding semaphore_up
up-count c fits h = ground arith

take_one-count : (c : Semaphore) {c' : Semaphore} → take_one c ≡ some c' → c'.count + 1 ≡ c.count
unfolding take_one
take_one-count c h = ground arith

wait_round-count :
    (c : Semaphore) {c' : Semaphore} → wait_round c ≡ taken c' → c'.count + 1 ≡ c.count
unfolding wait_round
wait_round-count c h = ground arith

abbrev Balanced : ℕ → System → Type 0
Balanced count s = count + s.ups < 2 ^ 31 → s.sem.count + s.passed ≡ count + s.ups

Step-Balanced : (count : ℕ) {s t : System} → Step s t → Balanced count s → Balanced count t
unfolding semaphore_close
Step-Balanced count {s} (up h) b fits =
    let before = b (omega arith) in omega (arith, up-count s.sem (omega arith) h)
Step-Balanced count (enter h) b fits = b fits
Step-Balanced count (turn_back h) b fits = b fits
Step-Balanced count {s} (take_first e h) b fits =
    let before = b fits in omega (arith, take_one-count s.sem h)
Step-Balanced count (wait_first e h) b fits = b fits
Step-Balanced count {s} (take_later e h) b fits =
    let before = b fits in omega (arith, wait_round-count s.sem h)
Step-Balanced count (leave e h) b fits = b fits
Step-Balanced count close b fits = b fits

-- Whatever threads do with a new semaphore, while the count it was made with and the number of calls
-- of up stay below 2 ^ 31 in sum, so that the count is no negative `int`: the count is that sum less the calls of down that have taken one, so
-- these never outnumber it.
pub Reach-Balanced :
    (count : ℕ) {s : System}
    → Reach (idle count) s
    → count + s.ups < 2 ^ 31
    → (s.sem.count + s.passed ≡ count + s.ups) × (s.passed ≤ count + s.ups)
Reach-Balanced count reach fits = let b = balanced reach fits in (b, omega arith)
  where
    balanced : {s : System} → Reach (idle count) s → Balanced count s
    balanced here fits = unfold semaphore_new in (omega arith)
    balanced (next before step) fits = Step-Balanced count step (balanced before) fits
