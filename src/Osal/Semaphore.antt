-- ===== src/Osal/Semaphore.antt =====
-- The semaphore (`Cmaphore` in `platform/osal/posix_src/osal.c`). What a function does between `lock`
-- and `unlock` is one step. The pointers handed over are not null, and the lock was made. Of
-- `Cmaphore_destroy` only the first part is here, which tells the threads to leave: after it the memory
-- is freed, whoever still waits.
pub mod Count
use empirical_zero_knowledge.Prelude.{
  ℕ, suc, ◌+◌, ◌-◌, ◌^◌, ◌≡◌, ◌||◌, ◌==◌, Bool, true, false, Option, none, some, ltb, leb,
  if◌then◌else◌, u32,
}

-- `count` is an `int`, given by its two's complement. `alive` is whether `oe` is set.
pub record Semaphore : Type 0 where
  pub count : ℕ
  pub alive : Bool

unfoldable pub semaphore_new : ℕ → Semaphore
semaphore_new count = record { count = u32 count; alive = true }

-- `none` follows the null pointer `oe`, or is the overflow of the `int`.
unfoldable pub semaphore_up : Semaphore → Option Semaphore
semaphore_up c =
    if c.alive
    then if c.count == 2 ^ 31 - 1 then none else some (record c { count = u32 (c.count + 1) })
    else none

-- `count <= 0` for an `int`.
abbrev not_positive : ℕ → Bool
not_positive count = count == 0 || leb (2 ^ 31) count

-- The test of the loop in `Cmaphore_down` and what follows it: `none` goes around once more.
unfoldable pub take_one : Semaphore → Option Semaphore
take_one c = if not_positive c.count then none else some (record c { count = c.count - 1 })

pub data Round : Type 0 where
  taken : Semaphore → Round
  waits : Round
  leaves : Round

-- One round of a thread that waits: the test whether it is destroyed comes first.
unfoldable pub wait_round : Semaphore → Round
unfolding take_one
wait_round c = if c.alive then elim (take_one c) [ none ↦ waits | some c' ↦ taken c' ] else leaves

unfoldable pub semaphore_close : Semaphore → Semaphore
semaphore_close c = record c { alive = false }

-- The threads in `Cmaphore_down`: `entered` has seen `oe` and not yet tested the count, `waiting` has
-- found it zero. `passed` and `left` have returned, the first with the count taken.
pub record System : Type 0 where
  pub sem : Semaphore
  pub entered : ℕ
  pub waiting : ℕ
  pub passed : ℕ
  pub left : ℕ
  pub ups : ℕ

pub data Step : System → System → Type 0 where
  up :
      {s : System} {c : Semaphore}
      → semaphore_up s.sem ≡ some c
      → Step s (record s { sem = c; ups = s.ups + 1 })
  enter : {s : System} → s.sem.alive ≡ true → Step s (record s { entered = s.entered + 1 })
  turn_back : {s : System} → s.sem.alive ≡ false → Step s (record s { left = s.left + 1 })
  take_first :
      {s : System} {n : ℕ} {c : Semaphore}
      → s.entered ≡ suc n
      → take_one s.sem ≡ some c
      → Step s (record s { sem = c; entered = n; passed = s.passed + 1 })
  wait_first :
      {s : System} {n : ℕ}
      → s.entered ≡ suc n
      → take_one s.sem ≡ none
      → Step s (record s { entered = n; waiting = s.waiting + 1 })
  take_later :
      {s : System} {n : ℕ} {c : Semaphore}
      → s.waiting ≡ suc n
      → wait_round s.sem ≡ taken c
      → Step s (record s { sem = c; waiting = n; passed = s.passed + 1 })
  leave :
      {s : System} {n : ℕ}
      → s.waiting ≡ suc n
      → wait_round s.sem ≡ leaves
      → Step s (record s { waiting = n; left = s.left + 1 })
  close : {s : System} → Step s (record s { sem = semaphore_close s.sem })

pub data Reach : System → System → Type 0 where
  here : {s : System} → Reach s s
  next : {s t u : System} → Reach s t → Step t u → Reach s u

abbrev pub idle : ℕ → System
idle count = record {
  sem = semaphore_new count;
  entered = 0;
  waiting = 0;
  passed = 0;
  left = 0;
  ups = 0;
}
