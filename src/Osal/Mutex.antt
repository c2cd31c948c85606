-- ===== src/Osal/Mutex.antt =====
-- The spin lock (`platform/osal/posix_src/mutex2.c`): one word of memory, 0 while the lock is free.
-- `Mutex_lock` repeats a compare-and-exchange, which the processor does in one step, until it
-- succeeds. The threads are numbered.
pub mod Exclusion
use empirical_zero_knowledge.Prelude.{ℕ, Bool, true, false, ◌==◌, if◌then◌else◌, ◌≡◌, ◌≢◌}

unfoldable pub mutex_new : ℕ → ℕ
mutex_new initval = initval

-- `lock cmpxchg` of 0 and 1: the word after it, and whether it was 0 before, which ends the loop.
unfoldable pub exchange_word : ℕ → ℕ × Bool
exchange_word word = if word == 0 then (1, true) else (word, false)

unfoldable pub mutex_unlock : ℕ → ℕ
mutex_unlock word = 0

pub data Phase : Type 0 where
  outside : Phase
  spinning : Phase
  inside : Phase

pub record Locked : Type 0 where
  pub word : ℕ
  pub phase : ℕ → Phase

abbrev pub move : ℕ → Phase → (ℕ → Phase) → ℕ → Phase
move i p phase j = if i == j then p else phase j

-- A thread calls `Mutex_lock`, goes through its loop once, and calls `Mutex_unlock`, which does not ask
-- whether the thread has the lock.
pub data Step : Locked → Locked → Type 0 where
  call :
      {s : Locked} (i : ℕ)
      → s.phase i ≡ outside
      → Step s (record s { phase = move i spinning s.phase })
  round :
      {s : Locked} (i : ℕ)
      → s.phase i ≡ spinning
      → Step s (record {
        word = (exchange_word s.word).0;
        phase = move i (if (exchange_word s.word).1 then inside else spinning) s.phase;
      })
  release :
      {s : Locked} (i : ℕ)
      → s.phase i ≢ spinning
      → Step s (record { word = mutex_unlock s.word; phase = move i outside s.phase })

pub data Reach : Locked → Locked → Type 0 where
  here : {s : Locked} → Reach s s
  next : {s t u : Locked} → Reach s t → Step t u → Reach s u

-- A release by a thread that has the lock, and a run in which each release is one.
abbrev pub IsOwn : {s t : Locked} → Step s t → Type 0
IsOwn (call i out) = Unit {0}
IsOwn (round i spins) = Unit {0}
IsOwn (release {s} i free_of) = s.phase i ≡ inside

abbrev pub IsFair : {s t : Locked} → Reach s t → Type 0
IsFair here = Unit {0}
IsFair (next before step) = IsFair before × IsOwn step

-- A free lock, as `newmutex` makes it, with no thread about it.
abbrev pub free : Locked
free = record { word = 0; phase = λ i. outside }
