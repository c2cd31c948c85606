-- ===== src/Osal/Threads.antt =====
-- The table of threads (`platform/osal/posix_src/osal.c`): newthread, jointhread, number_of_threads and
-- get_thread_id, over the map with integer keys. A thread of the system is a pointer, given by a
-- number, which is not 0; `pthread_equal` is equality. Each part under the lock is done at once.
pub mod Names
use empirical_zero_knowledge.Prelude.{
  ℕ, zero, suc, ◌+◌, Bool, true, false, Option, none, some, List, ◌==◌, if◌then◌else◌, u32,
}
use empirical_zero_knowledge.IntKeyMap
use empirical_zero_knowledge.IntKeyMap.{Entry}

pub record ThreadTable : Type 0 where
  pub idpool : ℕ
  pub threads : List (List Entry)

-- Before any thread is made.
abbrev pub no_threads : ThreadTable
no_threads = record { idpool = 0xBABE0000; threads = IntKeyMap.new }

-- `none` where the system makes no thread. The table and `*ptid`.
unfoldable pub newthread : Option ℕ → ThreadTable → ThreadTable × Option ℕ
newthread none t = (t, none)
newthread (some thread) t = (
  record { idpool = u32 (t.idpool + 1); threads = IntKeyMap.put t.idpool thread t.threads },
  some t.idpool,
)

-- The table, and whether the thread was found and joined.
unfoldable pub jointhread : ℕ → ThreadTable → ThreadTable × Bool
jointhread tid t =
    if IntKeyMap.get tid t.threads == 0
    then (t, false)
    else (record t { threads = (IntKeyMap.rem tid t.threads).1 }, true)

unfoldable pub number_of_threads : ThreadTable → ℕ
number_of_threads t = u32 (IntKeyMap.size t.threads + 1)

-- The loop over `i`, with so many rounds to go; 0 is the main thread.
unfoldable pub find_thread : ℕ → ℕ → ℕ → List (List Entry) → ℕ
find_thread zero i self threads = 0
find_thread (suc k) i self threads =
    let rest = find_thread k (i + 1) self threads in
    let cur = IntKeyMap.get i threads in if cur == 0 then rest else if cur == self then i else rest

unfoldable pub get_thread_id : ℕ → ThreadTable → ℕ
unfolding find_thread
get_thread_id self t = find_thread (IntKeyMap.size t.threads) 0 self t.threads
