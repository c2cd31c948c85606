-- ===== src/Tests/System.antt =====
-- The operating system layer (`platform/osal/posix_src/osal.c`) at concrete inputs.
use empirical_zero_knowledge.Prelude.{
  ℕ, ◌+◌, ◌*◌, ◌<◌, ◌≤◌, ◌≡◌, refl, true, Option, none, some, List, [], ◌∷◌, length, get_or, arith,
}
use empirical_zero_knowledge.Osal.Clock.{
  seconds_per_day, is_leap_year, days_per_month, seconds_of_year, find_year, find_month, count_off,
  Stamp, unixtime_to_cstr,
}
use empirical_zero_knowledge.Osal.Clock.Fields.{days_before, IsTime, seconds_of_years}
use empirical_zero_knowledge.Osal.Clock.Years.{unixtime_to_cstr-IsTime, unixtime_to_cstr-none}
use empirical_zero_knowledge.Osal.Mutex
use empirical_zero_knowledge.Osal.Mutex.{
  Locked, outside, spinning, inside, move, exchange_word, mutex_unlock,
}
use empirical_zero_knowledge.Osal.Mutex.Exclusion.{IsExclusive, Reach-IsExclusive}
use empirical_zero_knowledge.Osal.Semaphore
use empirical_zero_knowledge.Osal.Semaphore.{semaphore_new, take_one, System}
use empirical_zero_knowledge.Osal.Semaphore.Count.{Reach-Balanced}
use empirical_zero_knowledge.Osal.{fd_lookup}
use empirical_zero_knowledge.Osal.Descriptors.{given, stands_for}
use empirical_zero_knowledge.Osal.Files.{Kind, file, listener, client, kind_of, arrived, nobody}
use empirical_zero_knowledge.Osal.Files.Session.{
  Operation, open_op, close_op, accept_op, session, effects, effect, answer_to, first_client,
  lookup-session,
}
use empirical_zero_knowledge.Osal.Threads.{get_thread_id}
use empirical_zero_knowledge.Osal.Threads.Names.{new_call, table, get_thread_id-table}

unixtime_to_cstr-IsTime_example :
    (month : ℕ) × (r : ℕ) × (hour : ℕ) × (stamp : Stamp) × (unixtime_to_cstr
        (seconds_of_years 1970 45 + 1000000)
        2
      ≡ some stamp)
    × (month < 12)
    × (◌≡◌ {A = ℕ} 1000000 (days_before days_per_month month * seconds_per_day + r))
    × IsTime 2015 month (get_or days_per_month month 0) 2 r hour stamp
unixtime_to_cstr-IsTime_example =
    unixtime_to_cstr-IsTime 45 1000000 2 (omega arith) (unfold is_leap_year in refl) (omega arith)

unixtime_to_cstr-none_example : unixtime_to_cstr (seconds_of_years 1970 46 + 7780000) 2 ≡ none
unixtime_to_cstr-none_example =
    unixtime_to_cstr-none 46 7780000 2 (omega arith) (unfold is_leap_year in refl) (omega arith)
      (omega arith)

-- The first second of 15 January 2015 is the last minute of the day before.
midnight :
    unixtime_to_cstr 1421280000 0
    ≡ some (record { year = 2015; month = 1; day = 14; hour = 23; minute = 59; second = 60 })
unfolding unixtime_to_cstr count_off find_month find_year seconds_of_year is_leap_year
midnight = refl

-- One thread has the lock and another spins.
abbrev held : Locked
held = record { word = 1; phase = move 7 inside (move 7 spinning (λ i. outside)) }

-- The lock was released and taken again.
abbrev released : Locked
released = record { word = 1; phase = move 7 inside (move 7 spinning (move 7 outside held.phase)) }

Reach-IsExclusive_example : IsExclusive released
unfolding exchange_word mutex_unlock
Reach-IsExclusive_example =
    Reach-IsExclusive
      (Mutex.next
        (Mutex.next
          (Mutex.next (Mutex.next (Mutex.next Mutex.here (Mutex.call 7 refl)) (Mutex.round 7 refl))
            (Mutex.release {s = held} 7 (λ e. cc)))
          (Mutex.call 7 refl))
        (Mutex.round 7 refl))
      (((((tt, tt), tt), refl), tt), tt)

abbrev passed_one : System
passed_one = record {
  sem = record { count = 1; alive = true };
  entered = 0;
  waiting = 0;
  passed = 1;
  left = 0;
  ups = 0;
}

Reach-Balanced_example :
    (passed_one.sem.count + passed_one.passed ≡ 2 + passed_one.ups)
    × (passed_one.passed ≤ 2 + passed_one.ups)
unfolding take_one semaphore_new
Reach-Balanced_example =
    Reach-Balanced 2
      (Semaphore.next (Semaphore.next Semaphore.here (Semaphore.enter refl))
        (Semaphore.take_first refl refl))
      (omega arith)

abbrev one_two : List ℕ
one_two = 1 ∷ 2 ∷ []

abbrev one_three : List ℕ
one_three = 1 ∷ 3 ∷ []

-- Files are opened, sockets are not.
abbrev files_only : Kind → List ℕ → Option ℕ
files_only file path = some (10 + length path)
files_only listener port = none
files_only client address = none

abbrev operations : List Operation
operations =
    open_op files_only (105 ∷ 112 ∷ 32 ∷ 49 ∷ [])
    ∷ close_op 1
    ∷ accept_op 1 (nobody ∷ arrived 30 ∷ [])
    ∷ open_op files_only (102 ∷ 105 ∷ 108 ∷ 101 ∷ 32 ∷ 97 ∷ [])
    ∷ []

lookup-session_example :
    fd_lookup (session operations).entries 2 ≡ stands_for (effects operations) 2
unfolding given effects effect answer_to kind_of stands_for first_client
lookup-session_example = lookup-session operations 2 (omega arith)

second_client : stands_for (effects operations) 2 ≡ some 30
unfolding given effects effect answer_to kind_of stands_for first_client
second_client = refl

get_thread_id-table_example :
    get_thread_id 5 (table (new_call (some 5) ∷ new_call (some 4) ∷ [])) ≡ 0
get_thread_id-table_example =
    get_thread_id-table (new_call (some 5) ∷ new_call (some 4) ∷ []) 5 (omega arith)
