-- ===== src/Osal/Threads/Names.antt =====
-- What `get_thread_id` finds (`platform/osal/posix_src/osal.c`).
use empirical_zero_knowledge.Prelude.{
  ℕ, zero, suc, ◌+◌, ◌^◌, ◌<◌, ◌≤◌, ◌≡◌, refl, ap, ◌∙◌, Bool-cases, inl, inr, Option, none, some,
  List, [], ◌∷◌, ◌==◌, length, u32, arith,
}
use empirical_zero_knowledge.IntKeyMap
use empirical_zero_knowledge.IntKeyMap.{Entry}
use empirical_zero_knowledge.IntKeyMap.History.{
  Call as MapCall, put_call, rem_call, map_after, found, or_zero, get-map_after, length-map_after,
}
use empirical_zero_knowledge.IntKeyMap.Size.{size-put, size-rem}
use empirical_zero_knowledge.Osal.Threads.{
  ThreadTable, no_threads, newthread, jointhread, find_thread, get_thread_id,
}

pub data Call : Type 0 where
  new_call : Option ℕ → Call
  join_call : ℕ → Call

unfoldable pub perform : Call → ThreadTable → ThreadTable
perform (new_call thread) t = (newthread thread t).0
perform (join_call tid) t = (jointhread tid t).0

-- The table after some calls, the last of them first.
unfoldable pub table : List Call → ThreadTable
table [] = no_threads
table (call ∷ calls) = perform call (table calls)

-- The map of the table is the one after some puts and removals, of keys from 0xBABE0000 on, as many at most as calls.
record IsNamed (n : ℕ) (t : ThreadTable) : Type 0 where
  history : List MapCall
  is_map : t.threads ≡ map_after history
  none_below : (j : ℕ) → j < 0xBABE0000 → found history j ≡ none
  few : IntKeyMap.size t.threads ≤ n
  pool : (0xBABE0000 ≤ t.idpool) × (t.idpool ≤ 0xBABE0000 + n)

IsNamed-new :
    (n thread : ℕ) (t : ThreadTable)
    → 0xBABE0000 + n + 1 < 2 ^ 32
    → IsNamed n t
    → IsNamed (suc n) (newthread (some thread) t).0
unfolding newthread found
IsNamed-new n thread t fits named =
    let width = ap length named.is_map ∙ length-map_after named.history in
    let pool = named.pool in
    let few = named.few in
    record {
      history = put_call t.idpool thread ∷ named.history;
      is_map = ap (IntKeyMap.put t.idpool thread) named.is_map ∙ unfold map_after in refl;
      none_below = λ j low. let before = named.none_below j low in ground (arith, before);
      few = omega (arith, size-put t.idpool thread t.threads width);
      pool = (omega arith, omega arith);
    }

IsNamed-more : (n : ℕ) (t : ThreadTable) → IsNamed n t → IsNamed (suc n) t
IsNamed-more n t named =
    let pool = named.pool in
    let few = named.few in
    record {
      history = named.history;
      is_map = named.is_map;
      none_below = named.none_below;
      few = omega arith;
      pool = (pool.0, omega arith);
    }

IsNamed-join : (n tid : ℕ) (t : ThreadTable) → IsNamed n t → IsNamed (suc n) (jointhread tid t).0
unfolding jointhread found
IsNamed-join n tid t named = elim (Bool-cases (IntKeyMap.get tid t.threads == 0)) [
  | inl absent ↦ rw absent (IsNamed-more n t named)
  | inr there ↦
      let width = ap length named.is_map ∙ length-map_after named.history in
      let pool = named.pool in
      let few = named.few in
      rw there (record {
        history = rem_call tid ∷ named.history;
        is_map = ap (λ m. (IntKeyMap.rem tid m).1) named.is_map ∙ unfold map_after in refl;
        none_below = λ j low. let before = named.none_below j low in ground (arith, before);
        few = omega (arith, size-rem tid t.threads width);
        pool = (pool.0, omega arith);
      })
]

table-IsNamed :
    (calls : List Call) → 0xBABE0000 + length calls < 2 ^ 32 → IsNamed (length calls) (table calls)
unfolding table perform newthread
table-IsNamed [] fits = record {
  history = [];
  is_map = unfold map_after in refl;
  none_below = λ j low. unfold found in refl;
  few = unfold IntKeyMap.size IntKeyMap.new in (omega arith);
  pool = (omega arith, omega arith);
}
table-IsNamed (new_call none ∷ calls) fits =
    IsNamed-more (length calls) (table calls) (table-IsNamed calls (omega arith))
table-IsNamed (new_call (some thread) ∷ calls) fits =
    IsNamed-new (length calls) thread (table calls) (omega arith)
      (table-IsNamed calls (omega arith))
table-IsNamed (join_call tid ∷ calls) fits =
    IsNamed-join (length calls) tid (table calls) (table-IsNamed calls (omega arith))

-- No key below the first name is found.
find_thread_none :
    (k i self : ℕ) (threads : List (List Entry))
    → ((j : ℕ) → j < 0xBABE0000 → IntKeyMap.get j threads ≡ 0)
    → i + k ≤ 0xBABE0000
    → find_thread k i self threads ≡ 0
unfolding find_thread
find_thread_none zero i self threads none_below low = refl
find_thread_none (suc k) i self threads none_below low =
    let absent = none_below i (omega arith) in
    rw absent (find_thread_none k (i + 1) self threads none_below (omega arith))

-- After any calls of newthread and jointhread, fewer than 2 ^ 30, get_thread_id returns 0 for every
-- thread, as for the main thread: it looks for the numbers from 0 on, and the threads have names from
-- 0xBABE0000 on.
pub get_thread_id-table :
    (calls : List Call) (self : ℕ) → length calls < 2 ^ 30 → get_thread_id self (table calls) ≡ 0
unfolding get_thread_id
get_thread_id-table calls self few =
    let named = table-IsNamed calls (omega arith) in
    let most = named.few in
    find_thread_none (IntKeyMap.size (table calls).threads) 0 self (table calls).threads
      (λ j low.
        ap (IntKeyMap.get j) named.is_map
        ∙ (get-map_after named.history j).0
        ∙ ap or_zero (named.none_below (u32 j) (omega arith)))
      (omega arith)
