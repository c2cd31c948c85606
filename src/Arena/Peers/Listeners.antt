-- ===== src/Arena/Peers/Listeners.antt =====
-- The listeners of an arena, and the one that `listen_wait` waits on (`common/carena/src/carena.c`).
use empirical_zero_knowledge.Prelude.{
  ℕ, zero, suc, ◌+◌, ◌-◌, ◌^◌, ◌<◌, ◌≡◌, refl, ap, ◌∙◌, Bool, true, false, Option, none, some, List,
  [], ◌∷◌, ◌++◌, length, ltb, ◌==◌, if◌then◌else◌, u32, arith, ==_refl,
}
use native.Mathlib.Decide.{dec_lt}
use empirical_zero_knowledge.LinkedList.Runs.{without}
use empirical_zero_knowledge.Arena.Peers.{
  CArena, add_conn_listener, dead_index, rem_conn_listener, DefaultListener, new_listener,
  client_connected,
}

-- `n` peers connect, one after the other.
pub clients : ℕ → DefaultListener → DefaultListener
clients zero l = l
clients (suc n) l = client_connected (clients n l)

dead_index-last :
    (l : ℕ) (os : List ℕ) (i : ℕ) (found : Option ℕ)
    → dead_index l (os ++ l ∷ []) i found ≡ some (length os + i)
unfolding dead_index
dead_index-last l [] i found = rw (==_refl l) (ap some (omega arith))
dead_index-last l (o ∷ os) i found =
    dead_index-last l os (i + 1) (if l == o then some i else found) ∙ ap some (omega arith)

without-last : (l : ℕ) (os : List ℕ) → without (length os + 0) (os ++ l ∷ []) ≡ os
unfolding without
without-last l [] = refl
without-last l (o ∷ os) =
    let above : suc (length os) + 0 ≡ suc (length os + 0) = omega arith in
    rw above (ap (λ r. o ∷ r) (without-last l os))

-- A listener that is added and removed again, as `listen_wait` does, leaves the arena as it was, also
-- where the same listener was added before.
pub rem_conn_listener-add_conn_listener :
    (l : ℕ) (a : CArena) → rem_conn_listener l (add_conn_listener l a) ≡ a
unfolding rem_conn_listener add_conn_listener
rem_conn_listener-add_conn_listener l a =
    ground (arith, dead_index-last l a.conn_obs 0 none, without-last l a.conn_obs)

abbrev hold_of : DefaultListener → Bool
hold_of l = l.hold

one_less :
    (c : ℕ)
    → 1 < c
    → c < 2 ^ 32
    → client_connected (record { count = c; hold = true }) ≡ record { count = c - 1; hold = true }
unfolding client_connected
one_less c more small =
    let value : u32 (c + 2 ^ 32 - 1) ≡ c - 1 = omega arith in
    let test : (u32 (c + 2 ^ 32 - 1) == 0) ≡ false = ground arith in
    rw test (ap (λ k. record { count = k; hold = true }) value)

counted :
    (count n : ℕ)
    → 0 < count
    → count < 2 ^ 32
    → n < count
    → clients n (new_listener count) ≡ record { count = count - n; hold = true }
unfolding clients new_listener
counted count zero pos small below = ap (λ c. record { count = c; hold = true }) (omega arith)
counted count (suc n) pos small below =
    ap client_connected (counted count n pos small (omega arith))
    ∙ one_less (count - n) (omega arith) (omega arith)
    ∙ ap (λ c. record { count = c; hold = true }) (omega arith)

stays_open : (l : DefaultListener) → l.hold ≡ false → (client_connected l).hold ≡ false
unfolding client_connected
stays_open l h = ground arith

opens : (h : Bool) → (client_connected (record { count = 1; hold = h })).hold ≡ false
unfolding client_connected
opens h = refl

-- `listen_wait` for a number of peers below `2 ^ 32` that is not 0 is held exactly as long as fewer
-- peers have connected.
pub clients-hold :
    (count n : ℕ) → 0 < count → count < 2 ^ 32 → (clients n (new_listener count)).hold ≡ ltb n count
unfolding clients
clients-hold count zero pos small = ap hold_of (counted count zero pos small pos) ∙ ground arith
clients-hold count (suc n) pos small = elim (dec_lt (suc n) count) [
  | yes below ↦
      let test : true ≡ ltb (suc n) count = ground arith in
      ap hold_of (counted count (suc n) pos small below) ∙ test
  | no above ↦
      let test : false ≡ ltb (suc n) count = ground arith in
      elim (dec_lt n count) [
        | yes last ↦
            let one : count - n ≡ 1 = omega arith in
            ap (λ l. hold_of (client_connected l)) (counted count n pos small last)
            ∙ ap (λ c. hold_of (client_connected (record { count = c; hold = true }))) one
            ∙ opens true
            ∙ test
        | no past ↦
            stays_open (clients n (new_listener count))
              (clients-hold count n pos small ∙ ground arith)
            ∙ test
      ]
]
