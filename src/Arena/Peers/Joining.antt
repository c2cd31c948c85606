-- ===== src/Arena/Peers/Joining.antt =====
-- Two connections of a client become one peer (`common/carena/src/carena.c`).
use empirical_zero_knowledge.Prelude.{
  ℕ, zero, suc, ◌+◌, ◌^◌, ◌<◌, ◌≤◌, ◌≡◌, ◌≢◌, refl, sym, if◌then◌else◌, ◌∙◌, Bool, true, false,
  Bool-cases, inl, inr, Option, none, some, List, [], ◌∷◌, ◌++◌, length, set, All, ltb, ◌==◌, u32,
  arith, length-append, length-set, get_elem?-set_ne,
}
use mathlib.Core.Path.{subst}
use empirical_zero_knowledge.Arena.Peers.{
  Ends, CArena, entry_at, get_peer, given_id, connected, first_connection, second_connection,
  accept_client, Arrival, accept_all,
}

entry_at-append :
    (ps : List (Option Ends)) (p : Option Ends) (i : ℕ) {e : Ends}
    → entry_at ps i ≡ some e
    → entry_at (ps ++ p ∷ []) i ≡ some e
unfolding entry_at
entry_at-append [] p i h = cc
entry_at-append (x ∷ ps) p zero h = h
entry_at-append (x ∷ ps) p (suc i) h = entry_at-append ps p i h

entry_at-last :
    (ps : List (Option Ends)) (p : Option Ends) → entry_at (ps ++ p ∷ []) (length ps) ≡ p
unfolding entry_at
entry_at-last [] none = refl
entry_at-last [] (some e) = refl
entry_at-last (x ∷ ps) p = entry_at-last ps p

entry_at-set_ne :
    (ps : List (Option Ends)) (i j : ℕ) (p : Option Ends)
    → i ≢ j
    → entry_at (set ps i p) j ≡ entry_at ps j
unfolding entry_at
entry_at-set_ne ps i j p apart = ground (arith, get_elem?-set_ne ps i j p)

entry_at-set_self :
    (ps : List (Option Ends)) (i : ℕ) (p : Ends) {e : Ends}
    → entry_at ps i ≡ some e
    → entry_at (set ps i (some p)) i ≡ some p
unfolding entry_at
entry_at-set_self [] i p h = cc
entry_at-set_self (x ∷ ps) zero p h = refl
entry_at-set_self (x ∷ ps) (suc i) p h = entry_at-set_self ps i p h

abbrev Kept : CArena → CArena → ℕ → Ends → Type 0
Kept a b i e =
    (entry_at b.peers i ≡ some e) × (length b.peers ≤ length a.peers + 1) × (b.running ≡ a.running)

first_connection-Kept :
    (a : CArena) (made : Bool) (fd i : ℕ) {e : Ends}
    → entry_at a.peers i ≡ some e
    → Kept a (first_connection a made fd).0 i e
unfolding first_connection
first_connection-Kept a true fd i there =
    let p : Option Ends = some (record { fd_in = fd; fd_out = 0 }) in
    (entry_at-append a.peers p i there, omega (arith, length-append a.peers (p ∷ [])), refl)
first_connection-Kept a false fd i there =
    (entry_at-append a.peers none i there, omega (arith, length-append a.peers (none ∷ [])), refl)

second_connection-Kept :
    (a : CArena) (fd id i : ℕ) {e : Ends}
    → id ≢ i
    → entry_at a.peers i ≡ some e
    → Kept a (second_connection a fd id).0 i e
unfolding second_connection
second_connection-Kept a fd id i {e} apart there = by_entry (entry_at a.peers id) refl
  where
    by_entry :
        (o : Option Ends) → entry_at a.peers id ≡ o → Kept a (second_connection a fd id).0 i e
    by_entry none h = rw (h, second_connection) (there, omega arith, refl)
    by_entry (some old) h =
        let new : Ends = record old { fd_out = fd } in
        rw (h, second_connection)
          (
            entry_at-set_ne a.peers id i (some new) apart ∙ there,
            omega (arith, length-set a.peers id (some new)),
            refl,
          )

-- A client that is not given the number of a peer leaves that peer alone.
accept_client-Kept :
    (a : CArena) (made : Bool) (fd id i : ℕ) {e : Ends}
    → id ≢ i
    → 0 < fd
    → entry_at a.peers i ≡ some e
    → Kept a (accept_client a made fd id).0 i e
unfolding accept_client
accept_client-Kept a made fd id i {e} apart pos there = elim (Bool-cases (fd == 0)) [
  | inl no_client ↦ ground arith
  | inr client ↦ rw client (elim (Bool-cases (id == 1024)) [
    | inl is_new ↦ rw is_new (first_connection-Kept a made fd i there)
    | inr is_old ↦ rw is_old (elim (Bool-cases (ltb id 1024)) [
      | inl known ↦ rw known (second_connection-Kept a fd id i apart there)
      | inr unknown ↦ rw unknown (there, omega arith, refl)
    ])
  ])
]

abbrev pub Spares : ℕ → List Arrival → Type 0
Spares i others = All (λ (x : Arrival). (x.peer_id ≢ i) × (0 < x.client_fd)) others

goes_on : (b : Bool) (x y : CArena) → b ≡ true → (if b then x else y) ≡ x
goes_on true x y h = refl
goes_on false x y h = cc

accept_all-Kept :
    (others : List Arrival) (a : CArena) (i : ℕ) {e : Ends}
    → Spares i others
    → a.running ≡ true
    → entry_at a.peers i ≡ some e
    → (entry_at (accept_all others a).peers i ≡ some e)
      × (length (accept_all others a).peers ≤ length a.peers + length others)
      × ((accept_all others a).running ≡ true)
unfolding accept_all
accept_all-Kept [] a i spared on there = (there, omega arith, on)
accept_all-Kept (x ∷ others) a i {e} spared on there =
    let one = accept_client-Kept a x.made x.client_fd x.peer_id i spared.0.0 spared.0.1 there in
    let rest =
      accept_all-Kept others (accept_client a x.made x.client_fd x.peer_id).0 i spared.1
        (one.2 ∙ on) one.0 in
    subst
      (λ (b : CArena).
        (entry_at b.peers i ≡ some e)
        × (length b.peers ≤ length a.peers + length (x ∷ others))
        × (b.running ≡ true))
      (sym (goes_on a.running _ a on)) (rest.0, omega (arith, rest.1, one.1), rest.2)

new_client :
    (a : CArena) (fd : ℕ) → 0 < fd → accept_client a true fd 1024 ≡ first_connection a true fd
unfolding accept_client
new_client a fd pos = let test : (fd == 0) ≡ false = ground arith in rw test refl

old_client :
    (a : CArena) (made : Bool) (fd id : ℕ)
    → 0 < fd
    → id < 1024
    → accept_client a made fd id ≡ second_connection a fd id
unfolding accept_client
old_client a made fd id pos small =
    let test : (fd == 0) ≡ false = ground arith in
    let no_request : (id == 1024) ≡ false = ground arith in
    let known : ltb id 1024 ≡ true = ground arith in rw test (rw no_request (rw known refl))

entry_at-below :
    (ps : List (Option Ends)) (i : ℕ) {e : Ends} → entry_at ps i ≡ some e → i < length ps
unfolding entry_at
entry_at-below [] i h = absurd (cc)
entry_at-below (x ∷ ps) zero h = omega arith
entry_at-below (x ∷ ps) (suc i) h = omega (arith, entry_at-below ps i h)

second_connection_lem :
    (a : CArena) (fd id : ℕ) {e : Ends}
    → entry_at a.peers id ≡ some e
    → length a.peers + 1 < 2 ^ 32
    → ((second_connection a fd id).1 ≡ connected id a.conn_obs)
      × (get_peer (second_connection a fd id).0 id ≡ some (record { fd_in = e.fd_in; fd_out = fd }))
unfolding second_connection get_peer
second_connection_lem a fd id {e} there small =
    let new : Ends = record { fd_in = e.fd_in; fd_out = fd } in
    let inside : ltb id (u32 (length (set a.peers id (some new)) + 1)) ≡ true =
      ground (arith, entry_at-below a.peers id there, length-set a.peers id (some new)) in
    rw (there, second_connection)
      (refl, rw (inside, get_peer) (entry_at-set_self a.peers id new there))

first_lem :
    (a : CArena) (fd : ℕ)
    → ((first_connection a true fd).1 ≡ given_id (length a.peers))
      × (entry_at (first_connection a true fd).0.peers (length a.peers)
          ≡ some (record { fd_in = fd; fd_out = 0 }))
      × (length (first_connection a true fd).0.peers ≡ length a.peers + 1)
      × ((first_connection a true fd).0.running ≡ a.running)
unfolding first_connection
first_lem a fd =
    let p : Option Ends = some (record { fd_in = fd; fd_out = 0 }) in
    (refl, entry_at-last a.peers p, omega (arith, length-append a.peers (p ∷ [])), refl)

-- In an arena of fewer than 1024 peers whose listener thread runs, a first connection, then fewer than
-- `2 ^ 31` arrivals of other clients, with no accept that fails, that do not give the number that this
-- client is given, and then a second connection that gives it, make one peer: the thread still runs
-- when the second connection comes, the peer is found under this number, receives on the first
-- connection and sends on the second, and the listeners are told of it.
pub accept_client-joins :
    (a : CArena) (others : List Arrival) (first second : ℕ) (made : Bool)
    → a.running ≡ true
    → length a.peers < 1024
    → length others < 2 ^ 31
    → Spares (length a.peers) others
    → 0 < first
    → 0 < second
    → let id = length a.peers in
      let (asked, answer) = accept_client a true first 1024 in
      let before = accept_all others asked in
      let (after, told) = accept_client before made second id in
      (answer ≡ given_id id)
      × (before.running ≡ true)
      × (told ≡ connected id before.conn_obs)
      × (get_peer after id ≡ some (record { fd_in = first; fd_out = second }))
accept_client-joins a others first second made on few short spared pos_first pos_second =
    let id = length a.peers in
    let asked = (first_connection a true first).0 in
    let start = first_lem a first in
    let kept = accept_all-Kept others asked id spared (start.3 ∙ on) start.1 in
    let before = accept_all others asked in
    let joined = second_connection_lem before second id kept.0 (omega (arith, kept.1, start.2)) in
    rw (new_client a first pos_first)
      (rw (old_client before made second id pos_second few) (start.0, kept.2, joined.0, joined.1))
