-- ===== src/Arena/Peers.antt =====
-- How an arena gets its peers (`common/carena/src/carena.c`): `connect` on one side opens two
-- connections, and the listener thread on the other side makes one peer of the two. A peer stands by
-- its two connections, a connection listener by its address, which is not 0.
pub mod Joining
pub mod Listeners
use empirical_zero_knowledge.Prelude.{
  ℕ, zero, suc, ◌+◌, ◌-◌, ◌^◌, Bool, true, false, Option, none, some, List, [], ◌∷◌, ◌++◌, length,
  get_elem?, set, ltb, ◌==◌, if◌then◌else◌, u32,
}
use empirical_zero_knowledge.Encoding.Integer.{i2b, b2i}
use empirical_zero_knowledge.LinkedList.Runs.{without}
use empirical_zero_knowledge.Arena.{copy_to}

pub record Ends : Type 0 where
  pub fd_in : ℕ
  pub fd_out : ℕ

-- `none` is a null pointer in the list of peers.
pub record CArena : Type 0 where
  pub peers : List (Option Ends)
  pub conn_obs : List ℕ
  pub running : Bool

unfoldable pub new : CArena
new = record { peers = []; conn_obs = []; running = true }

-- The bytes that `send_int` writes, if the write succeeds.
unfoldable pub send_int : ℕ → List ℕ
unfolding i2b
send_int i = i2b i

-- The loop of `read_int`: the outcomes of the reads are given, `none` for a failure. Each read stores
-- its bytes from `d[0]` on. Where the reads do not suffice, it still waits.
unfoldable pub read_int_loop : List (Option (List ℕ)) → List ℕ → ℕ → Option ℕ
unfolding b2i copy_to
read_int_loop [] d sofar = if ltb sofar 4 then none else b2i d
read_int_loop (none ∷ reads) d sofar = if ltb sofar 4 then some 0 else b2i d
read_int_loop (some bytes ∷ reads) d sofar =
    let rest = read_int_loop reads (copy_to d 0 bytes) (u32 (sofar + length bytes)) in
    if ltb sofar 4 then rest else b2i d

unfoldable pub read_int : List (Option (List ℕ)) → Option ℕ
unfolding read_int_loop
read_int reads = read_int_loop reads (0 ∷ 0 ∷ 0 ∷ 0 ∷ []) 0

-- `size() + 1 > pid` is tested, not `size() > pid`; the list gives null behind its end.
unfoldable pub entry_at : List (Option Ends) → ℕ → Option Ends
entry_at ps i = elim (get_elem? ps i) [ none ↦ none | some e ↦ e ]

unfoldable pub get_peer : CArena → ℕ → Option Ends
unfolding entry_at
get_peer a pid = if ltb pid (u32 (length a.peers + 1)) then entry_at a.peers pid else none

unfoldable pub get_no_peers : CArena → ℕ
get_no_peers a = length a.peers

-- What a client that connects sees, and which listeners are told of the peer at which index.
pub data Answer : Type 0 where
  accept_failed : Answer
  given_id : ℕ → Answer
  connected : ℕ → List ℕ → Answer
  closed : Answer
  ignored : Answer

-- A first connection: the client is given the index of its new peer. `made` says whether
-- `MpcPeerImpl_new` succeeds.
unfoldable pub first_connection : CArena → Bool → ℕ → CArena × Answer
first_connection a made client_fd =
    let peer = if made then some (record { fd_in = client_fd; fd_out = 0 }) else none in
    (record a { peers = a.peers ++ peer ∷ [] }, given_id (length a.peers))

unfoldable pub second_connection : CArena → ℕ → ℕ → CArena × Answer
unfolding entry_at
second_connection a client_fd peer_id = elim (entry_at a.peers peer_id) [
  | none ↦ (a, closed)
  | some e ↦ (
    record a { peers = set a.peers peer_id (some (record e { fd_out = client_fd })) },
    connected peer_id a.conn_obs,
  )
]

-- One round of `carena_listener_thread`, with the connection that `accept` gives, 0 for none, and the
-- number that is read from it.
unfoldable pub accept_client : CArena → Bool → ℕ → ℕ → CArena × Answer
unfolding first_connection second_connection
accept_client a made client_fd peer_id =
    if client_fd == 0
    then (record a { running = false }, accept_failed)
    else if peer_id == 1024
    then first_connection a made client_fd
    else if ltb peer_id 1024
    then second_connection a client_fd peer_id
    else (a, ignored)

-- What `connect` returns, and the listeners that it tells.
pub data Connected : Type 0 where
  no_conn : Connected
  connected_to : Ends → List ℕ → Connected

-- `connect`, by the connections that the two calls of `open` give.
unfoldable pub connect : CArena → Option ℕ → Option ℕ → Bool → CArena × Connected
connect a none second made = (a, no_conn)
connect a (some fd_out) none made = (a, no_conn)
connect a (some fd_out) (some fd_in) false = (a, no_conn)
connect a (some fd_out) (some fd_in) true =
    let ends : Ends = record { fd_in = fd_in; fd_out = fd_out } in
    (record a { peers = a.peers ++ some ends ∷ [] }, connected_to ends a.conn_obs)

-- What comes to the listener thread: whether a peer can be made, the connection, and its number.
pub record Arrival : Type 0 where
  pub made : Bool
  pub client_fd : ℕ
  pub peer_id : ℕ

-- The loop of the thread: after an accept that fails it has ended, and takes no more connections.
unfoldable pub accept_all : List Arrival → CArena → CArena
unfolding accept_client
accept_all [] a = a
accept_all (x ∷ xs) a =
    let rest = accept_all xs (accept_client a x.made x.client_fd x.peer_id).0 in
    if a.running then rest else a

unfoldable pub add_conn_listener : ℕ → CArena → CArena
add_conn_listener l a = if l == 0 then a else record a { conn_obs = a.conn_obs ++ l ∷ [] }

-- The loop of `rem_conn_listener` finds the last index at which `l` stands.
unfoldable pub dead_index : ℕ → List ℕ → ℕ → Option ℕ → Option ℕ
dead_index l [] i found = found
dead_index l (o ∷ os) i found = dead_index l os (i + 1) (if l == o then some i else found)

unfoldable pub rem_conn_listener : ℕ → CArena → CArena
unfolding dead_index without
rem_conn_listener l a = if l == 0 then a else elim (dead_index l a.conn_obs 0 none) [
  | none ↦ a
  | some i ↦ record a { conn_obs = without i a.conn_obs }
]

-- The listener of `listen_wait`: `hold` is locked until the count is 0.
pub record DefaultListener : Type 0 where
  pub count : ℕ
  pub hold : Bool

unfoldable pub new_listener : ℕ → DefaultListener
new_listener count = record { count = count; hold = true }

-- The test `c <= 0` is on an unsigned number.
unfoldable pub client_connected : DefaultListener → DefaultListener
client_connected l =
    let c = u32 (l.count + 2 ^ 32 - 1) in
    if c == 0 then record { count = c; hold = false } else record l { count = c }
