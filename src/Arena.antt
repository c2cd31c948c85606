-- ===== src/Arena.antt =====
-- A peer of the multi-party arena (`common/carena/src/carena.c`). Two threads move data packages
-- between the queues of the peer and its connections; the client calls `send` and `receive`. A package
-- is the list of its bytes. The queues are lists in the order of `put` (module Queue is about them).
pub mod Chunks
pub mod Stream
pub mod Threads
pub mod Frames
pub mod Channel
pub mod Peers
use empirical_zero_knowledge.Prelude.{
  ℕ, zero, suc, ◌+◌, ◌-◌, Bool, true, false, ◌||◌, Option, none, some, List, [], ◌∷◌, ◌++◌, length,
  take, drop, ltb, leb, if◌then◌else◌, u32,
}

-- What the client's calls use of `MpcPeerImpl`. `get` of the incoming queue gives null, here `none`,
-- when the queue was destroyed or when null was put.
pub record Peer : Type 0 where
  pub incoming : List (Option (List ℕ))
  pub outgoing : List (List ℕ)
  pub drem : Option (List ℕ)
  pub die : Bool

-- `receive` returns with its buffer filled, it waits in `get` with `ldata` bytes taken so far, it fails
-- with NO_MEM, it fails as the peer has no incoming queue, or, where the client gives no buffer, it
-- returns a message with the code of success.
pub data Received : Type 0 where
  filled : List ℕ → Peer → Received
  waiting : List ℕ → ℕ → Peer → Received
  shutting_down : List ℕ → Peer → Received
  no_queue : Received
  bad_data : Received

-- `mcpy(data->data + at, bytes, length bytes)`, into a buffer that has room for it.
unfoldable pub copy_to : List ℕ → ℕ → List ℕ → List ℕ
copy_to buffer at bytes = take at buffer ++ (bytes ++ drop (at + length bytes) buffer)

-- A chunk is what is left of an earlier one, or else comes from the queue.
pub data Chunk : Type 0 where
  chunk : List ℕ → Peer → Chunk
  no_chunk : Peer → Chunk
  empty_queue : Chunk

unfoldable pub get_incoming : List (Option (List ℕ)) → Peer → Chunk
get_incoming [] p = empty_queue
get_incoming (none ∷ later) p = no_chunk (record p { incoming = later })
get_incoming (some c ∷ later) p = chunk c (record p { incoming = later })

unfoldable pub next_chunk : Peer → Chunk
unfolding get_incoming
next_chunk p = elim p.drem [
  | some c ↦ chunk c (record p { drem = none })
  | none ↦ get_incoming p.incoming p
]

-- A chunk is copied as far as the buffer has room; the rest of it is kept in `drem`.
unfoldable pub fill : List ℕ → ℕ → List ℕ → List ℕ
unfolding copy_to
fill buffer ldata c =
    let remaining = length buffer - ldata in
    if leb (length c) remaining
    then copy_to buffer ldata c
    else copy_to buffer ldata (take remaining c)

unfoldable pub keep_residue : List ℕ → ℕ → List ℕ → Peer → Peer
keep_residue buffer ldata c p =
    let remaining = length buffer - ldata in
    if leb (length c) remaining then p else record p { drem = some (drop remaining c) }

-- The loop of `receive`, on fuel. `ldata` grows by the whole chunk, also where a part is kept.
unfoldable pub receive_loop : ℕ → Peer → List ℕ → ℕ → Option Received
unfolding next_chunk fill keep_residue
receive_loop zero p buffer ldata = none
receive_loop (suc fuel) p buffer ldata = elim (ltb ldata (length buffer)) [
  | false ↦ some (filled buffer p)
  | true ↦ elim (next_chunk p) [
    | empty_queue ↦ some (waiting buffer ldata p)
    | no_chunk p' ↦ some (shutting_down buffer p')
    | chunk c p' ↦
        receive_loop fuel (keep_residue buffer ldata c p') (fill buffer ldata c)
          (u32 (ldata + length c))
  ]
]

unfoldable pub receive : ℕ → Peer → List ℕ → Option Received
unfolding receive_loop
receive fuel p buffer = receive_loop fuel p buffer 0

-- The whole call: whether the peer has a queue, and the buffer, if there is one.
unfoldable pub receive_call : ℕ → Bool → Peer → Option (List ℕ) → Option Received
unfolding receive
receive_call fuel has_queue p buffer =
    if has_queue
    then elim buffer [ none ↦ some bad_data | some b ↦ receive fuel p b ]
    else some no_queue

-- `send` puts a copy of the package, for which there is memory, unless the peer is being destroyed.
unfoldable pub send : Peer → List ℕ → Peer
send p item = if p.die then p else record p { outgoing = p.outgoing ++ item ∷ [] }

unfoldable pub is_nonempty : Option (List ℕ) → Bool
is_nonempty none = false
is_nonempty (some c) = true

unfoldable pub has_data : Peer → Bool
unfolding is_nonempty
has_data p = ltb 0 (length p.incoming) || is_nonempty p.drem
