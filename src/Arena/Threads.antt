-- ===== src/Arena/Threads.antt =====
-- The two threads of a peer (`common/carena/src/carena.c`): `peer_snd_function` writes each package
-- after its length in four bytes, `peer_rec_function` reads it back. Each call of `read` or `write` is
-- one step, and its outcome is an argument.
use empirical_zero_knowledge.Prelude.{
  ℕ, ◌+◌, ◌-◌, Bool, Option, none, some, List, [], ◌∷◌, ◌++◌, length, take, drop, ltb, leb, ◌==◌,
  if◌then◌else◌, u32,
}
use empirical_zero_knowledge.Encoding.Integer.{i2b, b2i}

-- Where the receiving thread stands: before the read of a length, or in the read of a package of that
-- length, with the bytes so far.
pub data Phase : Type 0 where
  header : Phase
  body : ℕ → List ℕ → Phase
  stopped : Phase

-- `packages` are those it has put in `incoming`, in order.
pub record Receiver : Type 0 where
  pub phase : Phase
  pub packages : List (List ℕ)
  pub running : Bool
  pub die : Bool

pub data ReadCode : Type 0 where
  read_ok : ReadCode
  disconnected : ReadCode
  read_failed : ReadCode

-- The bytes are as many as `read` stores in its third argument.
pub data Read : Type 0 where
  read : ReadCode → List ℕ → Read

unfoldable pub asked : Phase → ℕ
asked header = 4
asked (body l got) = l - length got
asked stopped = 0

-- The test of `while(mei->running)`.
unfoldable pub again : Receiver → Receiver
again r = if r.running then record r { phase = header } else record r { phase = stopped }

-- The head of the inner loop: a complete package is put in the queue.
unfoldable pub continue_body : Receiver → ℕ → List ℕ → Receiver
unfolding again
continue_body r l got =
    if length got == l
    then again (record r { packages = r.packages ++ got ∷ [] })
    else record r { phase = body l got }

-- `alloc` says whether there is memory for that many bytes.
unfoldable pub take_length : (ℕ → Bool) → Receiver → Option ℕ → Receiver
unfolding continue_body again
take_length alloc r none = record r { phase = stopped }
take_length alloc r (some l) = if alloc l then continue_body r l [] else again r

unfoldable pub read_header : (ℕ → Bool) → Receiver → Read → Receiver
unfolding take_length again b2i
read_header alloc r (read code bytes) =
    if r.die
    then record r { phase = stopped }
    else if leb (length bytes) 3
    then again r
    else elim code [
      | read_ok ↦ take_length alloc r (b2i bytes)
      | disconnected ↦ record r { phase = stopped }
      | read_failed ↦ record r { phase = stopped }
    ]

-- A lost connection gives up the package, and the thread goes back to the read of a length.
unfoldable pub read_body : Receiver → ℕ → List ℕ → Read → Receiver
unfolding continue_body again
read_body r l got (read code bytes) = if r.die then record r { phase = stopped } else elim code [
  | read_ok ↦ continue_body r l (got ++ bytes)
  | disconnected ↦ again r
  | read_failed ↦ record r { phase = stopped }
]

-- What `peer_rec_function` does with the outcome of its next read.
unfoldable pub rec_step : (ℕ → Bool) → Receiver → Read → Receiver
unfolding read_header read_body
rec_step alloc r e = elim r.phase [
  | header ↦ read_header alloc r e
  | body l got ↦ read_body r l got e
  | stopped ↦ r
]

-- What `get` of the outgoing queue gives.
pub data Outgoing : Type 0 where
  item : List ℕ → Outgoing
  die_package : Outgoing
  no_package : Outgoing

-- Where the sending thread stands: at `get`, or with a buffer of which so many bytes are written.
pub data Sending : Type 0 where
  fetching : Sending
  writing : List ℕ → ℕ → Sending
  left : Sending

pub data Write : Type 0 where
  written : ℕ → Write
  write_failed : ℕ → Write

-- The length, in four bytes, and the package.
unfoldable pub frame : List ℕ → List ℕ
unfolding i2b
frame d = i2b (length d) ++ d

-- The head of the write loop.
unfoldable pub continue_write : List ℕ → ℕ → Sending
continue_write buf sofar = if ltb sofar (u32 (length buf)) then writing buf sofar else fetching

unfoldable pub snd_fetch : Outgoing → Sending
unfolding continue_write frame
snd_fetch (item d) = continue_write (frame d) 0
snd_fetch die_package = left
snd_fetch no_package = left

-- The bytes that a write puts on the connection, and where the thread stands then. After a failure it
-- goes on with the next package.
unfoldable pub snd_write : Sending → Write → List ℕ × Sending
unfolding continue_write
snd_write (writing buf sofar) (written n) =
    (take n (drop sofar buf), continue_write buf (u32 (sofar + n)))
snd_write (writing buf sofar) (write_failed n) = (take n (drop sofar buf), fetching)
snd_write s w = ([], s)
