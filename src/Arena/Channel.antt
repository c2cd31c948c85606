-- ===== src/Arena/Channel.antt =====
-- One direction of a connection between two peers (`common/carena/src/carena.c`): `send` on one side,
-- the two threads, and the queue that `receive` reads on the other side. Each call of `read` and
-- `write`, and each `get`, is a step; the steps come in any order.
pub mod Order
pub mod Delivery
use empirical_zero_knowledge.Prelude.{
  ℕ, ◌≤◌, ◌<◌, ◌≡◌, ◌⊎◌, Bool, true, false, List, [], ◌∷◌, ◌++◌, length, take, drop,
}
use empirical_zero_knowledge.Arena.Threads.{
  header, Receiver, asked, read, read_ok, rec_step, Sending, fetching, snd_fetch, item, snd_write,
  written,
}
use empirical_zero_knowledge.Arena.Frames.{frames, unsent, IsShort}

-- `outgoing` is the queue of the sender, `wire` what is written and not read, and the packages of the
-- receiver are its queue. `sent` keeps what was given to `send`, and `taken` what `receive` has taken
-- from the queue, in order.
pub record Channel : Type 0 where
  pub outgoing : List (List ℕ)
  pub sending : Sending
  pub wire : List ℕ
  pub receiver : Receiver
  pub sent : List (List ℕ)
  pub taken : List (List ℕ)

-- As `MpcPeerImpl_new` leaves both ends.
abbrev pub fresh : Channel
fresh = record {
  outgoing = [];
  sending = fetching;
  wire = [];
  receiver = record { phase = header; packages = []; running = true; die = false };
  sent = [];
  taken = [];
}

-- A connection that works: no call fails, and a read gives the next bytes that were written, at most as
-- many as it asks for. The queues have 16384 and 256 places: `send` waits for one, and so does the
-- thread that puts a package in its queue, here with the read that completes it.
pub data Step (alloc : ℕ → Bool) : Channel → Channel → Type 0 where
  send :
      (c : Channel) (d : List ℕ)
      → IsShort d
      → length c.outgoing < 16384
      → Step alloc c (record c { outgoing = c.outgoing ++ d ∷ []; sent = c.sent ++ d ∷ [] })
  fetch :
      (c : Channel) (d : List ℕ) (later : List (List ℕ))
      → c.outgoing ≡ d ∷ later
      → c.sending ≡ fetching
      → Step alloc c (record c { outgoing = later; sending = snd_fetch (item d) })
  write :
      (c : Channel) (n : ℕ)
      → n ≤ length (unsent c.sending)
      → Step alloc c (record c {
        sending = (snd_write c.sending (written n)).1;
        wire = c.wire ++ (snd_write c.sending (written n)).0;
      })
  receive :
      (c : Channel) (n : ℕ)
      → n ≤ length c.wire
      → n ≤ asked c.receiver.phase
      → length (rec_step alloc c.receiver (read read_ok (take n c.wire))).packages ≤ 256
      → Step alloc c (record c {
        receiver = rec_step alloc c.receiver (read read_ok (take n c.wire));
        wire = drop n c.wire;
      })
  take_package :
      (c : Channel) (d : List ℕ) (later : List (List ℕ))
      → c.receiver.packages ≡ d ∷ later
      → Step alloc c (record c {
        receiver = record c.receiver { packages = later };
        taken = c.taken ++ d ∷ [];
      })

pub data Reach (alloc : ℕ → Bool) (c : Channel) : Channel → Type 0 where
  here : Reach alloc c c
  next : {d e : Channel} → Reach alloc c d → Step alloc d e → Reach alloc c e

-- A read of a length brings its four bytes at once, or none: what a shorter read brings is lost.
abbrev pub IsWhole : {alloc : ℕ → Bool} {c d : Channel} → Step alloc c d → Type 0
IsWhole (receive c n le most room) = c.receiver.phase ≡ header → (n ≡ 4) ⊎ (n ≡ 0)
IsWhole _ = Unit {0}

abbrev pub AreWhole : {alloc : ℕ → Bool} {c d : Channel} → Reach alloc c d → Type 0
AreWhole here = Unit {0}
AreWhole (next before step) = AreWhole before × IsWhole step

-- The bytes that are written and not read, being written, and waiting to be written.
abbrev pub in_flight : Channel → List ℕ
in_flight c = c.wire ++ (unsent c.sending ++ frames c.outgoing)
