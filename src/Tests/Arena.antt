-- ===== src/Tests/Arena.antt =====
-- Runs of the arena (`common/carena/src/carena.c`), and its theorems at concrete inputs.
use empirical_zero_knowledge.Prelude.{
  ℕ, ◌*◌, ◌^◌, ◌≡◌, refl, inl, Bool, true, false, none, some, List, [], ◌∷◌, ◌++◌, arith,
}
use empirical_zero_knowledge.Arena.{Peer, filled, receive}
use empirical_zero_knowledge.Arena.Stream.{receive-pending}
use empirical_zero_knowledge.Arena.Chunks.{pending, IsSupplied}
use empirical_zero_knowledge.Arena.Threads.{
  Receiver, header, asked, read, read_ok, rec_step, fetching, item, snd_fetch, snd_write, written,
  write_failed,
}
use empirical_zero_knowledge.Arena.Frames.{frames}
use empirical_zero_knowledge.Arena.Channel.{
  Channel, fresh, send, fetch, write, receive as receive_step, Reach, here, next, AreWhole,
  in_flight,
}
use empirical_zero_knowledge.Arena.Channel.Order.{partial, Reach-in_order}
use empirical_zero_knowledge.Arena.Channel.Delivery.{Reach-delivers}
use empirical_zero_knowledge.Arena.Peers.{
  CArena, Arrival, given_id, connected, accept_client, accept_all, get_peer, read_int, send_int,
}
use empirical_zero_knowledge.Arena.Peers.Joining.{accept_client-joins}

abbrev full_peer : Peer
full_peer = record {
  incoming = some (3 ∷ 4 ∷ 5 ∷ []) ∷ some [] ∷ some (6 ∷ 7 ∷ []) ∷ [];
  outgoing = [];
  drem = some (1 ∷ 2 ∷ []);
  die = false;
}

receive_run :
    receive 6 full_peer (0 ∷ 0 ∷ 0 ∷ 0 ∷ 0 ∷ 0 ∷ [])
    ≡ some (
        filled
          (1 ∷ 2 ∷ 3 ∷ 4 ∷ 5 ∷ 6 ∷ [])
          (record { incoming = []; outgoing = []; drem = some (7 ∷ []); die = false }))
unfolding receive
receive_run = refl

receive-pending_example :
    (p : Peer) × (receive 6 full_peer (0 ∷ 0 ∷ 0 ∷ 0 ∷ []) ≡ some (filled (1 ∷ 2 ∷ 3 ∷ 4 ∷ []) p))
    × (pending p ≡ 5 ∷ 6 ∷ 7 ∷ [])
    × IsSupplied p
    × (p.outgoing ≡ [])
    × (p.die ≡ false)
receive-pending_example =
    receive-pending 6 full_peer (0 ∷ 0 ∷ 0 ∷ 0 ∷ []) (omega arith) (omega arith) (omega arith)
      (omega arith)

abbrev always : ℕ → Bool
always n = true

abbrev one_item : List ℕ
one_item = 9 ∷ 8 ∷ []

-- A package is sent, fetched, and all but its last byte is written; its length is read.
abbrev sent_one : Channel
sent_one = record fresh { outgoing = one_item ∷ []; sent = one_item ∷ [] }

abbrev fetched_one : Channel
fetched_one = record sent_one { outgoing = []; sending = snd_fetch (item one_item) }

fetched_reached : Reach always fresh fetched_one
fetched_reached =
    next (next here (send fresh one_item (omega arith) (omega arith)))
      (fetch sent_one one_item [] refl refl)

abbrev written_one : Channel
written_one = record fetched_one {
  sending = (snd_write (snd_fetch (item one_item)) (written 5)).1;
  wire = (snd_write (snd_fetch (item one_item)) (written 5)).0;
}

written_reached : Reach always fresh written_one
unfolding snd_fetch snd_write
written_reached = next fetched_reached (write fetched_one 5 (omega arith))

-- The length is read, and the first of the two bytes.
abbrev header_read : Channel
header_read = record written_one {
  receiver = rec_step always written_one.receiver (read read_ok (0 ∷ 0 ∷ 0 ∷ 2 ∷ []));
  wire = 9 ∷ [];
}

header_reached : Reach always fresh header_read
unfolding snd_fetch snd_write rec_step asked
header_reached =
    next written_reached (receive_step written_one 4 (omega arith) (omega arith) (omega arith))

header_whole : AreWhole header_reached
unfolding snd_fetch snd_write rec_step asked header_reached written_reached fetched_reached
header_whole = ((((tt, tt), tt), tt), λ e. inl refl)

Reach-in_order_example :
    (todo : List (List ℕ)) × (one_item ∷ [] ≡ [] ++ (header_read.receiver.packages ++ todo))
    × (frames todo ≡ partial header_read.receiver.phase ++ in_flight header_read)
Reach-in_order_example = Reach-in_order always (λ n small. refl) header_reached header_whole

Reach-delivers_example :
    (d : Channel) × Reach always header_read d
    × (d.sent ≡ one_item ∷ [])
    × (d.taken ≡ one_item ∷ [])
Reach-delivers_example = Reach-delivers always (λ n small. refl) header_reached header_whole

abbrev lone : CArena
lone = record { peers = none ∷ []; conn_obs = 77 ∷ []; running = true }

abbrev another : Arrival
another = record { made = true; client_fd = 6; peer_id = 1024 }

accept_client-joins_example :
    let (asked, answer) = accept_client lone true 5 1024 in
    let before = accept_all (another ∷ []) asked in
    let (after, told) = accept_client before true 7 1 in
    (answer ≡ given_id 1)
    × (before.running ≡ true)
    × (told ≡ connected 1 before.conn_obs)
    × (get_peer after 1 ≡ some (record { fd_in = 5; fd_out = 7 }))
accept_client-joins_example =
    accept_client-joins lone (another ∷ []) 5 7 true refl (omega arith) (omega arith)
      (((λ e. omega arith), omega arith), tt) (omega arith) (omega arith)

-- A number that comes in one read, and one that comes in two.
read_int_whole : read_int (some (send_int 1025) ∷ []) ≡ some 1025
unfolding read_int send_int
read_int_whole = refl

read_int_parts : read_int (some (0 ∷ 0 ∷ []) ∷ some (4 ∷ 1 ∷ []) ∷ []) ≡ some (1025 * 2 ^ 16)
unfolding read_int
read_int_parts = refl

-- Three bytes of a length are lost when the fourth comes later.
abbrev first_receiver : Receiver
first_receiver = record { phase = header; packages = []; running = true; die = false }

lost_bytes : rec_step always first_receiver (read read_ok (0 ∷ 0 ∷ 0 ∷ [])) ≡ first_receiver
unfolding rec_step
lost_bytes = refl

-- After a write that fails in the middle of a package the thread goes on with the next package.
cut_package : (snd_write (snd_fetch (item one_item)) (write_failed 5)).1 ≡ fetching
unfolding snd_fetch snd_write
cut_package = refl
