-- ===== src/Arena/Channel/Order.antt =====
-- A connection between two peers keeps the packages and their order (`common/carena/src/carena.c`).
use empirical_zero_knowledge.Prelude.{
  ℕ, ◌^◌, ◌<◌, ◌≤◌, ◌≡◌, ◌⊎◌, refl, sym, ap, ap₂, ◌∙◌, Bool, true, false, List, [], ◌∷◌, ◌++◌,
  length, take, drop, All, All-append, append_assoc, append-take-drop, length-take,
}
use mathlib.Core.Path.{subst}
use empirical_zero_knowledge.Encoding.Integer.{i2b}
use empirical_zero_knowledge.Arena.Threads.{
  Phase, header, body, stopped, asked, frame, snd_write, written,
}
use empirical_zero_knowledge.Arena.Frames.{
  frames, unsent, IsWriting, Flows, IsShort, IsRead, fetch_lem, write_lem, read_lem,
}
use empirical_zero_knowledge.Arena.Channel.{
  Channel, fresh, Step, send, fetch, write, receive, take_package, Reach, here, next, IsWhole,
  AreWhole, in_flight,
}

-- What is written, being written and waiting is what the receiver needs for the packages in `todo`.
pub record IsFlowing (c : Channel) : Type 0 where
  pub todo : List (List ℕ)
  pub order : c.sent ≡ c.taken ++ (c.receiver.packages ++ todo)
  pub flows : Flows c.receiver.phase (in_flight c) todo
  pub short : All IsShort todo
  pub queued : All IsShort c.outgoing
  pub busy : IsWriting c.sending
  pub running : c.receiver.running ≡ true
  pub alive : c.receiver.die ≡ false

frames-append : (xs ys : List (List ℕ)) → frames (xs ++ ys) ≡ frames xs ++ frames ys
frames-append [] ys = refl
frames-append (x ∷ xs) ys =
    ap (λ r. frame x ++ r) (frames-append xs ys)
    ∙ sym (append_assoc (frame x) (frames xs) (frames ys))

Flows-more :
    (p : Phase) (rest : List ℕ) (todo more : List (List ℕ))
    → Flows p rest todo
    → Flows p (rest ++ frames more) (todo ++ more)
Flows-more header rest todo more h = ap (λ r. r ++ frames more) h ∙ sym (frames-append todo more)
Flows-more (body l got) rest todo more (d, later, split, size, less, same) = (
  d,
  later ++ more,
  ap (λ t. t ++ more) split,
  size,
  less,
  sym (append_assoc got rest (frames more))
      ∙ ap (λ r. r ++ frames more) same
      ∙ append_assoc d (frames later) (frames more)
      ∙ ap (λ r. d ++ r) (sym (frames-append later more)),
)
Flows-more stopped rest todo more h = absurd h

All-later : (P : List ℕ → Type 0) (xs ys : List (List ℕ)) → All P (xs ++ ys) → All P ys
All-later P [] ys h = h
All-later P (x ∷ xs) ys h = All-later P xs ys h.1

readable_now :
    (p : Phase) (n : ℕ) (rest : List ℕ) (todo : List (List ℕ))
    → n ≤ asked p
    → (p ≡ header → (n ≡ 4) ⊎ (n ≡ 0))
    → Flows p rest todo
    → IsRead p n
unfolding asked
readable_now header n rest todo most whole flows = whole refl
readable_now (body l got) n rest todo most whole flows = most
readable_now stopped n rest todo most whole flows = absurd flows

module _ (alloc : ℕ → Bool) (plenty : (n : ℕ) → n < 2 ^ 32 → alloc n ≡ true) where
  pub Step-IsFlowing :
      {c d : Channel} (step : Step alloc c d) → IsWhole step → IsFlowing c → IsFlowing d
  Step-IsFlowing (send c d small room) whole i = record {
    todo = i.todo ++ d ∷ [];
    order =
        ap (λ s. s ++ d ∷ []) i.order
        ∙ append_assoc c.taken (c.receiver.packages ++ i.todo) (d ∷ [])
        ∙ ap (λ s. c.taken ++ s) (append_assoc c.receiver.packages i.todo (d ∷ []));
    flows =
        subst (λ r. Flows c.receiver.phase r (i.todo ++ d ∷ []))
          (append_assoc c.wire (unsent c.sending ++ frames c.outgoing) (frames (d ∷ []))
            ∙ ap (λ r. c.wire ++ r)
                (append_assoc (unsent c.sending) (frames c.outgoing) (frames (d ∷ []))
                  ∙ ap (λ r. unsent c.sending ++ r) (sym (frames-append c.outgoing (d ∷ [])))))
          (Flows-more c.receiver.phase (c.wire ++ (unsent c.sending ++ frames c.outgoing)) i.todo
            (d ∷ []) i.flows);
    short = All-append IsShort i.todo (d ∷ []) i.short (small, tt);
    queued = All-append IsShort c.outgoing (d ∷ []) i.queued (small, tt);
    busy = i.busy;
    running = i.running;
    alive = i.alive;
  }
  Step-IsFlowing (fetch c d later front idle) whole i =
      let queued : All IsShort (d ∷ later) = subst (λ q. All IsShort q) front i.queued in
      let start = fetch_lem d queued.0 in
      record {
        todo = i.todo;
        order = i.order;
        flows =
            subst (λ r. Flows c.receiver.phase (c.wire ++ r) i.todo)
              (ap₂ (λ s q. unsent s ++ frames q) idle front
                ∙ ap (λ r. r ++ frames later) (sym start.0))
              i.flows;
        short = i.short;
        queued = queued.1;
        busy = start.1;
        running = i.running;
        alive = i.alive;
      }
  Step-IsFlowing (write c n le) whole i =
      let out = write_lem c.sending n i.busy le in
      let bytes = (snd_write c.sending (written n)).0 in
      let after = unsent (snd_write c.sending (written n)).1 in
      record {
        todo = i.todo;
        order = i.order;
        flows =
            subst (λ r. Flows c.receiver.phase r i.todo)
              (ap (λ u. c.wire ++ (u ++ frames c.outgoing)) (sym out.0)
                ∙ ap (λ r. c.wire ++ r) (append_assoc bytes after (frames c.outgoing))
                ∙ sym (append_assoc c.wire bytes (after ++ frames c.outgoing)))
              i.flows;
        short = i.short;
        queued = i.queued;
        busy = out.1;
        running = i.running;
        alive = i.alive;
      }
  Step-IsFlowing (take_package c d later front) whole i = record {
    todo = i.todo;
    order =
        i.order
        ∙ ap (λ q. c.taken ++ (q ++ i.todo)) front
        ∙ sym (append_assoc c.taken (d ∷ []) (later ++ i.todo));
    flows = i.flows;
    short = i.short;
    queued = i.queued;
    busy = i.busy;
    running = i.running;
    alive = i.alive;
  }
  Step-IsFlowing (receive c n le most room) whole i =
      let may = readable_now c.receiver.phase n (in_flight c) i.todo most whole i.flows in
      let rest = drop n c.wire ++ (unsent c.sending ++ frames c.outgoing) in
      let got =
        read_lem alloc plenty c.receiver c.receiver.phase (take n c.wire) rest i.todo refl i.running
          i.alive (subst (λ k. IsRead c.receiver.phase k) (sym (length-take n c.wire le)) may)
          i.short
          (subst (λ r. Flows c.receiver.phase r i.todo)
            (ap (λ w. w ++ (unsent c.sending ++ frames c.outgoing))
                (sym (append-take-drop n c.wire))
              ∙ append_assoc (take n c.wire) (drop n c.wire)
                  (unsent c.sending ++ frames c.outgoing))
            i.flows) in
      record {
        todo = got.1;
        order =
            i.order
            ∙ ap (λ t. c.taken ++ (c.receiver.packages ++ t)) got.2
            ∙ ap (λ t. c.taken ++ t)
                (sym (append_assoc c.receiver.packages got.0 got.1)
                  ∙ ap (λ t. t ++ got.1) (sym got.3));
        flows = got.4;
        short = All-later IsShort got.0 got.1 (subst (λ t. All IsShort t) got.2 i.short);
        queued = i.queued;
        busy = i.busy;
        running = got.5;
        alive = got.6 ∙ i.alive;
      }

  pub Reach-IsFlowing : {c : Channel} (run : Reach alloc fresh c) → AreWhole run → IsFlowing c
  Reach-IsFlowing here whole = record {
    todo = [];
    order = refl;
    flows = refl;
    short = tt;
    queued = tt;
    busy = tt;
    running = refl;
    alive = refl;
  }
  Reach-IsFlowing (next r s) whole = Step-IsFlowing s whole.1 (Reach-IsFlowing r whole.0)

-- The bytes of the frame that the receiver is in.
pub partial : Phase → List ℕ
partial header = []
partial (body l got) = i2b l ++ got
partial stopped = []

Flows-partial :
    (p : Phase) (rest : List ℕ) (todo : List (List ℕ))
    → Flows p rest todo
    → frames todo ≡ partial p ++ rest
unfolding partial frame
Flows-partial header rest todo h = sym h
Flows-partial (body l got) rest todo (d, later, split, size, less, same) =
    ap frames split
    ∙ append_assoc (i2b (length d)) d (frames later)
    ∙ ap₂ (λ k r. i2b k ++ r) (sym size) (sym same)
    ∙ sym (append_assoc (i2b l) got rest)
Flows-partial stopped rest todo h = absurd h

-- On a connection that works, with memory for each package, and if each read of a length brings its
-- four bytes at once or none, in every state that is reached the packages that `receive` has taken and
-- those in the queue of the receiver are those that were sent first, whole and in the order of the
-- calls of `send`; the frames of the others are exactly the part that was read of the next frame and
-- the bytes in flight.
pub Reach-in_order :
    (alloc : ℕ → Bool)
    → ((n : ℕ) → n < 2 ^ 32 → alloc n ≡ true)
    → {c : Channel} (run : Reach alloc fresh c) → AreWhole run
    → (todo : List (List ℕ)) × (c.sent ≡ c.taken ++ (c.receiver.packages ++ todo))
      × (frames todo ≡ partial c.receiver.phase ++ in_flight c)
Reach-in_order alloc plenty {c} run whole =
    let i = Reach-IsFlowing alloc plenty run whole in
    (i.todo, i.order, Flows-partial c.receiver.phase (in_flight c) i.todo i.flows)
