-- ===== src/Arena/Channel/Delivery.antt =====
-- A connection between two peers delivers what was sent (`common/carena/src/carena.c`).
use empirical_zero_knowledge.Prelude.{
  ℕ, zero, suc, ◌+◌, ◌-◌, ◌*◌, ◌^◌, ◌<◌, ◌≤◌, ◌≡◌, refl, sym, ap, ap₂, ◌∙◌, ◌⊎◌, inl, inr, Bool,
  true, false, Bool-cases, Option, none, some, leb, ◌==◌, if◌then◌else◌, List, [], ◌∷◌, ◌++◌,
  length, take, drop, All, arith, length-append, length-take, length-drop,
}
use mathlib.Core.List.{append-nil}
use mathlib.Core.Path.{subst}
use native.Mathlib.Decide.{dec_lt}
use empirical_zero_knowledge.Encoding.Integer.{i2b, b2i}
use empirical_zero_knowledge.Arena.Threads.{
  Phase, header, body, stopped, Receiver, asked, read, read_ok, again, continue_body, take_length,
  read_header, read_body, rec_step, frame, Sending, fetching, writing, left, snd_fetch, item,
  snd_write, written,
}
use empirical_zero_knowledge.Arena.Frames.{
  frames, unsent, IsWriting, Flows, IsShort, at_header, at_body, fetch_lem, write_lem, length-frame,
}
use empirical_zero_knowledge.Arena.Channel.{
  Channel, fresh, Step, fetch, write, receive, take_package, Reach, here, next, IsWhole, AreWhole,
  in_flight,
}
use empirical_zero_knowledge.Arena.Channel.Order.{IsFlowing, Step-IsFlowing, Reach-IsFlowing}

-- A byte counts for each place that it has still to pass, and a package in the queue once.
work : Channel → ℕ
work c =
    2 * (3 * length (frames c.outgoing) + 2 * length (unsent c.sending) + length c.wire)
    + length c.receiver.packages

-- A step that carries bytes or a package on.
abbrev Carries : (ℕ → Bool) → Channel → Type 0
Carries alloc c =
    (d : Channel) × (step : Step alloc c d) × IsWhole step × (d.sent ≡ c.sent) × (work d < work c)

-- One step of the receiver puts at most one package in its queue.
again-packages : (r : Receiver) → (again r).packages ≡ r.packages
unfolding again
again-packages r = ground arith

continue_body-more :
    (r : Receiver) (l : ℕ) (got : List ℕ)
    → length (continue_body r l got).packages ≤ length r.packages + 1
unfolding continue_body
continue_body-more r l got = elim (Bool-cases (length got == l)) [
  | inl all ↦
      let put : Receiver = record r { packages = r.packages ++ got ∷ [] } in
      rw all (omega (arith, ap length (again-packages put), length-append r.packages (got ∷ [])))
  | inr more ↦ rw more (omega arith)
]

take_length-more :
    (alloc : ℕ → Bool) (r : Receiver) (l : Option ℕ)
    → length (take_length alloc r l).packages ≤ length r.packages + 1
unfolding take_length
take_length-more alloc r none = omega arith
take_length-more alloc r (some l) = elim (Bool-cases (alloc l)) [
  | inl room ↦ rw room (continue_body-more r l [])
  | inr full ↦ rw full (omega (arith, ap length (again-packages r)))
]

either_few :
    (b : Bool) (x y : Receiver) (n : ℕ)
    → length x.packages ≤ n
    → length y.packages ≤ n
    → length (if b then x else y).packages ≤ n
either_few true x y n p q = p
either_few false x y n p q = q

read_header-more :
    (alloc : ℕ → Bool) (r : Receiver) (bytes : List ℕ)
    → length (read_header alloc r (read read_ok bytes)).packages ≤ length r.packages + 1
unfolding read_header
read_header-more alloc r bytes = either_few r.die _ _ _ (omega arith) (
    either_few (leb (length bytes) 3) _ _ _ (omega (arith, ap length (again-packages r)))
      (take_length-more alloc r (b2i bytes)))

read_body-more :
    (r : Receiver) (l : ℕ) (got bytes : List ℕ)
    → length (read_body r l got (read read_ok bytes)).packages ≤ length r.packages + 1
unfolding read_body
read_body-more r l got bytes =
    either_few r.die _ _ _ (omega arith) (continue_body-more r l (got ++ bytes))

rec_step-more :
    (alloc : ℕ → Bool) (plenty : (n : ℕ) → n < 2 ^ 32 → alloc n ≡ true) (r : Receiver) (p : Phase)
    (bytes : List ℕ)
    → r.phase ≡ p
    → length (rec_step alloc r (read read_ok bytes)).packages ≤ length r.packages + 1
rec_step-more alloc plenty r header bytes e =
    rw (at_header alloc plenty r (read read_ok bytes) e) (read_header-more alloc r bytes)
rec_step-more alloc plenty r (body l got) bytes e =
    rw (at_body alloc plenty r (read read_ok bytes) l got e) (read_body-more r l got bytes)
rec_step-more alloc plenty r stopped bytes e = unfold rec_step in (rw e (omega arith))

write_all :
    (s : Sending)
    → IsWriting s
    → length (snd_write s (written (length (unsent s)))).0 ≡ length (unsent s)
unfolding snd_write
write_all fetching w = refl
write_all (writing buf sofar) w =
    length-take (length (drop sofar buf)) (drop sofar buf) (omega arith)
write_all left w = absurd w

-- The bytes that the receiver can read when all that is in flight is on the wire.
readable :
    (p : Phase) (wire : List ℕ) (x : List ℕ) (todo : List (List ℕ))
    → Flows p wire (x ∷ todo)
    → (n : ℕ) × (n ≤ asked p) × (p ≡ header → (n ≡ 4) ⊎ (n ≡ 0)) × (0 < n) × (n ≤ length wire)
unfolding frame i2b asked
readable header wire x todo flows = (
  4,
  omega arith,
  λ e. inl refl,
  omega arith,
  omega (arith, ap length flows, length-append (frame x) (frames todo)),
)
readable (body l got) wire x todo (d, later, split, size, less, same) =
    elim (dec_lt (length wire) (l - length got)) [
      | yes few ↦ (
        length wire,
        omega arith,
        λ e. cc,
        omega (arith, ap length same, length-append got wire, length-append d (frames later)),
        omega arith,
      )
      | no many ↦ (l - length got, omega arith, λ e. cc, omega arith, omega arith)
    ]
readable stopped wire x todo flows = absurd flows

module _ (alloc : ℕ → Bool) (plenty : (n : ℕ) → n < 2 ^ 32 → alloc n ≡ true) where
  carry_write :
      (c : Channel) → IsWriting c.sending → 0 < length (unsent c.sending) → Carries alloc c
  unfolding work
  carry_write c busy some_left =
      let n = length (unsent c.sending) in
      let bytes = (snd_write c.sending (written n)).0 in
      let after = unsent (snd_write c.sending (written n)).1 in
      (
        record c {
          sending = (snd_write c.sending (written n)).1;
          wire = c.wire ++ (snd_write c.sending (written n)).0;
        },
        write c n (omega arith),
        tt,
        refl,
        omega (
          arith,
          write_all c.sending busy,
          ap length (write_lem c.sending n busy (omega arith)).0,
          length-append bytes after,
          length-append c.wire bytes,
        ),
      )

  carry_fetch :
      (c : Channel) (d : List ℕ) (later : List (List ℕ))
      → c.sending ≡ fetching
      → c.outgoing ≡ d ∷ later
      → IsFlowing c
      → Carries alloc c
  unfolding work
  carry_fetch c d later idle front i =
      let start = fetch_lem d (subst (λ q. All IsShort q) front i.queued).0 in
      (
        record c { outgoing = later; sending = snd_fetch (item d) },
        fetch c d later front idle,
        tt,
        refl,
        omega (
          arith,
          ap length start.0,
          length-frame d,
          ap (λ q. length (frames q)) front,
          ap (λ s. length (unsent s)) idle,
          length-append (frame d) (frames later),
        ),
      )

  carry_read :
      (c : Channel) (x : List ℕ) (todo : List (List ℕ))
      → unsent c.sending ≡ []
      → c.outgoing ≡ []
      → c.receiver.packages ≡ []
      → Flows c.receiver.phase (in_flight c) (x ∷ todo)
      → Carries alloc c
  unfolding work
  carry_read c x todo idle empty none_left flows =
      let on_wire : in_flight c ≡ c.wire =
        ap₂ (λ u q. c.wire ++ (u ++ frames q)) idle empty ∙ append-nil c.wire in
      let (n, most, whole, some_read, le) =
        readable c.receiver.phase c.wire x todo
          (subst (λ r. Flows c.receiver.phase r (x ∷ todo)) on_wire flows) in
      let more = rec_step-more alloc plenty c.receiver c.receiver.phase (take n c.wire) refl in
      let before = ap length none_left in
      (
        record c {
          receiver = rec_step alloc c.receiver (read read_ok (take n c.wire));
          wire = drop n c.wire;
        },
        receive c n le most (omega arith),
        whole,
        refl,
        omega (arith, length-drop n c.wire),
      )

  carry_taken :
      (c : Channel) (d : List ℕ) (later : List (List ℕ))
      → c.receiver.packages ≡ d ∷ later
      → Carries alloc c
  unfolding work
  carry_taken c d later front = (
    record c { receiver = record c.receiver { packages = later }; taken = c.taken ++ d ∷ [] },
    take_package c d later front,
    tt,
    refl,
    omega (arith, ap length front),
  )

  -- While a package is missing at the receiver, some thread can go on.
  carry :
      (c : Channel) (s : Sending) (q : List (List ℕ)) (x : List ℕ) (todo : List (List ℕ))
      → c.sending ≡ s
      → c.outgoing ≡ q
      → c.receiver.packages ≡ []
      → IsFlowing c
      → Flows c.receiver.phase (in_flight c) (x ∷ todo)
      → Carries alloc c
  carry c fetching (d ∷ later) x todo idle front no_package i flows =
      carry_fetch c d later idle front i
  carry c fetching [] x todo idle front no_package i flows =
      carry_read c x todo (ap unsent idle) front no_package flows
  carry c (writing buf sofar) q x todo busy front no_package i flows =
      let inside : IsWriting (writing buf sofar) = subst IsWriting busy i.busy in
      carry_write c i.busy
        (omega (arith, ap (λ s. length (unsent s)) busy, length-drop sofar buf, inside.0))
  carry c left q x todo busy front no_package i flows = absurd (subst IsWriting busy i.busy)

  Reach-first : {c d e : Channel} → Step alloc c d → Reach alloc d e → Reach alloc c e
  Reach-first s here = next here s
  Reach-first s (next r t) = next (Reach-first s r) t

  abbrev Delivers : Channel → Type 0
  Delivers c = (d : Channel) × Reach alloc c d × (d.sent ≡ c.sent) × (d.taken ≡ c.sent)

  next_carried :
      (c : Channel) (waiting todo : List (List ℕ)) (i : IsFlowing c)
      → c.receiver.packages ≡ waiting
      → i.todo ≡ todo
      → (c.taken ≡ c.sent) ⊎ Carries alloc c
  next_carried c (d ∷ later) todo i front e = inr (carry_taken c d later front)
  next_carried c [] [] i front e =
      inl (sym (i.order ∙ ap₂ (λ q t. c.taken ++ (q ++ t)) front e ∙ append-nil c.taken))
  next_carried c [] (x ∷ todo) i front e = inr (
      carry c c.sending c.outgoing x todo refl refl front i
        (subst (λ t. Flows c.receiver.phase (in_flight c) t) e i.flows))

  deliver : (fuel : ℕ) (c : Channel) → IsFlowing c → work c < fuel → Delivers c
  deliver zero c i below = absurd (omega arith)
  deliver (suc fuel) c i below = elim (next_carried c c.receiver.packages i.todo i refl refl) [
    | inl taken ↦ (c, here, refl, taken)
    | inr (d, step, whole, same, less) ↦
        let j = Step-IsFlowing alloc plenty step whole i in
        let (last, reached, kept, delivered) = deliver fuel d j (omega arith) in
        (last, Reach-first step reached, kept ∙ same, delivered ∙ same)
  ]

-- On a connection that works, with memory for each package, every state that is reached, by reads of a
-- length that bring its four bytes at once or none, can go on, by steps of the threads and calls of
-- `receive` that take packages, and nothing new sent, to one in which exactly what was sent has been
-- taken, in its order.
pub Reach-delivers :
    (alloc : ℕ → Bool)
    → ((n : ℕ) → n < 2 ^ 32 → alloc n ≡ true)
    → {c : Channel} (run : Reach alloc fresh c) → AreWhole run
    → (d : Channel) × Reach alloc c d × (d.sent ≡ c.sent) × (d.taken ≡ c.sent)
Reach-delivers alloc plenty {c} run whole =
    deliver alloc plenty (suc (work c)) c (Reach-IsFlowing alloc plenty run whole) (omega arith)
