-- ===== src/Arena/Frames.antt =====
-- One step of either thread (`common/carena/src/carena.c`), on a connection that loses nothing.
use empirical_zero_knowledge.Prelude.{
  ℕ, ◌+◌, ◌-◌, ◌^◌, ◌<◌, ◌≤◌, ◌≡◌, ◌⊎◌, refl, sym, ap, ◌∙◌, Bool, true, false, Bool-cases, inl, inr,
  some, List, [], ◌∷◌, ◌++◌, length, take, drop, map, concat, All, ltb, ◌==◌, u32, arith,
  length-append, append_assoc, append_split, drop-all, length-drop, append-take-drop, drop-drop,
}
use mathlib.Core.List.{append-nil}
use mathlib.Core.Path.{subst}
use empirical_zero_knowledge.Encoding.Integer.{i2b, b2i, b2i-i2b}
use empirical_zero_knowledge.Arena.Threads.{
  Phase, header, body, stopped, Receiver, Read, read, read_ok, again, continue_body, take_length,
  read_header, read_body, rec_step, frame, Sending, fetching, writing, left, continue_write,
  snd_fetch, item, snd_write, written,
}

abbrev pub frames : List (List ℕ) → List ℕ
frames items = concat (map frame items)

-- The bytes of a frame that are still to be written.
abbrev pub unsent : Sending → List ℕ
unsent fetching = []
unsent (writing buf sofar) = drop sofar buf
unsent left = []

-- `write` is asked for the rest of the buffer, and reports no more.
abbrev pub IsWriting : Sending → Type 0
IsWriting fetching = Unit {0}
IsWriting (writing buf sofar) = (sofar < length buf) × (length buf < 2 ^ 32)
IsWriting left = ⊥

-- The thread that receives has taken what is missing from `rest` to make the frames of `todo`.
abbrev pub Flows : Phase → List ℕ → List (List ℕ) → Type 0
Flows header rest todo = rest ≡ frames todo
Flows (body l got) rest todo =
    (d : List ℕ) × (later : List (List ℕ)) × (todo ≡ d ∷ later)
    × (l ≡ length d)
    × (length got < l)
    × (got ++ rest ≡ d ++ frames later)
Flows stopped rest todo = ⊥

-- What a step of the receiver does: of the packages in `todo` it puts those of `arrived` in the queue.
abbrev pub Flowing : Receiver → Receiver → List ℕ → List (List ℕ) → Type 0
Flowing r r' rest todo =
    (arrived : List (List ℕ)) × (later : List (List ℕ)) × (todo ≡ arrived ++ later)
    × (r'.packages ≡ r.packages ++ arrived)
    × Flows r'.phase rest later
    × (r'.running ≡ true)
    × (r'.die ≡ r.die)

abbrev pub IsShort : List ℕ → Type 0
IsShort d = length d + 4 < 2 ^ 32

pub length-frame : (d : List ℕ) → length (frame d) ≡ length d + 4
unfolding frame i2b
length-frame d = omega arith

continue_write_lem :
    (buf : List ℕ) (sofar : ℕ)
    → length buf < 2 ^ 32
    → sofar ≤ length buf
    → (unsent (continue_write buf sofar) ≡ drop sofar buf) × IsWriting (continue_write buf sofar)
unfolding continue_write
continue_write_lem buf sofar small le = elim (Bool-cases (ltb sofar (u32 (length buf)))) [
  | inl more ↦ rw more (refl, (ground arith, small))
  | inr no_more ↦ rw no_more (sym (drop-all sofar buf (ground arith)), tt)
]

pub fetch_lem :
    (d : List ℕ)
    → IsShort d
    → (unsent (snd_fetch (item d)) ≡ frame d) × IsWriting (snd_fetch (item d))
unfolding snd_fetch
fetch_lem d small = continue_write_lem (frame d) 0 (omega (arith, length-frame d)) (omega arith)

pub write_lem :
    (s : Sending) (n : ℕ)
    → IsWriting s
    → n ≤ length (unsent s)
    → ((snd_write s (written n)).0 ++ unsent (snd_write s (written n)).1 ≡ unsent s)
      × IsWriting (snd_write s (written n)).1
unfolding snd_write
write_lem fetching n w le = (refl, tt)
write_lem left n w le = absurd w
write_lem (writing buf sofar) n w le =
    let inside : sofar + n ≤ length buf = omega (arith, length-drop sofar buf) in
    let place : u32 (sofar + n) ≡ sofar + n = omega arith in
    let next = continue_write_lem buf (sofar + n) w.1 inside in
    rw (place, snd_write)
      (
        ap (λ r. take n (drop sofar buf) ++ r) (next.0 ∙ sym (drop-drop n sofar buf))
            ∙ append-take-drop n (drop sofar buf),
        next.1,
      )

again_lem : (r : Receiver) → r.running ≡ true → again r ≡ record r { phase = header }
unfolding again
again_lem r on = ground arith

-- The part of a package that was read, and what comes after it.
continue_body_lem :
    (r : Receiver) (d got rest : List ℕ) (later : List (List ℕ))
    → r.running ≡ true
    → length got ≤ length d
    → got ++ rest ≡ d ++ frames later
    → Flowing r (continue_body r (length d) got) rest (d ∷ later)
unfolding continue_body
continue_body_lem r d got rest later on le same = elim (Bool-cases (length got == length d)) [
  | inl all ↦
      let parts = append_split got d (ground arith) same in
      let put : Receiver = record r { packages = r.packages ++ got ∷ [] } in
      rw all (
        subst (λ t. Flowing r t rest (d ∷ later)) (sym (again_lem put on))
          (d ∷ [], later, refl, ap (λ g. r.packages ++ g ∷ []) parts.0, parts.1, on, refl))
  | inr some_left ↦ rw some_left (
    [],
    d ∷ later,
    refl,
    sym (append-nil r.packages),
    (d, later, refl, refl, ground arith, same),
    on,
    refl,
  )
]

-- The bytes that `read` may give: a length at once, or nothing, or a part of what a package lacks.
abbrev pub IsRead : Phase → ℕ → Type 0
IsRead header n = (n ≡ 4) ⊎ (n ≡ 0)
IsRead (body l got) n = n ≤ l - length got
IsRead stopped n = ⊥

body_goes_on :
    (r : Receiver) (l : ℕ) (got bytes : List ℕ)
    → r.die ≡ false
    → read_body r l got (read read_ok bytes) ≡ continue_body r l (got ++ bytes)
unfolding read_body
body_goes_on r l got bytes alive = ground arith

header_goes_on :
    (alloc : ℕ → Bool) (r : Receiver) (l : ℕ) (bytes : List ℕ)
    → r.die ≡ false
    → 3 < length bytes
    → b2i bytes ≡ some l
    → alloc l ≡ true
    → read_header alloc r (read read_ok bytes) ≡ continue_body r l []
unfolding read_header take_length
header_goes_on alloc r l bytes alive long number room = ground arith

-- The first bytes of the stream `bytes ++ rest` are read.
read_body_lem :
    (r : Receiver) (l : ℕ) (got bytes rest : List ℕ) (todo : List (List ℕ))
    → r.running ≡ true
    → r.die ≡ false
    → length bytes ≤ l - length got
    → Flows (body l got) (bytes ++ rest) todo
    → Flowing r (read_body r l got (read read_ok bytes)) rest todo
read_body_lem r l got bytes rest todo on alive le (d, later, split, size, less, same) =
    subst (λ t. Flowing r t rest todo) (sym (body_goes_on r l got bytes alive))
      (subst (λ t. Flowing r (continue_body r l (got ++ bytes)) rest t) (sym split)
        (subst (λ k. Flowing r (continue_body r k (got ++ bytes)) rest (d ∷ later)) (sym size)
          (continue_body_lem r d (got ++ bytes) rest later on
            (omega (arith, length-append got bytes)) (append_assoc got bytes rest ∙ same))))

first_frame :
    (d bytes rest : List ℕ) (later : List (List ℕ))
    → length bytes ≡ 4
    → bytes ++ rest ≡ frames (d ∷ later)
    → (bytes ≡ i2b (length d)) × (rest ≡ d ++ frames later)
unfolding frame i2b
first_frame d bytes rest later four same =
    append_split bytes (i2b (length d)) four (same ∙ append_assoc (i2b (length d)) d (frames later))

module _ (alloc : ℕ → Bool) (plenty : (n : ℕ) → n < 2 ^ 32 → alloc n ≡ true) where
  read_header_lem :
      (r : Receiver) (bytes rest : List ℕ) (todo : List (List ℕ))
      → r.running ≡ true
      → r.die ≡ false
      → length bytes ≡ 4
      → All IsShort todo
      → Flows header (bytes ++ rest) todo
      → Flowing r (read_header alloc r (read read_ok bytes)) rest todo
  read_header_lem r bytes rest [] on alive four short same =
      absurd (omega (arith, ap length same, length-append bytes rest))
  read_header_lem r bytes rest (d ∷ later) on alive four short same =
      let both = first_frame d bytes rest later four same in
      subst (λ t. Flowing r t rest (d ∷ later))
        (sym (
          header_goes_on alloc r (length d) bytes alive (omega arith)
            (ap b2i both.0 ∙ b2i-i2b (length d) (omega arith)) (plenty (length d) (omega arith))))
        (continue_body_lem r d [] rest later on (omega arith) both.1)

  pub at_header :
      (r : Receiver) (e : Read) → r.phase ≡ header → rec_step alloc r e ≡ read_header alloc r e
  unfolding rec_step
  at_header r e p = ground arith

  pub at_body :
      (r : Receiver) (e : Read) (l : ℕ) (got : List ℕ)
      → r.phase ≡ body l got
      → rec_step alloc r e ≡ read_body r l got e
  unfolding rec_step
  at_body r e l got p = ground arith

  idle_header :
      (r : Receiver)
      → r.die ≡ false
      → r.running ≡ true
      → read_header alloc r (read read_ok []) ≡ record r { phase = header }
  unfolding read_header again
  idle_header r alive on = ground arith

  pub read_lem :
      (r : Receiver) (p : Phase) (bytes rest : List ℕ) (todo : List (List ℕ))
      → r.phase ≡ p
      → r.running ≡ true
      → r.die ≡ false
      → IsRead p (length bytes)
      → All IsShort todo
      → Flows p (bytes ++ rest) todo
      → Flowing r (rec_step alloc r (read read_ok bytes)) rest todo
  read_lem r header bytes rest todo e on alive (inl four) short flows =
      subst (λ t. Flowing r t rest todo) (sym (at_header r (read read_ok bytes) e))
        (read_header_lem r bytes rest todo on alive four short flows)
  read_lem r header [] rest todo e on alive (inr nothing) short flows =
      subst (λ t. Flowing r t rest todo)
        (sym (at_header r (read read_ok []) e ∙ idle_header r alive on))
        ([], todo, refl, sym (append-nil r.packages), flows, on, refl)
  read_lem r header (b ∷ bytes) rest todo e on alive (inr nothing) short flows =
      absurd (omega arith)
  read_lem r (body l got) bytes rest todo e on alive may short flows =
      subst (λ t. Flowing r t rest todo) (sym (at_body r (read read_ok bytes) l got e))
        (read_body_lem r l got bytes rest todo on alive may flows)
  read_lem r stopped bytes rest todo e on alive may short flows = absurd flows
