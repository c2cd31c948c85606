-- ===== src/Arena/Chunks.antt =====
-- One round of the loop of `receive` (`common/carena/src/carena.c`): what it copies and what it keeps.
use empirical_zero_knowledge.Prelude.{
  ℕ, suc, ◌+◌, ◌-◌, ◌^◌, ◌<◌, ◌≤◌, ◌≡◌, refl, sym, ap, ap₂, ◌∙◌, true, false, Option, none, some,
  List, [], ◌++◌, length, take, drop, concat, map, All, ltb, leb, u32, arith, length-append,
  append_assoc, take-append_below, drop-append_below, drop-all, length-take, length-drop,
  take-append_at, take-append_past, drop-append_past,
}
use mathlib.Core.List.{append-nil}
use empirical_zero_knowledge.Arena.{
  Peer, filled, copy_to, chunk, fill, keep_residue, next_chunk, receive_loop,
}

-- The bytes that a client can receive without waiting: the residue, and the packages in the queue.
abbrev pub bytes : Option (List ℕ) → List ℕ
bytes none = []
bytes (some c) = c

abbrev pub pending : Peer → List ℕ
pending p = bytes p.drem ++ concat (map bytes p.incoming)

-- A package of a size that the framing can carry in a signed length.
abbrev pub IsPackage : Option (List ℕ) → Type 0
IsPackage none = ⊥
IsPackage (some c) = length c < 2 ^ 31

abbrev pub IsResidue : Option (List ℕ) → Type 0
IsResidue none = Unit {0}
IsResidue (some c) = length c < 2 ^ 31

-- The queue holds packages only.
abbrev pub IsSupplied : Peer → Type 0
IsSupplied p = IsResidue p.drem × All IsPackage p.incoming

abbrev pub Gives : ℕ → Peer → List ℕ → List ℕ → List ℕ → Type 0
Gives fuel p done tail stream =
    (p' : Peer) × (receive_loop fuel p (done ++ tail) (length done)
      ≡ some (filled (done ++ take (length tail) stream) p'))
    × (pending p' ≡ drop (length tail) stream)
    × IsSupplied p'
    × (p'.outgoing ≡ p.outgoing)
    × (p'.die ≡ p.die)

whole :
    (done tail c : List ℕ)
    → length c ≤ length tail
    → fill (done ++ tail) (length done) c ≡ (done ++ c) ++ drop (length c) tail
unfolding fill copy_to
whole done tail c fits =
    let room : leb (length c) (length (done ++ tail) - length done) ≡ true =
      ground (arith, length-append done tail) in
    rw room (
      ap₂ (λ a b. a ++ (c ++ b)) (take-append_at done tail) (drop-append_past done (length c) tail)
      ∙ sym (append_assoc done c (drop (length c) tail)))

part :
    (done tail c : List ℕ)
    → length tail < length c
    → fill (done ++ tail) (length done) c ≡ done ++ take (length tail) c
unfolding fill copy_to
part done tail c more =
    let left : length (done ++ tail) - length done ≡ length tail =
      omega (arith, length-append done tail) in
    let room : leb (length c) (length tail) ≡ false = ground arith in
    let taken : length (take (length tail) c) ≡ length tail =
      length-take (length tail) c (omega arith) in
    rw left (
      rw room (
        rw taken (
          ap₂ (λ a b. a ++ (take (length tail) c ++ b)) (take-append_at done tail)
            (drop-append_past done (length tail) tail ∙ drop-all (length tail) tail refl)
          ∙ ap (λ r. done ++ r) (append-nil (take (length tail) c)))))

kept_lem :
    (p : Peer) (done tail c : List ℕ)
    → length tail < length c
    → keep_residue (done ++ tail) (length done) c p
      ≡ record p { drem = some (drop (length tail) c) }
unfolding keep_residue
kept_lem p done tail c more =
    let left : length (done ++ tail) - length done ≡ length tail =
      omega (arith, length-append done tail) in
    let room : leb (length c) (length tail) ≡ false = ground arith in rw left (rw room refl)

kept_none :
    (p : Peer) (done tail c : List ℕ)
    → length c ≤ length tail
    → keep_residue (done ++ tail) (length done) c p ≡ p
unfolding keep_residue
kept_none p done tail c le =
    let room : leb (length c) (length (done ++ tail) - length done) ≡ true =
      ground (arith, length-append done tail) in
    rw room refl

-- One round of the loop that finds a chunk.
round :
    (fuel : ℕ) (p p' : Peer) (done tail c : List ℕ)
    → 0 < length tail
    → next_chunk p ≡ chunk c p'
    → receive_loop (suc fuel) p (done ++ tail) (length done)
      ≡ receive_loop fuel
          (keep_residue (done ++ tail) (length done) c p')
          (fill (done ++ tail) (length done) c)
          (u32 (length done + length c))
unfolding receive_loop
round fuel p p' done tail c room got =
    let more : ltb (length done) (length (done ++ tail)) ≡ true =
      ground (arith, length-append done tail) in
    rw (more, receive_loop) (rw got refl)

pub finish :
    (fuel : ℕ) (p : Peer) (buffer : List ℕ) (ldata : ℕ)
    → length buffer ≤ ldata
    → receive_loop (suc fuel) p buffer ldata ≡ some (filled buffer p)
unfolding receive_loop
finish fuel p buffer ldata h =
    let full : ltb ldata (length buffer) ≡ false = ground arith in rw (full, receive_loop) refl

-- A chunk that has more than the buffer needs.
pub over :
    (fuel : ℕ) (p p' : Peer) (done tail c : List ℕ)
    → next_chunk p ≡ chunk c p'
    → p'.drem ≡ none
    → length c < 2 ^ 31
    → All IsPackage p'.incoming
    → length (done ++ tail) < 2 ^ 31
    → 0 < length tail
    → length tail < length c
    → (p'.outgoing ≡ p.outgoing) × (p'.die ≡ p.die)
    → Gives (suc (suc fuel)) p done tail (c ++ concat (map bytes p'.incoming))
over fuel p p' done tail c got none_left short supplied small room more same =
    let n = length tail in
    let buffer = done ++ tail in
    let kept : Peer = record p' { drem = some (drop n c) } in
    let keeps : keep_residue buffer (length done) c p' ≡ kept = kept_lem p' done tail c more in
    let sum : u32 (length done + length c) ≡ length done + length c =
      omega (arith, length-append done tail) in
    let full : length (done ++ take n c) ≤ length done + length c =
      omega (arith, length-append done (take n c), length-take n c (omega arith)) in
    let later = concat (map bytes p'.incoming) in
    (
      kept,
      round (suc fuel) p p' done tail c room got
          ∙ ap₂ (λ k b. receive_loop (suc fuel) k b (u32 (length done + length c))) keeps
              (part done tail c more)
          ∙ ap (receive_loop (suc fuel) kept (done ++ take n c)) sum
          ∙ finish fuel kept (done ++ take n c) (length done + length c) full
          ∙ ap (λ b. some (filled (done ++ b) kept))
              (sym (take-append_below n c later (omega arith))),
      sym (drop-append_below n c later (omega arith)),
      (omega (arith, length-drop n c), supplied),
      same.0,
      same.1,
    )

-- A chunk that fits: the loop goes on with the rest of the buffer.
pub fits :
    (fuel : ℕ) (p p' : Peer) (done tail c : List ℕ) (later : List ℕ)
    → next_chunk p ≡ chunk c p'
    → length (done ++ tail) < 2 ^ 31
    → 0 < length tail
    → length c ≤ length tail
    → (p'.outgoing ≡ p.outgoing) × (p'.die ≡ p.die)
    → Gives fuel p' (done ++ c) (drop (length c) tail) later
    → Gives (suc fuel) p done tail (c ++ later)
fits fuel p p' done tail c later got small room le same (q, ran, rest, supplied, o, d) =
    let k = length c in
    let buffer = done ++ tail in
    let keeps : keep_residue buffer (length done) c p' ≡ p' = kept_none p' done tail c le in
    let sum : u32 (length done + k) ≡ length (done ++ c) =
      omega (arith, length-append done tail, length-append done c) in
    let count : length tail ≡ k + length (drop k tail) = omega (arith, length-drop k tail) in
    (
      q,
      round fuel p p' done tail c room got
          ∙ ap₂ (λ r b. receive_loop fuel r b (u32 (length done + k))) keeps (whole done tail c le)
          ∙ ap (receive_loop fuel p' ((done ++ c) ++ drop k tail)) sum
          ∙ ran
          ∙ ap (λ b. some (filled b q))
              (append_assoc done c (take (length (drop k tail)) later)
                ∙ ap (λ b. done ++ b)
                    (sym (
                      ap (λ m. take m (c ++ later)) count
                      ∙ take-append_past c (length (drop k tail)) later))),
      rest
          ∙ sym (
              ap (λ m. drop m (c ++ later)) count
              ∙ drop-append_past c (length (drop k tail)) later),
      supplied,
      o ∙ same.0,
      d ∙ same.1,
    )
