-- ===== src/Arena/Stream.antt =====
-- What `receive` gives its client: the packages lose their borders and become one stream of bytes
-- (`common/carena/src/carena.c`).
use empirical_zero_knowledge.Prelude.{
  ℕ, zero, suc, ◌+◌, ◌^◌, ◌<◌, ◌≤◌, ◌≡◌, refl, sym, Bool, Option, none, some, List, [], ◌∷◌, ◌++◌,
  length, take, drop, concat, map, All, arith, length-append, length-drop,
}
use native.Mathlib.Decide.{dec_lt}
use empirical_zero_knowledge.Arena.{Peer, filled, chunk, next_chunk, receive}
use empirical_zero_knowledge.Arena.Chunks.{
  bytes, pending, IsPackage, IsResidue, IsSupplied, Gives, finish, over, fits,
}

done_lem :
    (fuel : ℕ) (p : Peer) (done : List ℕ) → IsSupplied p → Gives (suc fuel) p done [] (pending p)
done_lem fuel p done supplied =
    let full : length (done ++ []) ≤ length done =
      omega (arith, length-append {0} {A = ℕ} done []) in
    (p, finish fuel p (done ++ []) (length done) full, refl, supplied, refl, refl)

module _ (out : List (List ℕ)) (dying : Bool) where
  abbrev popped : List (Option (List ℕ)) → Peer
  popped inc = record { incoming = inc; outgoing = out; drem = none; die = dying }

  abbrev residual : List (Option (List ℕ)) → List ℕ → Peer
  residual inc c = record { incoming = inc; outgoing = out; drem = some c; die = dying }

  -- One chunk `c`, then the queue `inc`, by what holds for the queue.
  next_lem :
      (p : Peer) (inc : List (Option (List ℕ))) (c : List ℕ) (fuel : ℕ) (done tail : List ℕ)
      → next_chunk p ≡ chunk c (popped inc)
      → (p.outgoing ≡ out) × (p.die ≡ dying)
      → ((done tail : List ℕ)
          → length (done ++ tail) < 2 ^ 31
          → length tail ≤ length (concat (map bytes inc))
          → Gives (suc fuel) (popped inc) done tail (concat (map bytes inc)))
      → length c < 2 ^ 31
      → All IsPackage inc
      → length (done ++ tail) < 2 ^ 31
      → 0 < length tail
      → length tail ≤ length (c ++ concat (map bytes inc))
      → Gives (suc (suc fuel)) p done tail (c ++ concat (map bytes inc))
  next_lem p inc c fuel done tail got same rest short packages small room enough =
      let k = length c in
      elim (dec_lt (length tail) k) [
        | yes more ↦
            over fuel p (popped inc) done tail c got refl short packages small room more
              (sym same.0, sym same.1)
        | no le ↦
            fits (suc fuel) p (popped inc) done tail c (concat (map bytes inc)) got small room
              (omega arith) (sym same.0, sym same.1)
              (rest (done ++ c) (drop k tail)
                (omega (
                  arith,
                  length-append done tail,
                  length-append (done ++ c) (drop k tail),
                  length-append done c,
                  length-drop k tail,
                ))
                (omega (arith, length-append c (concat (map bytes inc)), length-drop k tail)))
      ]

  queue_lem :
      (inc : List (Option (List ℕ))) (fuel : ℕ) (done tail : List ℕ)
      → All IsPackage inc
      → length inc < fuel
      → length (done ++ tail) < 2 ^ 31
      → length tail ≤ length (concat (map bytes inc))
      → Gives fuel (popped inc) done tail (concat (map bytes inc))
  queue_lem inc zero done tail packages fueled small enough = absurd (omega arith)
  queue_lem inc (suc fuel) done [] packages fueled small enough =
      done_lem fuel (popped inc) done (tt, packages)
  queue_lem [] (suc fuel) done (t ∷ tail) packages fueled small enough = absurd (omega arith)
  queue_lem (none ∷ inc) (suc fuel) done (t ∷ tail) packages fueled small enough = absurd packages.0
  queue_lem (some c ∷ inc) (suc zero) done (t ∷ tail) packages fueled small enough =
      absurd (omega arith)
  queue_lem (some c ∷ inc) (suc (suc fuel)) done (t ∷ tail) packages fueled small enough =
      next_lem (popped (some c ∷ inc)) inc c fuel done (t ∷ tail) (got c inc) (refl, refl)
        (λ d r s e. queue_lem inc (suc fuel) d r packages.1 (omega arith) s e) packages.0 packages.1
        small (omega arith) enough
    where
      got :
          (c : List ℕ) (inc : List (Option (List ℕ)))
          → next_chunk (popped (some c ∷ inc)) ≡ chunk c (popped inc)
      got c inc = unfold next_chunk in refl

  residue_lem :
      (c : List ℕ) (inc : List (Option (List ℕ))) (fuel : ℕ) (tail : List ℕ)
      → length c < 2 ^ 31
      → All IsPackage inc
      → length inc < fuel
      → length tail < 2 ^ 31
      → length tail ≤ length (c ++ concat (map bytes inc))
      → Gives (suc fuel) (residual inc c) [] tail (c ++ concat (map bytes inc))
  residue_lem c inc zero tail short packages fueled small enough = absurd (omega arith)
  residue_lem c inc (suc fuel) [] short packages fueled small enough =
      done_lem (suc fuel) (residual inc c) [] (short, packages)
  residue_lem c inc (suc fuel) (t ∷ tail) short packages fueled small enough =
      next_lem (residual inc c) inc c fuel [] (t ∷ tail) (unfold next_chunk in refl) (refl, refl)
        (λ d r s e. queue_lem inc (suc fuel) d r packages (omega arith) s e) short packages small
        (omega arith) enough

by_residue :
    (d : Option (List ℕ)) (inc : List (Option (List ℕ))) (out : List (List ℕ)) (dying : Bool)
    (fuel : ℕ) (buffer : List ℕ)
    → IsResidue d
    → All IsPackage inc
    → length inc < fuel
    → length buffer < 2 ^ 31
    → length buffer ≤ length (bytes d ++ concat (map bytes inc))
    → Gives
        (suc fuel)
        (record { incoming = inc; outgoing = out; drem = d; die = dying })
        []
        buffer
        (bytes d ++ concat (map bytes inc))
by_residue none inc out dying fuel buffer residue packages fueled small enough =
    queue_lem out dying inc (suc fuel) [] buffer packages (omega arith) small enough
by_residue (some c) inc out dying fuel buffer residue packages fueled small enough =
    residue_lem out dying c inc fuel buffer residue packages fueled small enough

-- When the residue and the queue, all packages below `2 ^ 31` bytes, hold enough for a buffer of less
-- than `2 ^ 31` bytes, `receive` fills the whole buffer, without waiting, with the next bytes of the
-- stream, and the bytes after these are what is pending then, again in such packages. One round for
-- each package and two more are enough.
pub receive-pending :
    (fuel : ℕ) (p : Peer) (buffer : List ℕ)
    → IsSupplied p
    → length p.incoming + 1 < fuel
    → length buffer < 2 ^ 31
    → length buffer ≤ length (pending p)
    → (p' : Peer) × (receive fuel p buffer ≡ some (filled (take (length buffer) (pending p)) p'))
      × (pending p' ≡ drop (length buffer) (pending p))
      × IsSupplied p'
      × (p'.outgoing ≡ p.outgoing)
      × (p'.die ≡ p.die)
unfolding receive
receive-pending zero p buffer supplied fueled small enough = absurd (omega arith)
receive-pending (suc fuel) p buffer supplied fueled small enough =
    by_residue p.drem p.incoming p.outgoing p.die fuel buffer supplied.0 supplied.1 (omega arith)
      small enough
