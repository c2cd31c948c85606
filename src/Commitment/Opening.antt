-- ===== src/Commitment/Opening.antt =====
-- What an opening of a commitment shows.
use empirical_zero_knowledge.Prelude.{
  ℕ, ◌+◌, ◌-◌, ◌*◌, ◌/◌, ◌≡◌, refl, sym, ◌↔◌, ◌∙◌, ap, ap₂, Bool, true, false, some, ltb, u32, ◌^◌,
  ◌<◌, Bool-cases, inl, inr, List, [], ◌∷◌, ◌++◌, ◌==◌, ==_iff, ==_refl, leb, length, take, drop,
  length-append, take-append_below, drop-append_below, take-all, drop-all, arith,
}
use empirical_zero_knowledge.Commitment.{
  sha512_hash, sha512_commit, sha512_open, ulls2bs, ull2bs, same_bytes, message_and_random,
}

same_bytes_refl : (xs : List ℕ) → same_bytes xs xs ≡ true
unfolding same_bytes
same_bytes_refl [] = refl
same_bytes_refl (x ∷ xs) = rw (==_refl x) (same_bytes_refl xs)

same_bytes→eq : (xs ys : List ℕ) → same_bytes xs ys ≡ true → xs ≡ ys
unfolding same_bytes
same_bytes→eq [] [] h = refl
same_bytes→eq [] (y ∷ ys) h = ground arith
same_bytes→eq (x ∷ xs) [] h = ground arith
same_bytes→eq (x ∷ xs) (y ∷ ys) h =
    let (head, rest) : ((x == y) ≡ true) × (same_bytes xs ys ≡ true) = ground arith in
    ap₂ (λ a b. a ∷ b) ((==_iff x y).0 head) (same_bytes→eq xs ys rest)

length-ulls2bs : (us : List ℕ) → length (ulls2bs us) ≡ 8 * length us
unfolding ulls2bs
length-ulls2bs [] = omega arith
length-ulls2bs (u ∷ us) = omega (arith, length-append (ull2bs u) (ulls2bs us), length-ulls2bs us)

message_and_random_lem :
    (msg random : List ℕ)
    → length msg < 2 ^ 32 - 16
    → message_and_random msg random ≡ some (msg ++ random)
unfolding message_and_random
message_and_random_lem msg random few =
    let fits : ltb (u32 (length msg + 16)) (length msg + 16) ≡ false = ground arith in rw fits refl

-- The compression function makes eight words.
abbrev pub MakesEight : (List ℕ → List ℕ → List ℕ) → Type 0
MakesEight compress = (hash block : List ℕ) → length (compress hash block) ≡ 8

module _ (compress : List ℕ → List ℕ → List ℕ) where
  length-sha512_hash :
      MakesEight compress → (message : List ℕ) → length (sha512_hash compress message) ≡ 8
  unfolding sha512_hash
  length-sha512_hash eight message =
      let rem = length message - length message / 128 * 128 + 1 in
      elim (Bool-cases (leb 16 (128 - rem))) [ inl e ↦ rw e (eight _ _) | inr e ↦ rw e (eight _ _) ]

  -- The bytes of the hash of a message with its randomness.
  abbrev pub digest : List ℕ → List ℕ → List ℕ
  digest random msg = ulls2bs (sha512_hash compress (msg ++ random))

  -- For a compression function that makes eight words and messages of fewer than 2 ^ 32 - 16 bytes,
  -- a message is committed to with 16 bytes of randomness, and the opening to any message ends with
  -- acceptance exactly if that message and the committed one have the same hash under that
  -- randomness, and with rejection otherwise.
  pub sha512_open-sha512_commit :
      (random msg other : List ℕ)
      → MakesEight compress
      → length random ≡ 16
      → length msg < 2 ^ 32 - 16
      → length other < 2 ^ 32 - 16
      → (cmt : List ℕ) × (accepts : Bool) × (sha512_commit compress random msg ≡ some cmt)
        × (sha512_open compress cmt other ≡ some accepts)
        × ((accepts ≡ true) ↔ (digest random msg ≡ digest random other))
  unfolding sha512_open sha512_commit
  sha512_open-sha512_commit random msg other eight sixteen few few_other =
      let whole : length (digest random msg) ≡ 64 = omega (
        arith,
        length-ulls2bs (sha512_hash compress (msg ++ random)),
        length-sha512_hash eight (msg ++ random),
      ) in
      let front : take 64 (digest random msg ++ random) ≡ digest random msg =
        take-append_below 64 (digest random msg) random (omega arith)
        ∙ take-all 64 (digest random msg) whole in
      let back : take 16 (drop 64 (digest random msg ++ random)) ≡ random =
        ap (take 16) (
          drop-append_below 64 (digest random msg) random (omega arith)
          ∙ ap (λ d. d ++ random) (drop-all 64 (digest random msg) whole))
        ∙ take-all 16 random sixteen in
      (
        digest random msg ++ random,
        same_bytes (digest random msg) (digest random other),
        rw (message_and_random_lem msg random few) refl,
        rw
            (message_and_random_lem other (take 16 (drop 64 (digest random msg ++ random)))
              few_other)
            (rw (front, back) refl),
        (
          same_bytes→eq _ _,
          λ e.
              ap (λ d. same_bytes (digest random msg) d) (sym e)
              ∙ same_bytes_refl (digest random msg),
        ),
      )
