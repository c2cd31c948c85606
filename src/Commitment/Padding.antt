-- ===== src/Commitment/Padding.antt =====
-- The block that `sha512_hash` builds is the padding of SHA-512.
use empirical_zero_knowledge.Prelude.{
  ℕ, zero, suc, ◌+◌, ◌-◌, ◌*◌, ◌/◌, ◌%◌, ◌≤◌, ◌≡◌, refl, sym, ap, ap₂, ◌∙◌, Bool-cases, inl, inr,
  true, false, List, [], ◌∷◌, ◌++◌, leb, length, take, drop, replicate, length-append,
  length-replicate, length-drop, append_assoc, take-append_below, drop-append_below, take-all,
  drop-all, drop-drop, replicate_add, arith, ◌<◌,
}
use empirical_zero_knowledge.Commitment.{initial, hash_loop, length_bytes, last_block, sha512_hash}

module _ (compress : List ℕ → List ℕ → List ℕ) where
  -- The padded message of the standard: the byte 0x80, zeros up to 112 modulo 128, and the bit
  -- length in 16 bytes, of which the upper 8 are zero here.
  abbrev pub pad : List ℕ → List ℕ
  pad message =
      let len = length message in
      message ++ 0x80 ∷ (replicate ((239 - len % 128) % 128 + 8) 0 ++ length_bytes len)

  -- The hash of the standard: every block of the padded message is compressed in turn.
  unfoldable pub standard : List ℕ → List ℕ
  standard message =
      let padded = pad message in hash_loop compress (length padded / 128) initial padded

  hash_loop-append :
      (n k : ℕ) (h xs ys : List ℕ)
      → n * 128 ≤ length xs
      → hash_loop compress (n + k) h (xs ++ ys)
        ≡ hash_loop compress k (hash_loop compress n h xs) (drop (n * 128) xs ++ ys)
  unfolding hash_loop
  hash_loop-append zero k h xs ys le = let same : 0 + k ≡ k = omega arith in rw same refl
  hash_loop-append (suc n) k h xs ys le =
      let above : suc n + k ≡ suc (n + k) = omega arith in
      let further : 128 + n * 128 ≡ suc n * 128 = omega arith in
      ap (λ m. hash_loop compress m h (xs ++ ys)) above
      ∙ ap₂ (λ a b. hash_loop compress (n + k) (compress h a) b)
          (take-append_below 128 xs ys (omega arith)) (drop-append_below 128 xs ys (omega arith))
      ∙ hash_loop-append n k (compress h (take 128 xs)) (drop 128 xs) ys
          (omega (arith, length-drop 128 xs))
      ∙ ap (λ d. hash_loop compress k (hash_loop compress (suc n) h xs) (d ++ ys))
          (drop-drop (n * 128) 128 xs ∙ ap (λ m. drop m xs) further)

  module _ (h : List ℕ) where
    one_block : (a : List ℕ) → length a ≡ 128 → hash_loop compress 1 h a ≡ compress h a
    unfolding hash_loop
    one_block a e = ap (compress h) (take-all 128 a e)

    two_blocks :
        (a b : List ℕ)
        → length a ≡ 128
        → length b ≡ 128
        → hash_loop compress 2 h (a ++ b) ≡ compress (compress h a) b
    unfolding hash_loop
    two_blocks a b e f =
        rw
          (
            take-append_below 128 a b (omega arith),
            drop-append_below 128 a b (omega arith),
            take-all 128 a e,
            drop-all 128 a e,
          )
          (ap (compress (compress h a)) (take-all 128 b f))

  module _ (message : List ℕ) where
    abbrev len : ℕ
    len = length message

    abbrev whole : ℕ
    whole = len / 128

    abbrev left : List ℕ
    left = drop (whole * 128) message

    abbrev hash : List ℕ
    hash = hash_loop compress whole initial message

    abbrev rem : ℕ
    rem = len - whole * 128 + 1

    length-left : length left ≡ len - whole * 128
    length-left = length-drop (whole * 128) message

    -- The blocks behind the whole ones.
    standard-blocks :
        (k : ℕ)
        → length (pad message) / 128 ≡ whole + k
        → standard message
          ≡ hash_loop compress k hash
              (left ++ 0x80 ∷ (replicate ((239 - len % 128) % 128 + 8) 0 ++ length_bytes len))
    unfolding standard
    standard-blocks k count = rw count (hash_loop-append whole k initial message _ (omega arith))

    length-length_bytes : length (length_bytes len) ≡ 8
    unfolding length_bytes
    length-length_bytes = refl

    length-last_block : length (last_block len) ≡ 128
    unfolding last_block
    length-last_block = omega (
      arith,
      length-append (replicate 120 0) (length_bytes len),
      length-replicate {A = ℕ} 120 0,
      length-length_bytes,
    )

    abbrev zeros : ℕ
    zeros = (239 - len % 128) % 128 + 8

    abbrev tail : List ℕ
    tail = 0x80 ∷ (replicate zeros 0 ++ length_bytes len)

    length-tail : length tail ≡ zeros + 9
    length-tail = omega (
      arith,
      length-append (replicate zeros 0) (length_bytes len),
      length-replicate {A = ℕ} zeros 0,
      length-length_bytes,
    )

    length-pad : length (pad message) ≡ len + zeros + 9
    length-pad = omega (arith, length-append message tail, length-tail)

    one :
        leb 16 (128 - rem) ≡ true
        → standard message
          ≡ compress hash ((left ++ 0x80 ∷ []) ++ (replicate (120 - rem) 0 ++ length_bytes len))
    one e =
        let room : rem ≤ 112 = ground arith in
        let same : zeros ≡ 120 - rem = omega arith in
        let full : length (left ++ tail) ≡ 128 =
          omega (arith, length-append left tail, length-tail, length-left) in
        standard-blocks 1 (omega (arith, length-pad))
        ∙ one_block hash (left ++ tail) full
        ∙ ap (compress hash) (
            ap (λ z. left ++ 0x80 ∷ (replicate z 0 ++ length_bytes len)) same
            ∙ sym (append_assoc left (0x80 ∷ []) _))

    two :
        leb 16 (128 - rem) ≡ false
        → standard message
          ≡ compress
              (compress hash ((left ++ 0x80 ∷ []) ++ replicate (128 - rem) 0))
              (last_block len)
    unfolding last_block
    two e =
        let room : 112 < rem = ground arith in
        let same : zeros ≡ 128 - rem + 120 = omega arith in
        let first = (left ++ 0x80 ∷ []) ++ replicate (128 - rem) 0 in
        let full : length first ≡ 128 = omega (
          arith,
          length-append (left ++ 0x80 ∷ []) (replicate (128 - rem) 0),
          length-append left (0x80 ∷ []),
          length-replicate {A = ℕ} (128 - rem) 0,
          length-left,
        ) in
        let split : left ++ tail ≡ first ++ (replicate 120 0 ++ length_bytes len) =
          ap (λ z. left ++ 0x80 ∷ (replicate z 0 ++ length_bytes len)) same
          ∙ rw
              (
                replicate_add {A = ℕ} (128 - rem) 120 0,
                append_assoc (replicate (128 - rem) 0) (replicate 120 0) (length_bytes len),
              )
              (sym (append_assoc left (0x80 ∷ []) _)
                ∙ sym (append_assoc (left ++ 0x80 ∷ []) (replicate (128 - rem) 0) _)) in
        standard-blocks 2 (omega (arith, length-pad))
        ∙ ap (hash_loop compress 2 hash) split
        ∙ two_blocks hash first _ full length-last_block

  -- The code computes the SHA-512 hash of the standard, over the same compression function.
  pub sha512_hash-standard : (message : List ℕ) → sha512_hash compress message ≡ standard message
  unfolding sha512_hash
  sha512_hash-standard message = elim (Bool-cases (leb 16 (128 - rem message))) [
    | inl e ↦ rw e (sym (one message e))
    | inr e ↦ rw e (sym (two message e))
  ]
