-- ===== src/Commitment.antt =====
-- The commitment scheme over SHA-512 of `empiricalZK/rtz14/src/commitment.c`. The compression
-- function of `sha512c.c` is the parameter `compress`: from eight words and a block of 128 bytes
-- it makes eight words. `random` stands for the 16 bytes that the random source gives.
pub mod Padding
pub mod Opening
use empirical_zero_knowledge.Prelude.{
  ℕ, zero, suc, ◌+◌, ◌-◌, ◌*◌, ◌/◌, ◌%◌, ◌^◌, Bool, true, false, List, [], ◌∷◌, ◌++◌, ◌==◌, leb,
  ltb, u32, Option, none, some, ◌>>=◌, if◌then◌else◌, length, get_or, take, drop, replicate,
}

abbrev pub initial : List ℕ
initial =
    0x6A09E667F3BCC908 ∷ 0xBB67AE8584CAA73B ∷ 0x3C6EF372FE94F82B ∷ 0xA54FF53A5F1D36F1
    ∷ 0x510E527FADE682D1 ∷ 0x9B05688C2B3E6C1F ∷ 0x1F83D9ABFB41BD6B ∷ 0x5BE0CD19137E2179 ∷ []

-- `ull2bs`: the eight bytes of a word, highest first; a mask and shift is a quotient and a
-- remainder.
abbrev pub ull2bs : ℕ → List ℕ
ull2bs u =
    u / 2 ^ 56 % 256
    ∷ u / 2 ^ 48 % 256
    ∷ u / 2 ^ 40 % 256
    ∷ u / 2 ^ 32 % 256
    ∷ u / 2 ^ 24 % 256
    ∷ u / 2 ^ 16 % 256
    ∷ u / 2 ^ 8 % 256
    ∷ u % 256
    ∷ []

unfoldable pub ulls2bs : List ℕ → List ℕ
ulls2bs [] = []
ulls2bs (u ∷ us) = ull2bs u ++ ulls2bs us

-- The loop that `sha512_open` compares with: every byte is tested in turn, up to the first that
-- differs, in lists of the same length.
unfoldable pub same_bytes : List ℕ → List ℕ → Bool
same_bytes [] [] = true
same_bytes [] (y ∷ ys) = false
same_bytes (x ∷ xs) [] = false
same_bytes (x ∷ xs) (y ∷ ys) = if x == y then same_bytes xs ys else false

-- `block[120..127]`: the bit length, highest byte first.
unfoldable pub length_bytes : ℕ → List ℕ
length_bytes len = ull2bs (len * 8 % 2 ^ 64)

-- The block that holds nothing but the bit length.
unfoldable pub last_block : ℕ → List ℕ
last_block len = replicate 120 0 ++ length_bytes len

-- A message and 16 bytes behind it, in a buffer whose length is cut to a `uint`: where it is, the copy
-- runs over the end of the buffer.
unfoldable pub message_and_random : List ℕ → List ℕ → Option (List ℕ)
message_and_random msg random =
    if ltb (u32 (length msg + 16)) (length msg + 16) then none else some (msg ++ random)

module _ (compress : List ℕ → List ℕ → List ℕ) where
  -- The loop over the whole blocks of the message, `n` of them.
  unfoldable pub hash_loop : ℕ → List ℕ → List ℕ → List ℕ
  hash_loop zero hash message = hash
  hash_loop (suc n) hash message = hash_loop n (compress hash (take 128 message)) (drop 128 message)

  -- `sha512_hash`: the rest of the message, the byte 0x80, zeros and the bit length, in one block
  -- if at least 16 bytes are left for the length, in two blocks otherwise.
  unfoldable pub sha512_hash : List ℕ → List ℕ
  unfolding hash_loop
  sha512_hash message =
      let len = length message in
      let i = len / 128 * 128 in
      let hash = hash_loop (len / 128) initial message in
      let block = drop i message ++ 0x80 ∷ [] in
      let rem = len - i + 1 in
      if leb 16 (128 - rem)
      then compress hash (block ++ (replicate (120 - rem) 0 ++ length_bytes len))
      else compress (compress hash (block ++ replicate (128 - rem) 0)) (last_block len)

  -- `sha512_commit`: the hash of message and randomness, then the randomness.
  unfoldable pub sha512_commit : List ℕ → List ℕ → Option (List ℕ)
  unfolding sha512_hash ulls2bs message_and_random
  sha512_commit random msg =
      message_and_random msg random >>= λ m. some (ulls2bs (sha512_hash m) ++ random)

  -- `sha512_open`: the 64 bytes of the hash are compared, from the randomness in the commitment.
  unfoldable pub sha512_open : List ℕ → List ℕ → Option Bool
  unfolding sha512_hash ulls2bs same_bytes message_and_random
  sha512_open cmt msg = message_and_random msg (take 16 (drop 64 cmt)) >>= λ m.
      some (same_bytes (take 64 cmt) (ulls2bs (sha512_hash m)))
