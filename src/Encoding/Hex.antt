-- ===== src/Encoding/Hex.antt =====
-- Hexadecimal text (`common/encoding/src/encoding/hex.c`). A character is its code; `none` is a
-- read behind the end of the text or the bytes.
use empirical_zero_knowledge.Prelude.{
  ℕ, zero, suc, ◌+◌, ◌-◌, ◌*◌, ◌/◌, ◌%◌, ◌^◌, ◌<◌, ◌≡◌, refl, bit_and, true, ◌&&◌, Option, none,
  some, ◌>>=◌, List, [], ◌∷◌, ◌==◌, leb, ==_iff, if◌then◌else◌, length, get_or, u32, IsBytes,
  passes, passes_at, arith,
}

-- The three tests for one digit: 'a' to 'f', 'A' to 'F', '0' to '9'; another character counts 0.
abbrev digit_value : ℕ → ℕ
digit_value c =
    (if leb 97 c && leb c 102 then c - 97 + 10 else 0)
    + (if leb 65 c && leb c 70 then c - 65 + 10 else 0)
    + (if leb 48 c && leb c 57 then c - 48 else 0)

unfoldable pub h2b : ℕ → ℕ → ℕ
h2b h l = (digit_value h * 16 + digit_value l) % 256

-- "0123456789ABCDEFG"
abbrev hexchars : List ℕ
hexchars = 48 ∷ 49 ∷ 50 ∷ 51 ∷ 52 ∷ 53 ∷ 54 ∷ 55 ∷ 56 ∷ 57 ∷ 65 ∷ 66 ∷ 67 ∷ 68 ∷ 69 ∷ 70 ∷ 71 ∷ []

unfoldable pub b2h : ℕ → ℕ × ℕ
b2h b = (get_or hexchars (bit_and b 0xF0 / 2 ^ 4) 0, get_or hexchars (bit_and b 0x0F) 0)

hs_loop : ℕ → List ℕ → Option (List ℕ)
hs_loop zero hex = some []
hs_loop (suc n) [] = none
hs_loop (suc n) (h ∷ []) = none
hs_loop (suc n) (h ∷ l ∷ hex) = hs_loop n hex >>= λ rest. some (h2b h l ∷ rest)

-- `hs2bs` writes `lres` bytes; its bound `2 * lres` is a `uint`.
unfoldable pub hs2bs : List ℕ → ℕ → Option (List ℕ)
unfolding hs_loop
hs2bs hex lres = hs_loop (u32 (2 * lres) / 2) hex

bs_loop : ℕ → List ℕ → Option (List ℕ)
bs_loop zero bytes = some []
bs_loop (suc n) [] = none
bs_loop (suc n) (b ∷ bytes) = let (h, l) = b2h b in bs_loop n bytes >>= λ rest. some (h ∷ l ∷ rest)

-- `bs2hs` writes `lres` characters, two for each byte.
unfoldable pub bs2hs : List ℕ → ℕ → Option (List ℕ)
unfolding bs_loop
bs2hs bytes lres = bs_loop (lres / 2) bytes

digit_table : passes (λ b. h2b (b2h b).0 (b2h b).1 == b) 256 ≡ true
unfolding passes h2b b2h
digit_table = refl

-- The two digits of a byte are read back as the byte.
pub h2b-b2h : (b : ℕ) → b < 256 → h2b (b2h b).0 (b2h b).1 ≡ b
h2b-b2h b h = (==_iff _ b).0 (passes_at _ b 256 h digit_table)

hs_loop-bs_loop :
    (bytes : List ℕ)
    → IsBytes bytes
    → (hex : List ℕ) × (bs_loop (length bytes) bytes ≡ some hex)
      × (hs_loop (length bytes) hex ≡ some bytes)
unfolding hs_loop bs_loop
hs_loop-bs_loop [] h = ([], refl, refl)
hs_loop-bs_loop (b ∷ bytes) h =
    let (hex, written, read) = hs_loop-bs_loop bytes h.1 in
    ((b2h b).0 ∷ (b2h b).1 ∷ hex, rw written refl, rw (read, h2b-b2h b h.0) refl)

-- Bytes below 256 that are written as text and read again are the same bytes, if twice their
-- number is below `2 ^ 32`.
pub hs2bs-bs2hs :
    (bytes : List ℕ)
    → IsBytes bytes
    → 2 * length bytes < 2 ^ 32
    → (hex : List ℕ) × (bs2hs bytes (2 * length bytes) ≡ some hex)
      × (hs2bs hex (length bytes) ≡ some bytes)
unfolding hs2bs bs2hs
hs2bs-bs2hs bytes h small =
    let half : 2 * length bytes / 2 ≡ length bytes = omega arith in
    let same : u32 (2 * length bytes) / 2 ≡ length bytes = omega arith in
    rw (half, same) (hs_loop-bs_loop bytes h)
