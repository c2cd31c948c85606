-- ===== src/Protocol/Xor.antt =====
-- The bits of an exclusive or of byte arrays, and the parity of bits at some indices.
use empirical_zero_knowledge.Prelude.{
  ℕ, zero, suc, ◌-◌, ◌*◌, ◌/◌, ◌<◌, bit_xor, ◌≡◌, refl, Bool, false, xor, some, List, [], ◌∷◌,
  length, get_or, All, IsBytes, digit-bit_xor, digit-lt, bit_xor-lt, arith,
}
use empirical_zero_knowledge.BitString.{test_bit}
use empirical_zero_knowledge.BitString.Laws.{bit_at, get_bit-eq-bit_at, test_bit-digit}
use empirical_zero_knowledge.LinearProof.{xor_bits}
use empirical_zero_knowledge.Protocol.{xor_bytes}

test_bit-bit_xor :
    (a b k : ℕ)
    → a < 256
    → b < 256
    → k < 8
    → test_bit (bit_xor a b) k ≡ xor (test_bit a k) (test_bit b k)
unfolding xor
test_bit-bit_xor a b k ha hb hk =
    rw
      (
        test_bit-digit (bit_xor a b) k (bit_xor-lt 8 a b ha hb) hk,
        test_bit-digit a k ha hk,
        test_bit-digit b k hb hk,
      )
      (ground (arith, digit-bit_xor k a b, digit-lt k a, digit-lt k b))

pub length-xor_bytes :
    (xs ys : List ℕ) → length xs ≡ length ys → length (xor_bytes xs ys) ≡ length ys
unfolding xor_bytes
length-xor_bytes [] ys h = h
length-xor_bytes (x ∷ xs) [] h = absurd (omega arith)
length-xor_bytes (x ∷ xs) (y ∷ ys) h = omega (arith, length-xor_bytes xs ys (omega arith))

byte_test :
    (xs ys : List ℕ) (n k : ℕ)
    → IsBytes xs
    → IsBytes ys
    → length xs ≡ length ys
    → k < 8
    → test_bit (get_or (xor_bytes xs ys) n 0) k
      ≡ xor (test_bit (get_or xs n 0) k) (test_bit (get_or ys n 0) k)
unfolding xor_bytes
byte_test [] [] n k hx hy h small = test_bit-bit_xor 0 0 k (omega arith) (omega arith) small
byte_test [] (y ∷ ys) n k hx hy h small = absurd (omega arith)
byte_test (x ∷ xs) [] n k hx hy h small = absurd (omega arith)
byte_test (x ∷ xs) (y ∷ ys) zero k hx hy h small = test_bit-bit_xor x y k hx.0 hy.0 small
byte_test (x ∷ xs) (y ∷ ys) (suc n) k hx hy h small =
    byte_test xs ys n k hx.1 hy.1 (omega arith) small

pub bit_at-xor_bytes :
    (xs ys : List ℕ) (i : ℕ)
    → IsBytes xs
    → IsBytes ys
    → length xs ≡ length ys
    → bit_at (xor_bytes xs ys) i ≡ xor (bit_at xs i) (bit_at ys i)
unfolding bit_at
bit_at-xor_bytes xs ys i hx hy h = byte_test xs ys (i / 8) (i - i / 8 * 8) hx hy h (omega arith)

-- The exclusive or of an assignment's bits at some indices.
unfoldable pub parity : (ℕ → Bool) → List ℕ → Bool
parity s [] = false
parity s (i ∷ is) = xor (s i) (parity s is)

pub xor_bits-parity :
    (m : List ℕ) (is : List ℕ) (acc : Bool)
    → All (λ i. i < 8 * length m) is
    → xor_bits m is acc ≡ some (xor acc (parity (bit_at m) is))
unfolding xor_bits parity xor
xor_bits-parity m [] acc range = ground arith
xor_bits-parity m (i ∷ is) acc range =
    rw (get_bit-eq-bit_at m i range.0, xor_bits-parity m is (xor acc (bit_at m i)) range.1)
      (ground arith)

-- Parity is linear.
pub parity-xor :
    (s t u : ℕ → Bool) (is : List ℕ)
    → ((i : ℕ) → u i ≡ xor (s i) (t i))
    → parity u is ≡ xor (parity s is) (parity t is)
unfolding parity xor
parity-xor s t u [] e = refl
parity-xor s t u (i ∷ is) e = rw (e i, parity-xor s t u is e) (ground arith)
