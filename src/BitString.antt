-- ===== src/BitString.antt =====
-- Bit strings in byte arrays: `get_bit` and `set_bit`, which `empiricalZK/rtz14/src/emiter.c`,
-- `linear_proof.c` and `rtz14.c` each define. A bit that the code holds in a byte after a test
-- `!= 0` is a `Bool`. `none` is an access outside the array.
pub mod Laws
use empirical_zero_knowledge.Prelude.{
  ℕ, ◌+◌, ◌-◌, ◌*◌, ◌/◌, ◌^◌, bit_and, bit_or, Bool, not, Option, some, ◌>>=◌, List, ◌==◌,
  if◌then◌else◌, get_elem?, set,
}

-- `(b & (0x01 << k)) != 0`
unfoldable pub test_bit : ℕ → ℕ → Bool
test_bit b k = not (bit_and b (2 ^ k) == 0)

-- `~mask`, cut to a byte, is `255 - mask`.
unfoldable pub write_bit : ℕ → ℕ → Bool → ℕ
write_bit b k bit = let mask = 2 ^ k in if bit then bit_or b mask else bit_and b (255 - mask)

unfoldable pub get_bit : List ℕ → ℕ → Option Bool
get_bit bita idx = do
  let byte_idx = idx / 8
  let bit_idx = idx - byte_idx * 8
  b ← get_elem? bita byte_idx
  some (test_bit b bit_idx)

unfoldable pub set_bit : List ℕ → ℕ → Bool → Option (List ℕ)
set_bit bita idx bit = do
  let byte_idx = idx / 8
  let bit_idx = idx - byte_idx * 8
  b ← get_elem? bita byte_idx
  some (set bita byte_idx (write_bit b bit_idx bit))
