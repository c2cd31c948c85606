-- ===== src/Encoding/Integer.antt =====
-- Integers in bytes: `i2b`, `b2i` and `atoui` (`common/encoding/src/encoding/int.c`), `l2b`, `b2l`
-- and the block operations of `platform/osal/src/common.c`. A number of type `int` is given by its
-- two's complement; the mask and shift that select a byte are a quotient and a remainder.
use empirical_zero_knowledge.Prelude.{
  ℕ, ◌+◌, ◌-◌, ◌*◌, ◌/◌, ◌%◌, ◌^◌, ◌<◌, ◌≡◌, ap, Bool-cases, inl, inr, ◌&&◌, Option, none, some,
  List, [], ◌∷◌, ◌==◌, leb, if◌then◌else◌, u32, arith,
}

unfoldable pub i2b : ℕ → List ℕ
i2b v = v / 2 ^ 24 % 256 ∷ v / 2 ^ 16 % 256 ∷ v / 2 ^ 8 % 256 ∷ v % 256 ∷ []

unfoldable pub b2i : List ℕ → Option ℕ
b2i (b0 ∷ b1 ∷ b2 ∷ b3 ∷ rest) = some (u32 (b0 * 2 ^ 24 + b1 * 2 ^ 16 + b2 * 2 ^ 8 + b3))
b2i _ = none

-- The loop of `atoui`: it reads while it sees digits, and gives the number of digits and the
-- number. It stops only at a character that is no digit.
unfoldable pub atoui_loop : List ℕ → ℕ → ℕ → Option (ℕ × ℕ)
atoui_loop [] result ls = none
atoui_loop (c ∷ s) result ls =
    let rest = atoui_loop s (u32 (u32 (result * 10) + (c - 48))) (ls + 1) in
    if leb 48 c && leb c 57 then rest else some (ls, result)

unfoldable pub atoui : List ℕ → Option (ℕ × ℕ)
unfolding atoui_loop
atoui s = atoui_loop s 0 0

-- Lowest byte first.
unfoldable pub l2b : ℕ → List ℕ
l2b l =
    l % 256
    ∷ l / 2 ^ 8 % 256
    ∷ l / 2 ^ 16 % 256
    ∷ l / 2 ^ 24 % 256
    ∷ l / 2 ^ 32 % 256
    ∷ l / 2 ^ 40 % 256
    ∷ l / 2 ^ 48 % 256
    ∷ l / 2 ^ 56 % 256
    ∷ []

-- `in[3] << 24` is an `int`: from 128 on it is negative, and adds `2 ^ 64 - 2 ^ 32` more.
abbrev fourth : ℕ → ℕ
fourth b = if leb 128 b then b * 2 ^ 24 + (2 ^ 64 - 2 ^ 32) else b * 2 ^ 24

unfoldable pub b2l : List ℕ → Option ℕ
b2l (b0 ∷ b1 ∷ b2 ∷ b3 ∷ b4 ∷ b5 ∷ b6 ∷ b7 ∷ rest) = some (
    (b0
      + b1 * 2 ^ 8
      + b2 * 2 ^ 16
      + fourth b3
      + b4 * 2 ^ 32
      + b5 * 2 ^ 40
      + b6 * 2 ^ 48
      + b7 * 2 ^ 56)
    % 2 ^ 64)
b2l _ = none

-- The four bytes of an integer below `2 ^ 32`, highest first, are read back as the integer.
pub b2i-i2b : (v : ℕ) → v < 2 ^ 32 → b2i (i2b v) ≡ some v
unfolding b2i i2b
b2i-i2b v h = ap some (omega arith)

-- The eight bytes of a number are read back as the number if its bit 31 is 0; if that bit is 1,
-- the result is too small by `2 ^ 32`, modulo `2 ^ 64`.
pub b2l-l2b :
    (l : ℕ)
    → l < 2 ^ 64
    → b2l (l2b l) ≡ some (if l / 2 ^ 31 % 2 == 1 then (l + (2 ^ 64 - 2 ^ 32)) % 2 ^ 64 else l)
unfolding b2l l2b
b2l-l2b l h = elim (Bool-cases (leb 128 (l / 2 ^ 24 % 256))) [
  | inl e ↦ rw e (ap some (ground arith))
  | inr e ↦ rw e (ap some (ground arith))
]
