-- ===== src/Prelude/Digits.antt =====
-- The binary digits of an exclusive or, at every width.
use Prim.Native.Nat.{
  ℕ, zero, suc, ◌+◌, ◌-◌, ◌*◌, ◌/◌, ◌%◌, ◌^◌, ◌≤◌, ◌<◌, bit_xor, digits, bit_xor-bitwise, differ,
}
use mathlib.Core.Path.{◌≡◌, refl, ap, ◌∙◌}
use native.Mathlib.Omega.{arith}
use native.Mathlib.Nat.{pow-suc}

-- The recursion that `bit_xor` stands for, on fuel.
abbrev xor_fuel : ℕ → ℕ → ℕ → ℕ
xor_fuel fuel x y = digits (λ rest. rest) differ fuel x y

xor_fuel_zero : (fuel y : ℕ) → xor_fuel fuel 0 y ≡ y
xor_fuel_zero zero y = refl
xor_fuel_zero (suc fuel) y = refl

-- Fuel above the first argument changes nothing.
spare_fuel : (fuel more x y : ℕ) → x ≤ fuel → xor_fuel (fuel + more) x y ≡ xor_fuel fuel x y
spare_fuel fuel more zero y le = rw (xor_fuel_zero (fuel + more) y, xor_fuel_zero fuel y)
spare_fuel zero more (suc x) y le = absurd (omega arith)
spare_fuel (suc fuel) more (suc x) y le =
    let above : suc fuel + more ≡ suc (fuel + more) = omega arith in
    ap (λ n. xor_fuel n (suc x) y) above
    ∙ ap (λ v. v * 2 + differ (suc x % 2) (y % 2))
        (spare_fuel fuel more (suc x / 2) (y / 2) (omega arith))

differ_bits : (x y : ℕ) → x < 2 → y < 2 → differ x y ≡ (x + y) % 2
differ_bits zero y h k = omega arith
differ_bits (suc zero) zero h k = refl
differ_bits (suc zero) (suc zero) h k = refl
differ_bits (suc zero) (suc (suc y)) h k = absurd (omega arith)
differ_bits (suc (suc x)) y h k = absurd (omega arith)

pub bit_xor_step : (a b : ℕ) → bit_xor a b ≡ bit_xor (a / 2) (b / 2) * 2 + (a % 2 + b % 2) % 2
bit_xor_step zero b = simp bit_xor-bitwise (omega arith)
bit_xor_step (suc a) b =
    let half = suc a / 2 in
    let spare = a - half in
    let whole : half + spare ≡ a = omega arith in
    let low = differ_bits (suc a % 2) (b % 2) (omega arith) (omega arith) in
    simp bit_xor-bitwise (
      omega (
        arith,
        low,
        spare_fuel half spare half (b / 2) (omega arith),
        ap (λ n. xor_fuel n half (b / 2)) whole,
      ))

-- The digit of weight `2 ^ k`.
unfoldable pub digit : ℕ → ℕ → ℕ
digit a zero = a % 2
digit a (suc k) = digit (a / 2) k

pub digit-bit_xor : (k a b : ℕ) → digit (bit_xor a b) k ≡ (digit a k + digit b k) % 2
unfolding digit
digit-bit_xor zero a b = omega (arith, bit_xor_step a b)
digit-bit_xor (suc k) a b =
    let half : bit_xor a b / 2 ≡ bit_xor (a / 2) (b / 2) = omega (arith, bit_xor_step a b) in
    rw half (digit-bit_xor k (a / 2) (b / 2))

pub digit-lt : (k a : ℕ) → digit a k < 2
unfolding digit
digit-lt zero a = omega arith
digit-lt (suc k) a = digit-lt k (a / 2)

pub bit_xor-lt : (k a b : ℕ) → a < 2 ^ k → b < 2 ^ k → bit_xor a b < 2 ^ k
bit_xor-lt zero a b h k =
    let p : a ≡ 0 = omega arith in let q : b ≡ 0 = omega arith in rw (p, q) (omega arith)
bit_xor-lt (suc k) a b p q = omega (
  arith,
  pow-suc 2 k,
  bit_xor_step a b,
  bit_xor-lt k (a / 2) (b / 2) (omega (arith, pow-suc 2 k)) (omega (arith, pow-suc 2 k)),
)
