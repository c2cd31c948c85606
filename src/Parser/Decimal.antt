-- ===== src/Parser/Decimal.antt =====
-- Decimal numbers, as `atoui` of `common/encoding/src/encoding/int.c` reads them.
use empirical_zero_knowledge.Prelude.{
  ℕ, zero, suc, ◌+◌, ◌-◌, ◌*◌, ◌/◌, ◌%◌, ◌^◌, ◌<◌, ◌≤◌, ◌≡◌, refl, ap, ◌∙◌, true, false, Bool-cases,
  inl, inr, ◌&&◌, some, List, [], ◌∷◌, ◌++◌, length, ltb, leb, if◌then◌else◌, u32, All, All-append,
  length-append, arith,
}
use empirical_zero_knowledge.Encoding.Integer.{atoui, atoui_loop}

-- The digits of a number, highest first, on fuel; there are fewer digits than the number has units.
unfoldable decimal_on : ℕ → ℕ → List ℕ
decimal_on zero n = []
decimal_on (suc fuel) n =
    let rest = decimal_on fuel (n / 10) in
    if ltb n 10 then (48 + n) ∷ [] else rest ++ (48 + n % 10) ∷ []

unfoldable pub decimal : ℕ → List ℕ
unfolding decimal_on
decimal n = decimal_on (suc n) n

abbrev pub IsDigit : ℕ → Type 0
IsDigit c = (48 ≤ c) × (c ≤ 57)

-- The number that digits add to `result`.
unfoldable value : List ℕ → ℕ → ℕ
value [] result = result
value (c ∷ s) result = value s (u32 (u32 (result * 10) + (c - 48)))

value-append :
    (s : List ℕ) (c result : ℕ)
    → value (s ++ c ∷ []) result ≡ u32 (u32 (value s result * 10) + (c - 48))
unfolding value
value-append [] c result = refl
value-append (d ∷ s) c result = value-append s c (u32 (u32 (result * 10) + (d - 48)))

value-decimal_on : (fuel n : ℕ) → n < fuel → n < 2 ^ 32 → value (decimal_on fuel n) 0 ≡ n
unfolding decimal_on
value-decimal_on zero n h small = absurd (omega arith)
value-decimal_on (suc fuel) n h small = elim (Bool-cases (ltb n 10)) [
  | inl one ↦ let lt : n < 10 = ground arith in rw one (unfold value in (omega arith))
  | inr more ↦
      let ge : 10 ≤ n = ground arith in
      rw (more, value-append (decimal_on fuel (n / 10)) (48 + n % 10) 0)
        (omega (arith, value-decimal_on fuel (n / 10) (omega arith) (omega arith)))
]

decimal_on-IsDigit : (fuel n : ℕ) → All IsDigit (decimal_on fuel n)
unfolding decimal_on
decimal_on-IsDigit zero n = tt
decimal_on-IsDigit (suc fuel) n = elim (Bool-cases (ltb n 10)) [
  | inl one ↦ let lt : n < 10 = ground arith in rw one ((omega arith, omega arith), tt)
  | inr more ↦ rw more (
      All-append IsDigit (decimal_on fuel (n / 10)) ((48 + n % 10) ∷ [])
        (decimal_on-IsDigit fuel (n / 10)) ((omega arith, omega arith), tt))
]

-- The digits end at a character that is none.
atoui_loop_lem :
    (s rest : List ℕ) (c result ls : ℕ)
    → All IsDigit s
    → (leb 48 c && leb c 57) ≡ false
    → atoui_loop (s ++ c ∷ rest) result ls ≡ some (ls + length s, value s result)
unfolding atoui_loop value
atoui_loop_lem [] rest c result ls digits stop = rw stop (ap (λ n. some (n, result)) (omega arith))
atoui_loop_lem (d ∷ s) rest c result ls digits stop =
    let digit = digits.0 in
    let is_digit : (leb 48 d && leb d 57) ≡ true = ground arith in
    let next = u32 (u32 (result * 10) + (d - 48)) in
    let longer : ls + 1 + length s ≡ ls + suc (length s) = omega arith in
    rw is_digit (
      atoui_loop_lem s rest c next (ls + 1) digits.1 stop ∙ ap (λ n. some (n, value s next)) longer)

pub atoui-decimal :
    (n c : ℕ) (rest : List ℕ)
    → n < 2 ^ 32
    → (leb 48 c && leb c 57) ≡ false
    → atoui (decimal n ++ c ∷ rest) ≡ some (length (decimal n), n)
unfolding atoui decimal
atoui-decimal n c rest small stop =
    let s = decimal_on (suc n) n in
    let counted : 0 + length s ≡ length s = omega arith in
    atoui_loop_lem s rest c 0 0 (decimal_on-IsDigit (suc n) n) stop
    ∙ ap (λ l. some (l, value s 0)) counted
    ∙ ap (λ v. some (length s, v)) (value-decimal_on (suc n) n (omega arith) small)

decimal_on-some : (fuel n : ℕ) → 0 < length (decimal_on (suc fuel) n)
unfolding decimal_on
decimal_on-some fuel n = elim (Bool-cases (ltb n 10)) [
  | inl one ↦ rw one (omega arith)
  | inr more ↦
      rw more (omega (arith, length-append (decimal_on fuel (n / 10)) ((48 + n % 10) ∷ [])))
]

pub decimal-some : (n : ℕ) → 0 < length (decimal n)
unfolding decimal
decimal-some n = decimal_on-some n n

pub decimal-IsDigit : (n : ℕ) → All IsDigit (decimal n)
unfolding decimal
decimal-IsDigit n = decimal_on-IsDigit (suc n) n
