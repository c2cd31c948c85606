-- ===== src/Utf8/Points.antt =====
-- Code points in bytes and back, and the test of a whole text (`platform/osal/src/utf8string.c`).
use empirical_zero_knowledge.Prelude.{
  ℕ, ◌+◌, ◌/◌, ◌%◌, ◌^◌, ◌<◌, ◌≤◌, ◌≡◌, refl, ap, ◌∙◌, true, false, some, List, ◌∷◌, ◌++◌, ltb, leb,
  ◌&&◌, if◌then◌else◌, arith,
}
use empirical_zero_knowledge.Utf8.{
  code_point_length, utf8_value_code_point, value_of_length, utf8_code_point_value,
}
use native.Mathlib.Decide.{dec_lt}

length_one : (b : ℕ) → b < 0x80 → code_point_length b ≡ 1
unfolding code_point_length
length_one b h = ground arith

length_two : (x : ℕ) → x < 32 → code_point_length (0xC0 + x) ≡ (if leb 16 x then 0 else 2)
unfolding code_point_length
length_two x h = ground arith

length_three : (x : ℕ) → x < 16 → code_point_length (0xE0 + x) ≡ 3
unfolding code_point_length
length_three x h = ground arith

length_four : (x : ℕ) → x < 8 → code_point_length (0xF0 + x) ≡ 4
unfolding code_point_length
length_four x h = ground arith

read :
    (b n : ℕ) (s : List ℕ)
    → code_point_length b ≡ n
    → utf8_code_point_value (b ∷ s) ≡ value_of_length n (b ∷ s)
unfolding utf8_code_point_value
read b n s e = ap (λ k. value_of_length k (b ∷ s)) e

module _ (cp : ℕ) (rest : List ℕ) where
  one : cp < 0x80 → utf8_code_point_value (utf8_value_code_point cp ++ rest) ≡ some cp
  unfolding utf8_value_code_point
  one h =
      let small : ltb cp 0x80 ≡ true = ground arith in
      rw small (read cp 1 rest (length_one cp h) ∙ unfold value_of_length in refl)

  two :
      0x80 ≤ cp
      → cp < 0x800
      → utf8_code_point_value (utf8_value_code_point cp ++ rest)
        ≡ some (if leb 0x400 cp then 0 else cp)
  unfolding utf8_value_code_point
  two h k =
      let x = cp / 2 ^ 6 % 2 ^ 5 in
      let not_one : ltb cp 0x80 ≡ false = ground arith in
      let is_two : ltb cp 0x800 ≡ true = ground arith in
      rw (not_one, is_two)
        (elim (dec_lt x 16) [
          | yes low ↦
              let test : leb 16 x ≡ false = ground arith in
              let below : leb 0x400 cp ≡ false = ground arith in
              rw below (
                read (0xC0 + x) 2 ((0x80 + cp % 2 ^ 6) ∷ rest)
                  (length_two x (omega arith) ∙ rw test refl)
                ∙ unfold value_of_length in ap some (omega arith))
          | no high ↦
              let test : leb 16 x ≡ true = ground arith in
              let above : leb 0x400 cp ≡ true = ground arith in
              rw above (
                read (0xC0 + x) 0 ((0x80 + cp % 2 ^ 6) ∷ rest)
                  (length_two x (omega arith) ∙ rw test refl)
                ∙ unfold value_of_length in refl)
        ])

  three :
      0x800 ≤ cp → cp < 0x10000 → utf8_code_point_value (utf8_value_code_point cp ++ rest) ≡ some cp
  unfolding utf8_value_code_point
  three h k =
      let x = cp / 2 ^ 12 % 2 ^ 4 in
      let not_one : ltb cp 0x80 ≡ false = ground arith in
      let not_two : ltb cp 0x800 ≡ false = ground arith in
      let is_three : ltb cp 0x10000 ≡ true = ground arith in
      rw (not_one, not_two, is_three)
        (read (0xE0 + x) 3 ((0x80 + cp / 2 ^ 6 % 2 ^ 6) ∷ (0x80 + cp % 2 ^ 6) ∷ rest)
            (length_three x (omega arith))
          ∙ unfold value_of_length in ap some (omega arith))

  four :
      0x10000 ≤ cp
      → cp < 0x1FFFFF
      → utf8_code_point_value (utf8_value_code_point cp ++ rest) ≡ some cp
  unfolding utf8_value_code_point
  four h k =
      let x = cp / 2 ^ 18 % 2 ^ 3 in
      let not_one : ltb cp 0x80 ≡ false = ground arith in
      let not_two : ltb cp 0x800 ≡ false = ground arith in
      let not_three : ltb cp 0x10000 ≡ false = ground arith in
      let is_four : ltb cp 0x1FFFFF ≡ true = ground arith in
      rw (not_one, not_two, not_three, is_four)
        (read (0xF0 + x) 4
            ((0x80 + cp / 2 ^ 12 % 2 ^ 6)
              ∷ (0x80 + cp / 2 ^ 6 % 2 ^ 6)
              ∷ (0x80 + cp % 2 ^ 6)
              ∷ rest)
            (length_four x (omega arith))
          ∙ unfold value_of_length in ap some (omega arith))

-- A code point below `0x1FFFFF` is read back from its bytes, whatever comes behind them, unless it
-- lies from `0x400` up to `0x7FF`: then the first byte is taken for none of a code point, and 0 is
-- read.
pub utf8_code_point_value-utf8_value_code_point :
    (cp : ℕ) (rest : List ℕ)
    → cp < 0x1FFFFF
    → utf8_code_point_value (utf8_value_code_point cp ++ rest)
      ≡ some (if leb 0x400 cp && ltb cp 0x800 then 0 else cp)
utf8_code_point_value-utf8_value_code_point cp rest small = elim (dec_lt cp 0x80) [
  | yes h ↦ one cp rest h ∙ ap some (ground arith)
  | no h ↦ elim (dec_lt cp 0x800) [
    | yes k ↦ two cp rest (omega arith) k ∙ ap some (ground arith)
    | no k ↦ elim (dec_lt cp 0x10000) [
      | yes l ↦ three cp rest (omega arith) l ∙ ap some (ground arith)
      | no l ↦ four cp rest (omega arith) small ∙ ap some (ground arith)
    ]
  ]
]
