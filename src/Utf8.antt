-- ===== src/Utf8.antt =====
-- UTF-8 strings (`platform/osal/src/utf8string.c`). A mask and a shift that select bits are a quotient
-- and a remainder; a pointer is the list of the bytes from it on, and `none` a read behind them.
pub mod Points
pub mod Validity
use empirical_zero_knowledge.Prelude.{
  ℕ, zero, suc, ◌+◌, ◌-◌, ◌*◌, ◌/◌, ◌%◌, ◌^◌, Bool, true, false, ◌&&◌, ◌||◌, Option, none, some,
  ◌>>=◌, List, [], ◌∷◌, ◌++◌, length, get_elem?, get_or, set, replicate, drop, ltb, ◌==◌,
  if◌then◌else◌, u32,
}

-- Of the first byte of a code point.
unfoldable pub code_point_length : ℕ → ℕ
code_point_length len =
    if len / 16 == 15
    then 4
    else if len / 16 == 14
    then 3
    else if len / 16 == 12
    then 2
    else if ltb len 0x80
    then 1
    else 0

-- The bytes that are stored.
unfoldable pub utf8_value_code_point : ℕ → List ℕ
utf8_value_code_point cp =
    if ltb cp 0x80
    then cp ∷ []
    else if ltb cp 0x800
    then (0xC0 + cp / 2 ^ 6 % 2 ^ 5) ∷ (0x80 + cp % 2 ^ 6) ∷ []
    else if ltb cp 0x10000
    then (0xE0 + cp / 2 ^ 12 % 2 ^ 4) ∷ (0x80 + cp / 2 ^ 6 % 2 ^ 6) ∷ (0x80 + cp % 2 ^ 6) ∷ []
    else if ltb cp 0x1FFFFF
    then (0xF0 + cp / 2 ^ 18 % 2 ^ 3)
      ∷ (0x80 + cp / 2 ^ 12 % 2 ^ 6)
      ∷ (0x80 + cp / 2 ^ 6 % 2 ^ 6)
      ∷ (0x80 + cp % 2 ^ 6)
      ∷ []
    else []

-- The value by the number of bytes that the first byte announces.
unfoldable pub value_of_length : ℕ → List ℕ → Option ℕ
value_of_length n s =
    if n == 1
    then get_elem? s 0
    else if n == 2
    then (do a ← get_elem? s 0; b ← get_elem? s 1; some (a % 2 ^ 5 * 2 ^ 6 + b % 2 ^ 6))
    else if n == 3
    then (do
      a ← get_elem? s 0
      b ← get_elem? s 1
      c ← get_elem? s 2
      some (a % 2 ^ 4 * 2 ^ 12 + b % 2 ^ 6 * 2 ^ 6 + c % 2 ^ 6))
    else if n == 4
    then (do
      a ← get_elem? s 0
      b ← get_elem? s 1
      c ← get_elem? s 2
      d ← get_elem? s 3
      some (a % 2 ^ 3 * 2 ^ 18 + b % 2 ^ 6 * 2 ^ 12 + c % 2 ^ 6 * 2 ^ 6 + d % 2 ^ 6))
    else some 0

unfoldable pub utf8_code_point_value : List ℕ → Option ℕ
unfolding code_point_length value_of_length
utf8_code_point_value s = do len ← get_elem? s 0; value_of_length (code_point_length len) s

abbrev pub is_continuation : ℕ → Bool
is_continuation b = b / 64 == 2

abbrev pub starts_two : ℕ → Bool
starts_two b = b / 32 == 6

abbrev pub starts_three : ℕ → Bool
starts_three b = b / 16 == 14

abbrev pub starts_four : ℕ → Bool
starts_four b = b / 8 == 30

-- The loop over continuation bytes; it reads `s[i]` before it compares `i` with `ls`.
unfoldable pub skip : List ℕ → ℕ → ℕ → Option ℕ
skip [] i ls = none
skip (b ∷ s) i ls =
    let rest = skip s (i + 1) ls in if is_continuation b && ltb i ls then rest else some i

-- How far the next code point is.
unfoldable pub next_code_point_boundary : List ℕ → ℕ → Option ℕ
unfolding skip
next_code_point_boundary s ls = do
  b ← get_elem? s 0
  let first : ℕ = if starts_two b || (starts_three b || starts_four b) then 1 else 0
  if ltb b 0x80 then some 1 else skip (drop first s) first ls

-- The loop of `length`, with `ld` bytes to go; `moved` says that the last round moved on. On fuel.
unfoldable pub length_loop : ℕ → List ℕ → ℕ → Bool → ℕ → Option ℕ
unfolding next_code_point_boundary
length_loop zero s ld moved len = none
length_loop (suc fuel) s ld moved len = elim (moved && ltb 0 ld) [
  | false ↦ some len
  | true ↦ elim (next_code_point_boundary s ld) [
    | none ↦ none
    | some k ↦ length_loop fuel (drop k s) (u32 (ld + 2 ^ 32 - k)) (ltb 0 k) (len + 1)
  ]
]

-- `length`: one round more than there are bytes is enough, as each but the last moves on.
unfoldable pub utf8_length : List ℕ → ℕ → Option ℕ
unfolding length_loop
utf8_length s ld = length_loop (ld + 2) s ld true 0

-- Whether all bytes from `i + 1` to `i + n` are continuation bytes.
unfoldable pub continued : List ℕ → ℕ → Option Bool
continued s zero = some true
continued [] (suc n) = none
continued (b ∷ s) (suc n) =
    let rest = continued s n in if is_continuation b then rest else some false

-- A code point of `n` bytes more, with `left` bytes of the text to go: the test `ls < i + n`, the
-- bytes, and then the rest of the text.
unfoldable pub more_bytes : (List ℕ → ℕ → Option Bool) → ℕ → List ℕ → ℕ → Option Bool
unfolding continued
more_bytes rest n s left =
    if ltb left n
    then some false
    else (continued (drop 1 s) n >>= λ ok. elim ok [
      | false ↦ some false
      | true ↦ rest (drop (n + 1) s) (left - (n + 1))
    ])

unfoldable pub valid_point : (List ℕ → ℕ → Option Bool) → ℕ → List ℕ → ℕ → Option Bool
unfolding more_bytes
valid_point rest b s left =
    if ltb b 0x80
    then rest (drop 1 s) (left - 1)
    else if starts_two b
    then more_bytes rest 1 s left
    else if starts_three b
    then more_bytes rest 2 s left
    else if starts_four b
    then more_bytes rest 3 s left
    else some false

-- The loop of `utf8_is_valid`, with `ls - i` bytes to go; on fuel. Behind the loop the result is false
-- too.
unfoldable pub valid_loop : ℕ → List ℕ → ℕ → Option Bool
unfolding valid_point
valid_loop zero s left = none
valid_loop (suc fuel) s left = elim (ltb 0 left) [
  | false ↦ some false
  | true ↦ get_elem? s 0 >>= λ b. valid_point (valid_loop fuel) b s left
]

unfoldable pub utf8_is_valid : List ℕ → ℕ → Option Bool
unfolding valid_loop
utf8_is_valid s ls = valid_loop (ls + 1) s ls

-- `UTF8_String_datanew` on data that is there: the content of the new string, if one is made.
unfoldable pub string_datanew : List ℕ → Option (Option (List ℕ))
unfolding utf8_is_valid
string_datanew bytes =
    utf8_is_valid bytes (length bytes) >>= λ ok. some (if ok then some bytes else none)

-- The loop of `UTF8_String_cstrnew`, which counts down before each round: the first byte is not
-- copied, and an empty text makes the counter wrap, which is an access outside the content.
unfoldable pub cstr_loop : ℕ → List ℕ → List ℕ → Option (List ℕ)
cstr_loop zero s content = none
cstr_loop (suc ls) s content =
    let rest = cstr_loop ls s (set content ls (get_or s ls 0)) in
    if ls == 0 then some content else rest

-- The content of the string for the text `s`, with the zero byte behind it.
unfoldable pub string_cstrnew : List ℕ → Option (List ℕ)
unfolding cstr_loop
string_cstrnew s = cstr_loop (length s) s (replicate (length s + 1) 0)
