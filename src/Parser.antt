-- ===== src/Parser.antt =====
-- The circuit parser of `empiricalZK/rtz14/src/circuitparser.c` with its tokenizer of function
-- calls such as `XOR(5,1,2,0)`. `Tokenizer` has the tokens, this file the gates. `none` is a read
-- outside the source; a null gate is an inner `none`.
pub mod Tokenizer
pub mod Decimal
pub mod Progress
pub mod Reading
pub mod Text
pub mod Turns
pub mod Termination
use empirical_zero_knowledge.Prelude.{
  ℕ, zero, suc, ◌+◌, ◌*◌, Bool, true, false, Option, none, some, ◌>>=◌, List, [], ◌∷◌, ◌++◌,
  if◌then◌else◌, length,
}
use empirical_zero_knowledge.Circuit.{GType, g_and, g_xor, Gate}
use empirical_zero_knowledge.Circuit.PatchOne.{minus_one}
use empirical_zero_knowledge.Parser.Tokenizer.{TokenType, Token, Fct, start, next_token}

abbrev is_num : TokenType → Bool
is_num t = elim t [ TokenType.num ↦ true | _ ↦ false ]

-- `parseAnd` and `parseXor` read four tokens, the last of which they ignore, and then look at
-- the first three.
unfoldable pub parse_gate : GType → Fct → Option (Option Gate × Fct)
parse_gate type impl = do
  (dst, impl₁) ← next_token impl
  (op1, impl₂) ← next_token impl₁
  (op2, impl₃) ← next_token impl₂
  (_, impl₄) ← next_token impl₃
  let gate : Gate = record { type = type; dst = dst.num; op1 = op1.num; op2 = op2.num }
  some (
    if is_num dst.type
        then if is_num op1.type then if is_num op2.type then some gate else none else none
        else none,
    impl₄,
  )

unfoldable pub parse_and : Fct → Option (Option Gate × Fct)
unfolding parse_gate
parse_and = parse_gate g_and

unfoldable pub parse_xor : Fct → Option (Option Gate × Fct)
unfolding parse_gate
parse_xor = parse_gate g_xor

-- INV(dst,src) becomes XOR(dst,-1,src).
unfoldable pub parse_inv : Fct → Option (Option Gate × Fct)
parse_inv impl = do
  (dst, impl₁) ← next_token impl
  (src, impl₂) ← next_token impl₁
  let gate : Gate = record { type = g_xor; dst = dst.num; op1 = minus_one; op2 = src.num }
  some (if is_num dst.type then if is_num src.type then some gate else none else none, impl₂)

-- What the loop comes to: `none` for fuel that does not last, an inner `none` for a read outside the
-- source.
abbrev pub Parsed : Type 0
Parsed = Option (Option (List Gate))

-- A gate is added to the result, and the loop goes on; a null gate ends it.
abbrev pub add_gate : List Gate → (List Gate → Fct → Parsed) → Option (Option Gate × Fct) → Parsed
add_gate result continue none = some none
add_gate result continue (some (none, impl)) = some (some result)
add_gate result continue (some (some g, impl)) = continue (result ++ g ∷ []) impl

-- One turn of the loop, on the token that was read.
unfoldable pub parse_token : TokenType → List Gate → (List Gate → Fct → Parsed) → Fct → Parsed
unfolding parse_and parse_xor parse_inv
parse_token TokenType.xor_op result continue impl = add_gate result continue (parse_xor impl)
parse_token TokenType.and_op result continue impl = add_gate result continue (parse_and impl)
parse_token TokenType.inv result continue impl = add_gate result continue (parse_inv impl)
parse_token TokenType.done result continue impl = some (some result)
parse_token TokenType.error result continue impl = some (some result)
parse_token _ result continue impl = continue result impl

abbrev pub turn : List Gate → (List Gate → Fct → Parsed) → Option (Token × Fct) → Parsed
turn result continue none = some none
turn result continue (some (tok, impl)) = parse_token tok.type result continue impl

unfoldable pub parse_loop : ℕ → List Gate → Fct → Parsed
unfolding parse_token
parse_loop zero result impl = none
parse_loop (suc n) result impl = turn result (parse_loop n) (next_token impl)

-- `parseSource`: every turn but the last reads at least one character.
unfoldable pub parse_source : List ℕ → Fct → Option (List Gate)
unfolding parse_loop
parse_source [] impl = some []
parse_source (c ∷ src) impl =
    parse_loop (length (c ∷ src) + 1) [] (start (c ∷ src) impl) >>= λ parsed. parsed
