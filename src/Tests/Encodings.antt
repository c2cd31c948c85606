-- ===== src/Tests/Encodings.antt =====
-- Encodings, commitments and the tokenizer on small inputs.
use empirical_zero_knowledge.Prelude.{
  ℕ, ◌+◌, ◌-◌, ◌/◌, ◌%◌, ◌^◌, ◌≡◌, refl, ◌↔◌, Bool, true, some, List, [], ◌∷◌, ◌==◌, if◌then◌else◌,
  length, arith,
}
use empirical_zero_knowledge.Encoding.Hex.{hs2bs, bs2hs, hs2bs-bs2hs}
use empirical_zero_knowledge.Encoding.Integer.{atoui, l2b, b2l, b2l-l2b}
use empirical_zero_knowledge.Commitment.{sha512_hash, sha512_commit, sha512_open}
use empirical_zero_knowledge.Commitment.Padding.{standard, sha512_hash-standard}
use empirical_zero_knowledge.Commitment.Opening.{digest, sha512_open-sha512_commit}
use empirical_zero_knowledge.Circuit.{g_and, g_xor, Gate}
use empirical_zero_knowledge.Parser.{parse_source}
use empirical_zero_knowledge.Parser.Tokenizer.{Fct, next_token, start}
use empirical_zero_knowledge.Parser.Decimal.{decimal}
use empirical_zero_knowledge.Parser.Text.{
  Line, xor_line, and_line, inv_line, text, gates, parse_source-text,
}

hs2bs-bs2hs_example :
    (hex : List ℕ) × (bs2hs (202 ∷ 254 ∷ []) 4 ≡ some hex) × (hs2bs hex 2 ≡ some (202 ∷ 254 ∷ []))
hs2bs-bs2hs_example = hs2bs-bs2hs (202 ∷ 254 ∷ []) (omega arith) (omega arith)

b2l-l2b_example :
    b2l (l2b 3000000000)
    ≡ some (
        if 3000000000 / 2 ^ 31 % 2 == 1
        then (3000000000 + (2 ^ 64 - 2 ^ 32)) % 2 ^ 64
        else 3000000000)
b2l-l2b_example = b2l-l2b 3000000000 (omega arith)

-- A stand-in for the compression function.
abbrev mix : List ℕ → List ℕ → List ℕ
mix hash block = 1 ∷ length block ∷ 3 ∷ 4 ∷ 5 ∷ 6 ∷ 7 ∷ length hash ∷ []

abbrev abc : List ℕ
abc = 97 ∷ 98 ∷ 99 ∷ []

abbrev sixteen : List ℕ
sixteen = 0 ∷ 1 ∷ 2 ∷ 3 ∷ 4 ∷ 5 ∷ 6 ∷ 7 ∷ 8 ∷ 9 ∷ 10 ∷ 11 ∷ 12 ∷ 13 ∷ 14 ∷ 15 ∷ []

sha512_hash-standard_example : sha512_hash mix abc ≡ standard mix abc
sha512_hash-standard_example = sha512_hash-standard mix abc

sha512_open-sha512_commit_example :
    (cmt : List ℕ) × (accepts : Bool) × (sha512_commit mix sixteen abc ≡ some cmt)
    × (sha512_open mix cmt abc ≡ some accepts)
    × ((accepts ≡ true) ↔ (digest mix sixteen abc ≡ digest mix sixteen abc))
sha512_open-sha512_commit_example =
    sha512_open-sha512_commit mix sixteen abc abc (λ hash block. refl) refl (omega arith)
      (omega arith)

-- "XOR(2,0,1,0)" and "AND(3,2,0,0)", each with a newline.
abbrev two_lines : List ℕ
two_lines =
    88 ∷ 79 ∷ 82 ∷ 40 ∷ 50 ∷ 44 ∷ 48 ∷ 44 ∷ 49 ∷ 44 ∷ 48 ∷ 41 ∷ 10 ∷ 65 ∷ 78 ∷ 68 ∷ 40 ∷ 51 ∷ 44
    ∷ 50 ∷ 44 ∷ 48 ∷ 44 ∷ 48 ∷ 41 ∷ 10 ∷ []

-- "XOR(2,0,1)" and "AND(3,2,0)", without the last argument.
abbrev short_lines : List ℕ
short_lines =
    88 ∷ 79 ∷ 82 ∷ 40 ∷ 50 ∷ 44 ∷ 48 ∷ 44 ∷ 49 ∷ 41 ∷ 10 ∷ 65 ∷ 78 ∷ 68 ∷ 40 ∷ 51 ∷ 44 ∷ 50 ∷ 44
    ∷ 48 ∷ 41 ∷ 10 ∷ []

abbrev idle : Fct
idle = record { data_ = []; line = 0; linepos = 0; cur = 0 }

abbrev first : Gate
first = record { type = g_xor; dst = 2; op1 = 0; op2 = 1 }

abbrev second : Gate
second = record { type = g_and; dst = 3; op1 = 2; op2 = 0 }

parse_two : parse_source two_lines idle ≡ some (first ∷ second ∷ [])
unfolding parse_source next_token start atoui
parse_two = refl

abbrev two_gates : List Line
two_gates = xor_line 2 0 1 0 ∷ and_line 3 2 0 0 ∷ []

text_two : text two_gates ≡ two_lines
unfolding text decimal
text_two = refl

gates_two : gates two_gates ≡ first ∷ second ∷ []
unfolding gates
gates_two = refl

-- An inverter with numbers of several digits.
abbrev three_gates : List Line
three_gates = xor_line 2 0 1 0 ∷ inv_line 4294967294 10 ∷ and_line 305 2 0 7 ∷ []

parse_source-text_example : parse_source (text three_gates) idle ≡ some (gates three_gates)
unfolding text decimal
parse_source-text_example =
    parse_source-text three_gates idle
      (
        (omega arith, omega arith, omega arith, omega arith),
        ((omega arith, omega arith), ((omega arith, omega arith, omega arith, omega arith), tt)),
      )
      (omega arith)

-- The fourth token that is thrown away is the next keyword: the AND gate is lost.
parse_short : parse_source short_lines idle ≡ some (first ∷ [])
unfolding parse_source next_token start atoui
parse_short = refl

abbrev at_start : Fct
at_start = record { data_ = two_lines; line = 0; linepos = 0; cur = 0 }
