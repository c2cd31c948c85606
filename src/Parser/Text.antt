-- ===== src/Parser/Text.antt =====
-- The text of a circuit, one gate in each line, and what `parseSource` of
-- `empiricalZK/rtz14/src/circuitparser.c` makes of it.
use empirical_zero_knowledge.Prelude.{
  ◌>>=◌, ℕ, zero, suc, ◌+◌, ◌^◌, ◌<◌, ◌≤◌, ◌≡◌, refl, sym, ap, ◌∙◌, Option, some, List, [], ◌∷◌,
  ◌++◌, length, length-append, All, arith,
}
use empirical_zero_knowledge.Circuit.{GType, g_and, g_xor, Gate}
use empirical_zero_knowledge.Circuit.PatchOne.{minus_one}
use empirical_zero_knowledge.Parser.{
  parse_gate, parse_and, parse_xor, parse_inv, parse_token, parse_loop, parse_source,
}
use empirical_zero_knowledge.Parser.Decimal.{decimal}
use empirical_zero_knowledge.Parser.Reading.{
  At, Separator, opening, comma, closing, newline, chars, xor_word, and_word, inv_word, called,
  next_word, next_number, next_done,
}
use empirical_zero_knowledge.Parser.Tokenizer.{Fct, start}

-- A line: `XOR(dst,op1,op2,index)`, `AND(dst,op1,op2,index)` or `INV(dst,src)`.
pub data Line : Type 0 where
  xor_line : (dst op1 op2 index : ℕ) → Line
  and_line : (dst op1 op2 index : ℕ) → Line
  inv_line : (dst src : ℕ) → Line

-- The gate of a line; an inverter is the exclusive or with the address -1.
unfoldable gate_of : Line → Gate
gate_of (xor_line dst op1 op2 index) = record { type = g_xor; dst = dst; op1 = op1; op2 = op2 }
gate_of (and_line dst op1 op2 index) = record { type = g_and; dst = dst; op1 = op1; op2 = op2 }
gate_of (inv_line dst src) = record { type = g_xor; dst = dst; op1 = minus_one; op2 = src }

-- The numbers fit in a `uint`.
abbrev pub Fits : Line → Type 0
Fits (xor_line dst op1 op2 index) =
    (dst < 2 ^ 32) × (op1 < 2 ^ 32) × (op2 < 2 ^ 32) × (index < 2 ^ 32)
Fits (and_line dst op1 op2 index) =
    (dst < 2 ^ 32) × (op1 < 2 ^ 32) × (op2 < 2 ^ 32) × (index < 2 ^ 32)
Fits (inv_line dst src) = (dst < 2 ^ 32) × (src < 2 ^ 32)

-- A number and what follows it.
abbrev number_then : ℕ → List ℕ → List ℕ
number_then n rest = decimal n ++ rest

abbrev four : (dst op1 op2 index : ℕ) → List ℕ → List ℕ
four dst op1 op2 index rest =
    number_then dst
      (44 ∷ number_then op1 (44 ∷ number_then op2 (44 ∷ number_then index (41 ∷ 10 ∷ rest))))

-- A line in front of a text.
abbrev line_then : Line → List ℕ → List ℕ
line_then (xor_line dst op1 op2 index) rest = called xor_word (four dst op1 op2 index rest)
line_then (and_line dst op1 op2 index) rest = called and_word (four dst op1 op2 index rest)
line_then (inv_line dst src) rest =
    called inv_word (number_then dst (44 ∷ number_then src (41 ∷ 10 ∷ rest)))

unfoldable pub text : List Line → List ℕ
text [] = []
text (l ∷ ls) = line_then l (text ls)

unfoldable pub gates : List Line → List Gate
unfolding gate_of
gates [] = []
gates (l ∷ ls) = gate_of l ∷ gates ls

-- A gate is read, and what follows its last number.
record Parses (result : Option (Option Gate × Fct)) (g : Gate) (rest : List ℕ) : Type 0 where
  after : Fct
  runs : result ≡ some (some g, after)
  stands : At after (41 ∷ 10 ∷ rest)

parse_gate_lem :
    (type : GType) (dst op1 op2 index : ℕ) (rest : List ℕ) (impl : Fct)
    → (dst < 2 ^ 32) × (op1 < 2 ^ 32) × (op2 < 2 ^ 32) × (index < 2 ^ 32)
    → At impl (40 ∷ four dst op1 op2 index rest)
    → Parses (parse_gate type impl) (record { type = type; dst = dst; op1 = op1; op2 = op2 }) rest
unfolding parse_gate
parse_gate_lem type dst op1 op2 index rest impl fits at =
    let after3 = 44 ∷ number_then index (41 ∷ 10 ∷ rest) in
    let after2 = 44 ∷ number_then op2 after3 in
    let r1 = next_number (opening ∷ []) dst comma (number_then op1 after2) impl fits.0 at in
    let r2 =
      next_number (comma ∷ []) op1 comma (number_then op2 after3) r1.after fits.1 r1.stands in
    let r3 =
      next_number (comma ∷ []) op2 comma (number_then index (41 ∷ 10 ∷ rest)) r2.after fits.2
        r2.stands in
    let r4 = next_number (comma ∷ []) index closing (10 ∷ rest) r3.after fits.3 r3.stands in
    record {
      after = r4.after;
      runs = rw (r1.runs, r2.runs, r3.runs, r4.runs) refl;
      stands = r4.stands;
    }

parse_inv_lem :
    (dst src : ℕ) (rest : List ℕ) (impl : Fct)
    → dst < 2 ^ 32
    → src < 2 ^ 32
    → At impl (40 ∷ number_then dst (44 ∷ number_then src (41 ∷ 10 ∷ rest)))
    → Parses (parse_inv impl) (gate_of (inv_line dst src)) rest
unfolding parse_inv gate_of
parse_inv_lem dst src rest impl small_dst small_src at =
    let r1 =
      next_number (opening ∷ []) dst comma (number_then src (41 ∷ 10 ∷ rest)) impl small_dst at in
    let r2 = next_number (comma ∷ []) src closing (10 ∷ rest) r1.after small_src r1.stands in
    record { after = r2.after; runs = rw (r1.runs, r2.runs) refl; stands = r2.stands }

-- One turn of the loop reads a line, behind what is left of the line before.
turn_lem :
    (l : Line) (rest : List ℕ) (xs : List Separator) (n : ℕ) (result : List Gate) (impl : Fct)
    → Fits l
    → At impl (chars xs ++ line_then l rest)
    → (impl' : Fct) × (parse_loop (suc n) result impl
        ≡ parse_loop n (result ++ gate_of l ∷ []) impl')
      × At impl' (41 ∷ 10 ∷ rest)
unfolding parse_loop parse_token parse_and parse_xor gate_of
turn_lem (xor_line dst op1 op2 index) rest xs n result impl fits at =
    let w = next_word xs xor_word (four dst op1 op2 index rest) impl at in
    let g = parse_gate_lem g_xor dst op1 op2 index rest w.after fits w.stands in
    (g.after, rw (w.runs, g.runs) refl, g.stands)
turn_lem (and_line dst op1 op2 index) rest xs n result impl fits at =
    let w = next_word xs and_word (four dst op1 op2 index rest) impl at in
    let g = parse_gate_lem g_and dst op1 op2 index rest w.after fits w.stands in
    (g.after, rw (w.runs, g.runs) refl, g.stands)
turn_lem (inv_line dst src) rest xs n result impl fits at =
    let w =
      next_word xs inv_word (number_then dst (44 ∷ number_then src (41 ∷ 10 ∷ rest))) impl at in
    let g = parse_inv_lem dst src rest w.after fits.0 fits.1 w.stands in
    (g.after, rw (w.runs, g.runs) refl, g.stands)

append_cons : (xs ys : List Gate) (g : Gate) → (xs ++ g ∷ []) ++ ys ≡ xs ++ g ∷ ys
append_cons [] ys g = refl
append_cons (x ∷ xs) ys g = ap (λ s. x ∷ s) (append_cons xs ys g)

append_nil : (xs : List Gate) → xs ++ [] ≡ xs
append_nil [] = refl
append_nil (x ∷ xs) = ap (λ s. x ∷ s) (append_nil xs)

parse_loop-text :
    (ls : List Line) (xs : List Separator) (n : ℕ) (result : List Gate) (impl : Fct)
    → All Fits ls
    → length ls < n
    → At impl (chars xs ++ text ls)
    → parse_loop n result impl ≡ some (some (result ++ gates ls))
unfolding parse_loop parse_token text gates
parse_loop-text ls xs zero result impl fits few at = absurd (omega arith)
parse_loop-text [] xs (suc n) result impl fits few at =
    rw (next_done xs impl at).runs (ap (λ gs. some (some gs)) (sym (append_nil result)))
parse_loop-text (l ∷ ls) xs (suc n) result impl fits few at =
    let (after, turn, stands) = turn_lem l (text ls) xs n result impl fits.0 at in
    let g = gate_of l in
    turn
    ∙ parse_loop-text ls (closing ∷ newline ∷ []) n (result ++ g ∷ []) after fits.1 (omega arith)
        stands
    ∙ ap (λ gs. some (some gs)) (append_cons result (gates ls) g)

length-number_then : (n : ℕ) (rest : List ℕ) → length rest ≤ length (number_then n rest)
length-number_then n rest = omega (arith, length-append (decimal n) rest)

length-four :
    (dst op1 op2 index : ℕ) (rest : List ℕ) → length rest ≤ length (four dst op1 op2 index rest)
length-four dst op1 op2 index rest =
    let after3 = 44 ∷ number_then index (41 ∷ 10 ∷ rest) in
    let after2 = 44 ∷ number_then op2 after3 in
    omega (
      arith,
      length-number_then index (41 ∷ 10 ∷ rest),
      length-number_then op2 after3,
      length-number_then op1 after2,
      length-number_then dst (44 ∷ number_then op1 after2),
    )

length-line_then : (l : Line) (rest : List ℕ) → length rest < length (line_then l rest)
length-line_then (xor_line dst op1 op2 index) rest =
    omega (arith, length-four dst op1 op2 index rest)
length-line_then (and_line dst op1 op2 index) rest =
    omega (arith, length-four dst op1 op2 index rest)
length-line_then (inv_line dst src) rest =
    let after = 44 ∷ number_then src (41 ∷ 10 ∷ rest) in
    omega (arith, length-number_then src (41 ∷ 10 ∷ rest), length-number_then dst after)

length-text : (ls : List Line) → length ls ≤ length (text ls)
unfolding text
length-text [] = omega arith
length-text (l ∷ ls) = omega (arith, length-line_then l (text ls), length-text ls)

parse_source_some :
    (src : List ℕ) (impl : Fct)
    → 0 < length src
    → parse_source src impl ≡ (parse_loop (length src + 1) [] (start src impl) >>= λ parsed. parsed)
unfolding parse_source
parse_source_some [] impl full = absurd (omega arith)
parse_source_some (c ∷ src) impl full = refl

-- The text of a circuit, one gate in each line as `XOR(dst,op1,op2,index)`, `AND(dst,op1,op2,index)` or
-- `INV(dst,src)` with decimal numbers, is parsed to its gates in their order, each inverter as the
-- exclusive or with the address -1, whatever the tokenizer read before. This is for numbers below
-- 2 ^ 32 and a text of fewer than 2 ^ 32 bytes.
pub parse_source-text :
    (ls : List Line) (impl : Fct)
    → All Fits ls
    → length (text ls) < 2 ^ 32
    → parse_source (text ls) impl ≡ some (gates ls)
unfolding start
parse_source-text [] impl fits small = unfold parse_source text gates in refl
parse_source-text (l ∷ ls) impl fits small =
    let src = text (l ∷ ls) in
    let few = length-text (l ∷ ls) in
    parse_source_some src impl (omega arith)
    ∙ ap (λ o. o >>= λ parsed. parsed)
        (parse_loop-text (l ∷ ls) [] (length src + 1) [] (start src impl) fits (omega arith)
          (record { follows = refl; inside = omega arith; small = small }))
