-- ===== src/Parser/Tokenizer.antt =====
-- The tokenizer `FunCallTokenizer` of `empiricalZK/rtz14/src/circuitparser.c`. The source is the
-- list of its bytes, so that `ldata` is its length; `none` is a read outside it.
use empirical_zero_knowledge.Prelude.{
  ℕ, zero, suc, ◌+◌, ◌-◌, Bool, true, false, ◌&&◌, ◌||◌, Option, none, some, ◌>>=◌, List, [], ◌∷◌,
  ◌==◌, ltb, leb, if◌then◌else◌, length, get_or, drop, u32,
}
use empirical_zero_knowledge.Encoding.Integer.{atoui}

pub data TokenType : Type 0 where
  done error add mul nand or_op xor_op and_op inv cstr num : TokenType

pub record Location : Type 0 where
  pub offset : ℕ
  pub line : ℕ
  pub linepos : ℕ

pub record Token : Type 0 where
  pub type : TokenType
  pub location : Location
  pub num : ℕ

pub record Fct : Type 0 where
  pub data_ : List ℕ
  pub line : ℕ
  pub linepos : ℕ
  pub cur : ℕ

-- Whether `a` is a prefix of `b`; `lb` is the length that the caller gives for `b`.
prefix_loop : List ℕ → List ℕ → Option Bool
prefix_loop [] b = some true
prefix_loop (x ∷ a) [] = none
prefix_loop (x ∷ a) (y ∷ b) = let rest = prefix_loop a b in if x == y then rest else some false

unfoldable pub prefix : List ℕ → List ℕ → ℕ → Option Bool
unfolding prefix_loop
prefix a b lb = if ltb lb (length a) then some false else prefix_loop a b

-- The number of characters of a name; a digit does not start one.
unfoldable pub read_name : Bool → List ℕ → ℕ
read_name inside [] = 0
read_name inside (c ∷ rest) =
    let more = suc (read_name true rest) in
    if leb 97 c && leb c 122 || leb 65 c && leb c 90 || c == 36 || c == 95
    then more
    else if inside && leb 48 c && leb c 57
    then more
    else 0

-- The four keywords that the tokenizer knows, in the order of its tests.
unfoldable pub keyword : List ℕ → ℕ → Option TokenType → Option (Option TokenType)
unfolding prefix
keyword b lb otherwise = do
  is_xor ← prefix (88 ∷ 79 ∷ 82 ∷ []) b lb
  if is_xor then some (some TokenType.xor_op) else do
    is_mul ← prefix (77 ∷ 85 ∷ 76 ∷ []) b lb
    if is_mul then some (some TokenType.mul) else do
      is_and ← prefix (65 ∷ 78 ∷ 68 ∷ []) b lb
      if is_and then some (some TokenType.and_op) else do
        is_inv ← prefix (73 ∷ 78 ∷ 86 ∷ []) b lb
        some (if is_inv then some TokenType.inv else otherwise)

abbrev pub advance : ℕ → Fct → Fct
advance n impl = record impl { cur = u32 (impl.cur + n); linepos = u32 (impl.linepos + n) }

-- A character that starts no token: a newline starts a line.
abbrev pub skip : ℕ → Fct → Fct
skip c impl =
    if c == 10
    then record impl { cur = u32 (impl.cur + 1); linepos = 0; line = u32 (impl.line + 1) }
    else advance 1 impl

abbrev pub here : Fct → List ℕ
here impl = drop impl.cur impl.data_

abbrev pub located : Fct → Location
located impl = record { offset = impl.cur; line = impl.line; linepos = impl.linepos }

number_here : Fct → Option (Token × Fct)
number_here impl = do
  (taken, value) ← atoui (here impl)
  some (record { type = TokenType.num; location = located impl; num = value }, advance taken impl)

-- What a turn of the loop does behind the test for a long name; `next` is the rest of the loop.
unfoldable pub token_here : Fct → Option (Token × Fct) → Option (Token × Fct)
unfolding keyword number_here
token_here impl next = do
  found ← keyword (here impl) (length impl.data_) none
  elim found [
    | some type ↦ some (record { type = type; location = located impl; num = 0 }, advance 3 impl)
    | none ↦
        let c = get_or (here impl) 0 0 in if leb 48 c && leb c 57 then number_here impl else next
  ]

-- The loop of `nextToken`; `location` is that of the last turn. A name of more than three
-- characters is skipped.
unfoldable pub scan : ℕ → Location → Fct → Option (Token × Fct)
unfolding token_here read_name
scan zero location impl =
    some (record { type = TokenType.done; location = location; num = 0 }, impl)
scan (suc n) location impl =
    let name_len = read_name false (here impl) in
    let long = scan n (located impl) (advance name_len impl) in
    let next = scan n (located impl) (skip (get_or (here impl) 0 0) impl) in
    if ltb impl.cur (length impl.data_)
    then if ltb 3 name_len then long else token_here impl next
    else some (record { type = TokenType.done; location = location; num = 0 }, impl)

-- As many turns as characters are left; every turn takes at least one.
unfoldable pub next_token : Fct → Option (Token × Fct)
unfolding scan
next_token impl =
    scan (length impl.data_ - impl.cur) (record { offset = 0; line = 0; linepos = 0 }) impl

-- `start` keeps the line and the position in it.
unfoldable pub start : List ℕ → Fct → Fct
start src impl = record impl { data_ = src; cur = 0 }
