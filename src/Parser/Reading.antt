-- ===== src/Parser/Reading.antt =====
-- What the tokenizer of `empiricalZK/rtz14/src/circuitparser.c` reads at a text that follows.
use empirical_zero_knowledge.Prelude.{
  ℕ, suc, ◌+◌, ◌-◌, ◌^◌, ◌<◌, ◌≤◌, ◌≡◌, refl, sym, ap, ◌∙◌, true, false, Bool-cases, inl, inr, ◌&&◌,
  ◌||◌, Option, none, some, List, [], ◌∷◌, ◌++◌, length, length-append, length-drop, drop,
  drop-drop, get_or, ltb, leb, ◌==◌, u32, All, arith,
}
use empirical_zero_knowledge.Encoding.Integer.{atoui}
use empirical_zero_knowledge.Parser.Decimal.{
  decimal, IsDigit, atoui-decimal, decimal-some, decimal-IsDigit,
}
use empirical_zero_knowledge.Parser.Tokenizer.{
  TokenType, Location, Token, Fct, read_name, prefix, keyword, advance, skip, here, located,
  token_here, scan, next_token,
}

-- The tokenizer stands before `rest`, the end of its source.
pub record At (impl : Fct) (rest : List ℕ) : Type 0 where
  pub follows : here impl ≡ rest
  pub inside : impl.cur ≤ length impl.data_
  pub small : length impl.data_ < 2 ^ 32

length-At : (impl : Fct) (rest : List ℕ) → At impl rest → length rest ≡ length impl.data_ - impl.cur
length-At impl rest at = ap length (sym at.follows) ∙ length-drop impl.cur impl.data_

drop-append : (s rest : List ℕ) → drop (length s) (s ++ rest) ≡ rest
drop-append [] rest = refl
drop-append (c ∷ s) rest = drop-append s rest

At-moved :
    (impl : Fct) (s rest : List ℕ) (line linepos : ℕ)
    → At impl (s ++ rest)
    → At
        (record {
          data_ = impl.data_;
          cur = u32 (impl.cur + length s);
          line = line;
          linepos = linepos;
        })
        rest
At-moved impl s rest line linepos at =
    let inside = at.inside in
    let small = at.small in
    let len = length-At impl (s ++ rest) at in
    let len2 = length-append s rest in
    let fits : u32 (impl.cur + length s) ≡ impl.cur + length s = omega arith in
    record {
      follows =
          ap (λ n. drop n impl.data_) fits
          ∙ sym (drop-drop (length s) impl.cur impl.data_)
          ∙ ap (drop (length s)) at.follows
          ∙ drop-append s rest;
      inside = omega arith;
      small = small;
    }

-- The characters between the words and numbers of a gate.
pub data Separator : Type 0 where
  opening comma closing newline : Separator

abbrev pub char : Separator → ℕ
char opening = 40
char comma = 44
char closing = 41
char newline = 10

abbrev pub chars : List Separator → List ℕ
chars [] = []
chars (x ∷ xs) = char x ∷ chars xs

-- A character that starts no keyword.
keyword_other :
    (c lb : ℕ) (rest : List ℕ) (otherwise : Option TokenType)
    → (88 == c) ≡ false
    → (77 == c) ≡ false
    → (65 == c) ≡ false
    → (73 == c) ≡ false
    → keyword (c ∷ rest) lb otherwise ≡ some otherwise
unfolding keyword prefix
keyword_other c lb rest otherwise p q r s = elim (Bool-cases (ltb lb 3)) [
  | inl short ↦ rw short refl
  | inr long ↦ rw (long, p, q, r, s) refl
]

read_name_separator : (x : Separator) (rest : List ℕ) → read_name false (char x ∷ rest) ≡ 0
unfolding read_name
read_name_separator opening rest = refl
read_name_separator comma rest = refl
read_name_separator closing rest = refl
read_name_separator newline rest = refl

no_number :
    (c : ℕ) (rest : List ℕ) (impl : Fct) (next : Option (Token × Fct))
    → here impl ≡ c ∷ rest
    → keyword (c ∷ rest) (length impl.data_) none ≡ some none
    → (leb 48 c && leb c 57) ≡ false
    → token_here impl next ≡ next
unfolding token_here
no_number c rest impl next e no_word no_digit =
    let first : get_or (here impl) 0 0 ≡ c = ap (λ s. get_or s 0 0) e in
    let other : keyword (here impl) (length impl.data_) none ≡ some none =
      ap (λ s. keyword s (length impl.data_) none) e ∙ no_word in
    rw other (rw (first, no_digit) refl)

token_separator :
    (x : Separator) (rest : List ℕ) (impl : Fct) (next : Option (Token × Fct))
    → here impl ≡ char x ∷ rest
    → token_here impl next ≡ next
token_separator opening rest impl next e =
    no_number 40 rest impl next e (keyword_other 40 _ rest none refl refl refl refl) refl
token_separator comma rest impl next e =
    no_number 44 rest impl next e (keyword_other 44 _ rest none refl refl refl refl) refl
token_separator closing rest impl next e =
    no_number 41 rest impl next e (keyword_other 41 _ rest none refl refl refl refl) refl
token_separator newline rest impl next e =
    no_number 10 rest impl next e (keyword_other 10 _ rest none refl refl refl refl) refl

At-skip :
    (x : Separator) (rest : List ℕ) (impl : Fct)
    → At impl (char x ∷ rest)
    → At (skip (char x) impl) rest
At-skip opening rest impl at = At-moved impl (40 ∷ []) rest _ _ at
At-skip comma rest impl at = At-moved impl (44 ∷ []) rest _ _ at
At-skip closing rest impl at = At-moved impl (41 ∷ []) rest _ _ at
At-skip newline rest impl at = At-moved impl (10 ∷ []) rest _ _ at

inside-At :
    (impl : Fct) (c : ℕ) (rest : List ℕ)
    → At impl (c ∷ rest)
    → ltb impl.cur (length impl.data_) ≡ true
inside-At impl c rest at =
    let len = length-At impl (c ∷ rest) at in
    let lt : impl.cur < length impl.data_ = omega arith in ground arith

scan_separator :
    (x : Separator) (rest : List ℕ) (n : ℕ) (loc : Location) (impl : Fct)
    → At impl (char x ∷ rest)
    → scan (suc n) loc impl ≡ scan n (located impl) (skip (char x) impl)
unfolding scan
scan_separator x rest n loc impl at =
    let inside = inside-At impl (char x) rest at in
    let first : get_or (here impl) 0 0 ≡ char x = ap (λ s. get_or s 0 0) at.follows in
    let name : read_name false (here impl) ≡ 0 =
      ap (read_name false) at.follows ∙ read_name_separator x rest in
    rw (inside, name)
      (token_separator x rest impl _ at.follows
        ∙ ap (λ c. scan n (located impl) (skip c impl)) first)

-- One token of the given type and number is read, and then `rest` follows.
pub record Reads (n : ℕ) (loc : Location) (impl : Fct) (type : TokenType) (num : ℕ) (rest : List ℕ)
    : Type 0 where
  pub place : Location
  pub after : Fct
  pub runs : scan n loc impl ≡ some (record { type = type; location = place; num = num }, after)
  pub stands : At after rest

-- Separators in front of a token are skipped.
pub Reads-chars :
    (xs : List Separator) (s rest : List ℕ) (type : TokenType) (num n : ℕ) (loc : Location)
    (impl : Fct)
    → At impl (chars xs ++ s)
    → ((loc' : Location) (impl' : Fct) → At impl' s → Reads n loc' impl' type num rest)
    → Reads (length xs + n) loc impl type num rest
Reads-chars [] s rest type num n loc impl at token =
    let same : 0 + n ≡ n = omega arith in rw same (token loc impl at)
Reads-chars (x ∷ xs) s rest type num n loc impl at token =
    let first = char x in
    let above : suc (length xs) + n ≡ suc (length xs + n) = omega arith in
    let later =
      Reads-chars xs s rest type num n (located impl) (skip first impl)
        (At-skip x (chars xs ++ s) impl at) token in
    record {
      place = later.place;
      after = later.after;
      runs =
          ap (λ k. scan k loc impl) above
          ∙ scan_separator x (chars xs ++ s) (length xs + n) loc impl at
          ∙ later.runs;
      stands = later.stands;
    }

digit-other :
    (d : ℕ)
    → IsDigit d
    → ((88 == d) ≡ false)
      × ((77 == d) ≡ false)
      × ((65 == d) ≡ false)
      × ((73 == d) ≡ false)
      × ((leb 48 d && leb d 57) ≡ true)
      × ((leb 97 d && leb d 122) ≡ false)
digit-other d digit =
    (ground arith, ground arith, ground arith, ground arith, ground arith, ground arith)

read_name_digit : (d : ℕ) (rest : List ℕ) → IsDigit d → read_name false (d ∷ rest) ≡ 0
unfolding read_name
read_name_digit d rest digit =
    let no_name : (leb 97 d && leb d 122 || leb 65 d && leb d 90 || d == 36 || d == 95) ≡ false =
      ground arith in
    rw no_name refl

number_token :
    (d : ℕ) (s : List ℕ) (taken number : ℕ) (impl : Fct) (next : Option (Token × Fct))
    → IsDigit d
    → here impl ≡ d ∷ s
    → atoui (d ∷ s) ≡ some (taken, number)
    → token_here impl next
      ≡ some (
        record { type = TokenType.num; location = located impl; num = number },
        advance taken impl,
      )
unfolding token_here
number_token d s taken number impl next digit e read =
    let (p, q, r, t, is_digit, _) = digit-other d digit in
    let first : get_or (here impl) 0 0 ≡ d = ap (λ s. get_or s 0 0) e in
    let other : keyword (here impl) (length impl.data_) none ≡ some none =
      ap (λ s. keyword s (length impl.data_) none) e
      ∙ keyword_other d (length impl.data_) s none p q r t in
    let here_read : atoui (here impl) ≡ some (taken, number) = ap atoui e ∙ read in
    rw other (rw (first, is_digit, here_read) refl)

-- Digits that `atoui` reads as a number.
digits-Reads :
    (s rest : List ℕ) (c number n : ℕ) (loc : Location) (impl : Fct)
    → 0 < length s
    → All IsDigit s
    → atoui (s ++ c ∷ rest) ≡ some (length s, number)
    → At impl (s ++ c ∷ rest)
    → Reads (suc n) loc impl TokenType.num number (c ∷ rest)
unfolding scan
digits-Reads [] rest c number n loc impl some_digit digits read at = absurd (omega arith)
digits-Reads (d ∷ s) rest c number n loc impl some_digit digits read at =
    let inside = inside-At impl d (s ++ c ∷ rest) at in
    let name : read_name false (here impl) ≡ 0 =
      ap (read_name false) at.follows ∙ read_name_digit d (s ++ c ∷ rest) digits.0 in
    record {
      place = located impl;
      after = advance (length (d ∷ s)) impl;
      runs =
          rw (inside, name)
            (number_token d (s ++ c ∷ rest) (length (d ∷ s)) number impl _ digits.0 at.follows
              read);
      stands = At-moved impl (d ∷ s) (c ∷ rest) _ _ at;
    }

pub decimal-Reads :
    (number c n : ℕ) (rest : List ℕ) (loc : Location) (impl : Fct)
    → number < 2 ^ 32
    → (leb 48 c && leb c 57) ≡ false
    → At impl (decimal number ++ c ∷ rest)
    → Reads (suc n) loc impl TokenType.num number (c ∷ rest)
decimal-Reads number c n rest loc impl small stop at =
    digits-Reads (decimal number) rest c number n loc impl (decimal-some number)
      (decimal-IsDigit number) (atoui-decimal number c rest small stop) at

no_digit : (x : Separator) → (leb 48 (char x) && leb (char x) 57) ≡ false
no_digit opening = refl
no_digit comma = refl
no_digit closing = refl
no_digit newline = refl

-- The words of the gates.
pub data Word : Type 0 where
  xor_word and_word inv_word : Word

abbrev pub letters : Word → List ℕ
letters xor_word = 88 ∷ 79 ∷ 82 ∷ []
letters and_word = 65 ∷ 78 ∷ 68 ∷ []
letters inv_word = 73 ∷ 78 ∷ 86 ∷ []

abbrev pub word_type : Word → TokenType
word_type xor_word = TokenType.xor_op
word_type and_word = TokenType.and_op
word_type inv_word = TokenType.inv

-- A word in front of an opening bracket.
abbrev pub called : Word → List ℕ → List ℕ
called w rest = letters w ++ 40 ∷ rest

read_name_word : (w : Word) (rest : List ℕ) → read_name false (called w rest) ≡ 3
unfolding read_name
read_name_word xor_word rest = refl
read_name_word and_word rest = refl
read_name_word inv_word rest = refl

keyword_word :
    (w : Word) (lb : ℕ) (rest : List ℕ)
    → ltb lb 3 ≡ false
    → keyword (called w rest) lb none ≡ some (some (word_type w))
unfolding keyword prefix
keyword_word xor_word lb rest long = rw long refl
keyword_word and_word lb rest long = rw long refl
keyword_word inv_word lb rest long = rw long refl

At-word :
    (w : Word) (rest : List ℕ) (impl : Fct)
    → At impl (called w rest)
    → At (advance 3 impl) (40 ∷ rest)
At-word xor_word rest impl at = At-moved impl (letters xor_word) (40 ∷ rest) _ _ at
At-word and_word rest impl at = At-moved impl (letters and_word) (40 ∷ rest) _ _ at
At-word inv_word rest impl at = At-moved impl (letters inv_word) (40 ∷ rest) _ _ at

length-called : (w : Word) (rest : List ℕ) → length (called w rest) ≡ 4 + length rest
length-called xor_word rest = omega arith
length-called and_word rest = omega arith
length-called inv_word rest = omega arith

pub word-Reads :
    (w : Word) (n : ℕ) (rest : List ℕ) (loc : Location) (impl : Fct)
    → At impl (called w rest)
    → Reads (suc n) loc impl (word_type w) 0 (40 ∷ rest)
unfolding scan token_here
word-Reads w n rest loc impl at =
    let left = length-At impl (called w rest) at in
    let wide = length-called w rest in
    let lt : impl.cur < length impl.data_ = omega arith in
    let inside : ltb impl.cur (length impl.data_) ≡ true = ground arith in
    let long : ltb (length impl.data_) 3 ≡ false = ground arith in
    let name : read_name false (here impl) ≡ 3 =
      ap (read_name false) at.follows ∙ read_name_word w rest in
    let word : keyword (here impl) (length impl.data_) none ≡ some (some (word_type w)) =
      ap (λ s. keyword s (length impl.data_) none) at.follows
      ∙ keyword_word w (length impl.data_) rest long in
    record {
      place = located impl;
      after = advance 3 impl;
      runs = rw (inside, name, word) refl;
      stands = At-word w rest impl at;
    }

-- The fuel of `next_token` is the number of characters that are left.
pub record ReadsNext (impl : Fct) (type : TokenType) (num : ℕ) (rest : List ℕ) : Type 0 where
  pub place : Location
  pub after : Fct
  pub runs : next_token impl ≡ some (record { type = type; location = place; num = num }, after)
  pub stands : At after rest

from_Reads :
    (n : ℕ) (impl : Fct) (type : TokenType) (num : ℕ) (rest : List ℕ)
    → length impl.data_ - impl.cur ≡ n
    → Reads n (record { offset = 0; line = 0; linepos = 0 }) impl type num rest
    → ReadsNext impl type num rest
unfolding next_token
from_Reads n impl type num rest left r = record {
  place = r.place;
  after = r.after;
  runs = rw left r.runs;
  stands = r.stands;
}

length-chars : (xs : List Separator) → length (chars xs) ≡ length xs
length-chars [] = refl
length-chars (x ∷ xs) = ap suc (length-chars xs)

-- Separators and then a word.
pub next_word :
    (xs : List Separator) (w : Word) (rest : List ℕ) (impl : Fct)
    → At impl (chars xs ++ called w rest)
    → ReadsNext impl (word_type w) 0 (40 ∷ rest)
next_word xs w rest impl at =
    let left = length-At impl (chars xs ++ called w rest) at in
    let sum = length-append (chars xs) (called w rest) in
    let n = 3 + length rest in
    from_Reads (length xs + suc n) impl (word_type w) 0 (40 ∷ rest)
      (omega (arith, length-chars xs, length-called w rest))
      (Reads-chars xs (called w rest) (40 ∷ rest) (word_type w) 0 (suc n) _ impl at
        (λ loc' impl' at'. word-Reads w n rest loc' impl' at'))

-- Separators and then a number, in front of another separator.
pub next_number :
    (xs : List Separator) (number : ℕ) (x : Separator) (rest : List ℕ) (impl : Fct)
    → number < 2 ^ 32
    → At impl (chars xs ++ (decimal number ++ char x ∷ rest))
    → ReadsNext impl TokenType.num number (char x ∷ rest)
next_number xs number x rest impl small at =
    let s = decimal number ++ char x ∷ rest in
    let left = length-At impl (chars xs ++ s) at in
    let sum = length-append (chars xs) s in
    let more = length-append (decimal number) (char x ∷ rest) in
    let n = length (decimal number) + length rest in
    from_Reads (length xs + suc n) impl TokenType.num number (char x ∷ rest)
      (omega (arith, length-chars xs))
      (Reads-chars xs s (char x ∷ rest) TokenType.num number (suc n) _ impl at
        (λ loc' impl' at'. decimal-Reads number (char x) n rest loc' impl' small (no_digit x) at'))

-- At the end of the source.
pub next_done :
    (xs : List Separator) (impl : Fct)
    → At impl (chars xs ++ [])
    → ReadsNext impl TokenType.done 0 []
next_done xs impl at =
    let left = length-At impl (chars xs ++ []) at in
    let sum = length-append (chars xs) [] in
    from_Reads (length xs + 0) impl TokenType.done 0 [] (omega (arith, length-chars xs)) (
      Reads-chars xs [] [] TokenType.done 0 0 _ impl at (λ loc' impl' at'. record {
        place = loc';
        after = impl';
        runs = unfold scan in refl;
        stands = at';
      }))
