-- ===== src/Parser/Progress.antt =====
-- The tokenizer of `empiricalZK/rtz14/src/circuitparser.c` moves on with every token but the last.
use empirical_zero_knowledge.Prelude.{
  Ensures, Ensures-bind_with, Ensures-weaken, Ensures-if, ℕ, zero, suc, ◌+◌, ◌-◌, ◌*◌, ◌^◌, ◌<◌,
  ◌≤◌, ◌≡◌, refl, Bool, true, false, Bool-cases, inl, inr, ◌&&◌, Option, none, some, ◌>>=◌, List,
  [], ◌∷◌, length, length-drop, get_or, ltb, leb, u32, arith,
}
use empirical_zero_knowledge.Encoding.Integer.{atoui, atoui_loop}
use empirical_zero_knowledge.Parser.Termination.{turns, read_name-le, turns-skip}
use empirical_zero_knowledge.Parser.Tokenizer.{
  TokenType, Location, Token, Fct, read_name, keyword, advance, skip, here, located, token_here,
  scan, next_token,
}

-- The token that ends the loop.
abbrev pub is_end : TokenType → Bool
is_end t = elim t [ TokenType.done ↦ true | _ ↦ false ]

abbrev pub IsShort : Fct → Type 0
IsShort impl = length impl.data_ < 2 ^ 32 - 3

-- The tokenizer is not moved back, and on, if it gave a token.
pub record Moves (impl : Fct) (r : Token × Fct) : Type 0 where
  pub same : length r.1.data_ ≡ length impl.data_
  pub no_more : turns r.1 ≤ turns impl
  pub fewer : is_end r.0.type ≡ false → turns r.1 < turns impl

Moves-from :
    (impl impl' : Fct) (r : Token × Fct)
    → length impl'.data_ ≡ length impl.data_
    → turns impl' ≤ turns impl
    → Moves impl' r
    → Moves impl r
Moves-from impl impl' r len le moves =
    let same = moves.same in
    let no_more = moves.no_more in
    record {
      same = omega arith;
      no_more = omega arith;
      fewer = λ more. let fewer = moves.fewer more in omega arith;
    }

atoui_loop-le :
    (s : List ℕ) (result ls : ℕ)
    → Ensures (λ (r : ℕ × ℕ). (ls ≤ r.0) × (r.0 ≤ ls + length s)) (atoui_loop s result ls)
unfolding atoui_loop
atoui_loop-le [] result ls = tt
atoui_loop-le (c ∷ s) result ls =
    let Q = λ (r : ℕ × ℕ). (ls ≤ r.0) × (r.0 ≤ ls + length (c ∷ s)) in
    Ensures-if Q (leb 48 c && leb c 57) _ _
      (Ensures-weaken _ Q _ (atoui_loop-le s (u32 (u32 (result * 10) + (c - 48))) (ls + 1))
        (λ r bound. let low = bound.0 in let high = bound.1 in (omega arith, omega arith)))
      (omega arith, omega arith)

-- A number has at least one digit.
atoui-some :
    (s : List ℕ)
    → (leb 48 (get_or s 0 0) && leb (get_or s 0 0) 57) ≡ true
    → Ensures (λ (r : ℕ × ℕ). (0 < r.0) × (r.0 ≤ length s)) (atoui s)
unfolding atoui atoui_loop
atoui-some [] digit = tt
atoui-some (c ∷ s) digit = rw digit (
    Ensures-weaken _ (λ (r : ℕ × ℕ). (0 < r.0) × (r.0 ≤ length (c ∷ s))) _
      (atoui_loop-le s (u32 (u32 (0 * 10) + (c - 48))) (0 + 1))
      (λ r bound. let low = bound.0 in let high = bound.1 in (omega arith, omega arith)))

Moves-advance :
    (tok : Token) (taken : ℕ) (impl : Fct)
    → IsShort impl
    → impl.cur < length impl.data_
    → 0 < taken
    → taken ≤ (length impl.data_ - impl.cur) + 3
    → impl.cur + taken < 2 ^ 32
    → Moves impl (tok, advance taken impl)
Moves-advance tok taken impl short inside low high fits = record {
  same = refl;
  no_more = omega arith;
  fewer = λ more. omega arith;
}

Ensures-found :
    {A B : Type 0} (Q : B → Type 0) (m : Option (Option A)) (f : Option A → Option B)
    → ((a : A) → Ensures Q (f (some a)))
    → Ensures Q (f none)
    → Ensures Q (m >>= f)
Ensures-found Q none f p q = tt
Ensures-found Q (some none) f p q = q
Ensures-found Q (some (some a)) f p q = p a

token_here-Moves :
    (impl : Fct) (next : Option (Token × Fct))
    → IsShort impl
    → impl.cur < length impl.data_
    → Ensures (Moves impl) next
    → Ensures (Moves impl) (token_here impl next)
unfolding token_here
token_here-Moves impl next short inside later =
    Ensures-found (Moves impl) (keyword (here impl) (length impl.data_) none) _
      (λ type.
        Moves-advance (record { type = type; location = located impl; num = 0 }) 3 impl short inside
          (omega arith) (omega arith) (omega arith))
      (elim (Bool-cases (leb 48 (get_or (here impl) 0 0) && leb (get_or (here impl) 0 0) 57)) [
        | inl digit ↦ rw digit (
            Ensures-bind_with _ (Moves impl) (atoui (here impl)) _ (atoui-some (here impl) digit)
              (λ r bound.
                let low = bound.0 in
                let high = bound.1 in
                let left = length-drop impl.cur impl.data_ in
                Moves-advance (record { type = TokenType.num; location = located impl; num = r.1 })
                  r.0 impl short inside low (omega arith) (omega arith)))
        | inr other ↦ rw other later
      ])

done-Moves :
    (location : Location) (impl : Fct)
    → Moves impl (record { type = TokenType.done; location = location; num = 0 }, impl)
done-Moves location impl = record {
  same = refl;
  no_more = omega arith;
  fewer = λ more. absurd (cc);
}

scan-Moves :
    (n : ℕ) (location : Location) (impl : Fct)
    → IsShort impl
    → Ensures (Moves impl) (scan n location impl)
unfolding scan
scan-Moves zero location impl short = done-Moves location impl
scan-Moves (suc n) location impl short = elim (Bool-cases (ltb impl.cur (length impl.data_))) [
  | inr behind ↦ rw behind (done-Moves location impl)
  | inl within ↦
      let inside : impl.cur < length impl.data_ = ground arith in
      let c = get_or (here impl) 0 0 in
      let name_len = read_name false (here impl) in
      let (fewer, same) = turns-skip c impl (omega arith) inside in
      let past = advance name_len impl in
      let bound : name_len ≤ length impl.data_ - impl.cur =
        omega (arith, read_name-le false (here impl), length-drop impl.cur impl.data_) in
      rw within (elim (Bool-cases (ltb 3 name_len)) [
        | inl long ↦ rw long (
            Ensures-weaken (Moves past) (Moves impl) (scan n (located impl) past)
              (scan-Moves n (located impl) past short)
              (λ r moves. Moves-from impl past r refl (omega arith) moves))
        | inr brief ↦ rw brief (
            token_here-Moves impl (scan n (located impl) (skip c impl)) short inside (
              Ensures-weaken (Moves (skip c impl)) (Moves impl) _
                (scan-Moves n (located impl) (skip c impl) (omega arith))
                (λ r moves. Moves-from impl (skip c impl) r same (omega arith) moves)))
      ])
]

pub next_token-Moves : (impl : Fct) → IsShort impl → Ensures (Moves impl) (next_token impl)
unfolding next_token
next_token-Moves impl short =
    scan-Moves (length impl.data_ - impl.cur) (record { offset = 0; line = 0; linepos = 0 }) impl
      short
