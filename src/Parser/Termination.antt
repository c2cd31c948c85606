-- ===== src/Parser/Termination.antt =====
-- The loop of the tokenizer ends: more turns than characters change nothing.
use empirical_zero_knowledge.Prelude.{
  ℕ, zero, suc, ◌-◌, ◌^◌, ◌<◌, ◌≤◌, ◌≡◌, refl, ap, Bool, true, false, Bool-cases, inl, inr, List,
  [], ◌∷◌, ltb, length, get_or, ◌==◌, length-drop, arith,
}
use empirical_zero_knowledge.Parser.Tokenizer.{
  Location, Fct, read_name, advance, skip, here, located, token_here, scan,
}

-- A name does not reach behind the source.
pub read_name-le : (inside : Bool) (rest : List ℕ) → read_name inside rest ≤ length rest
unfolding read_name
read_name-le inside [] = omega arith
read_name-le inside (c ∷ rest) = ground (arith, read_name-le true rest)

-- The turns that are enough.
abbrev pub turns : Fct → ℕ
turns impl = length impl.data_ - impl.cur

pub turns-skip :
    (c : ℕ) (impl : Fct)
    → length impl.data_ < 2 ^ 32
    → impl.cur < length impl.data_
    → (turns (skip c impl) < turns impl) × (length (skip c impl).data_ ≡ length impl.data_)
turns-skip c impl small lt = elim (Bool-cases (c == 10)) [
  | inl e ↦ rw e (omega arith, refl)
  | inr e ↦ rw e (omega arith, refl)
]

-- For a source of less than `2 ^ 32` bytes, the loop gives the same token for any two numbers
-- of turns that are at least the number of characters left.
scan_enough :
    (n m : ℕ) (location : Location) (impl : Fct)
    → length impl.data_ < 2 ^ 32
    → turns impl ≤ n
    → turns impl ≤ m
    → scan n location impl ≡ scan m location impl
unfolding scan
scan_enough zero zero location impl small p q = refl
scan_enough zero (suc m) location impl small p q =
    let behind : ltb impl.cur (length impl.data_) ≡ false = ground arith in rw behind refl
scan_enough (suc n) zero location impl small p q =
    let behind : ltb impl.cur (length impl.data_) ≡ false = ground arith in rw behind refl
scan_enough (suc n) (suc m) location impl small p q =
    elim (Bool-cases (ltb impl.cur (length impl.data_))) [
      | inr behind ↦ rw behind refl
      | inl inside ↦
          let lt : impl.cur < length impl.data_ = ground arith in
          let name_len = read_name false (here impl) in
          let (fewer, same) = turns-skip (get_or (here impl) 0 0) impl small lt in
          let next =
            scan_enough n m (located impl) (skip (get_or (here impl) 0 0) impl) (omega arith)
              (omega arith) (omega arith) in
          let bound : name_len ≤ length impl.data_ - impl.cur =
            omega (arith, read_name-le false (here impl), length-drop impl.cur impl.data_) in
          rw inside (elim (Bool-cases (ltb 3 name_len)) [
            | inl long ↦
                let some_taken : 3 < name_len = ground arith in
                rw long (
                  scan_enough n m (located impl) (advance name_len impl) small (omega arith)
                    (omega arith))
            | inr short ↦ rw short (ap (token_here impl) next)
          ])
    ]
