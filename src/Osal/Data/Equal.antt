-- ===== src/Osal/Data/Equal.antt =====
-- When `Data_equal` finds two strings equal, and that it does so for a copy
-- (`platform/osal/posix_src/osal.c`).
use empirical_zero_knowledge.Prelude.{
  ℕ, zero, suc, ◌<◌, ◌≤◌, ◌≡◌, ◌≢◌, refl, sym, ap, ap₂, ◌∙◌, ◌↔◌, Bool, true, false, Bool-cases,
  inl, inr, some, ◌>>=◌, List, [], ◌∷◌, ◌++◌, length, get_elem?, set, replicate, length-replicate,
  length-set, take, take-all, drop, drop-all, ltb, ◌==◌, ==_iff, ==_refl, if◌then◌else◌, arith,
}
use mathlib.Core.List.{append-nil}
use empirical_zero_knowledge.Osal.Data.{mcmp, is_same, data_equal, copy_down, data_copy}

-- Whether two strings are the same, byte by byte.
abbrev pub eq_bytes : List ℕ → List ℕ → Bool
eq_bytes [] [] = true
eq_bytes [] (b ∷ bs) = false
eq_bytes (a ∷ as') [] = false
eq_bytes (a ∷ as') (b ∷ bs) = if a == b then eq_bytes as' bs else false

mcmp-eq_bytes :
    (a b : List ℕ)
    → length a ≡ length b
    → (mcmp a b (length a) >>= λ sign. some (is_same sign)) ≡ some (eq_bytes a b)
unfolding mcmp is_same
mcmp-eq_bytes [] [] h = refl
mcmp-eq_bytes [] (b ∷ bs) h = absurd (omega arith)
mcmp-eq_bytes (a ∷ as') [] h = absurd (omega arith)
mcmp-eq_bytes (a ∷ as') (b ∷ bs) h = ground (arith, mcmp-eq_bytes as' bs (omega arith))

eq_bytes_refl : (a : List ℕ) → eq_bytes a a ≡ true
eq_bytes_refl [] = refl
eq_bytes_refl (x ∷ a) = rw (==_refl x) (eq_bytes_refl a)

eq_bytes→eq : (a b : List ℕ) → eq_bytes a b ≡ true → a ≡ b
eq_bytes→eq [] [] h = refl
eq_bytes→eq [] (b ∷ bs) h = cc
eq_bytes→eq (a ∷ as') [] h = cc
eq_bytes→eq (a ∷ as') (b ∷ bs) h = elim (Bool-cases (a == b)) [
  | inl head ↦ ap₂ (λ x xs. x ∷ xs) ((==_iff a b).0 head) (eq_bytes→eq as' bs (rw head at h))
  | inr other ↦ let wrong = rw other at h in cc
]

length-eq_bytes : (a b : List ℕ) → length a ≢ length b → eq_bytes a b ≡ false
length-eq_bytes [] [] ne = absurd (ne refl)
length-eq_bytes [] (b ∷ bs) ne = refl
length-eq_bytes (a ∷ as') [] ne = refl
length-eq_bytes (a ∷ as') (b ∷ bs) ne =
    ground (arith, length-eq_bytes as' bs (λ e. ne (omega arith)))

data_equal-eq_bytes : (a b : List ℕ) → data_equal (some a) (some b) ≡ some (eq_bytes a b)
unfolding data_equal
data_equal-eq_bytes a b = elim (Bool-cases (length a == length b)) [
  | inl same_length ↦ rw same_length (mcmp-eq_bytes a b ((==_iff _ _).0 same_length))
  | inr other ↦ rw other (ap some (sym (length-eq_bytes a b (λ e. ground arith))))
]

drop-set : (res : List ℕ) (i b : ℕ) → i < length res → drop i (set res i b) ≡ b ∷ drop (suc i) res
drop-set [] i b h = absurd (omega arith)
drop-set (x ∷ res) zero b h = refl
drop-set (x ∷ res) (suc i) b h = drop-set res i b (omega arith)

take_one_more :
    (other : List ℕ) (i : ℕ)
    → i < length other
    → (b : ℕ) × (get_elem? other i ≡ some b)
      × ((rest : List ℕ) → take (suc i) other ++ rest ≡ take i other ++ b ∷ rest)
take_one_more [] i h = absurd (omega arith)
take_one_more (x ∷ other) zero h = (x, refl, λ rest. refl)
take_one_more (x ∷ other) (suc i) h =
    let (b, here, more) = take_one_more other i (omega arith) in
    (b, here, λ rest. ap (λ r. x ∷ r) (more rest))

copy_down_lem :
    (i : ℕ) (other res : List ℕ)
    → length res ≡ length other
    → i ≤ length other
    → copy_down i other res ≡ some (take i other ++ drop i res)
unfolding copy_down
copy_down_lem zero other res same_length h = refl
copy_down_lem (suc i) other res same_length h =
    let (b, here, more) = take_one_more other i (omega arith) in
    let inside : ltb i (length res) ≡ true = ground arith in
    rw (here, inside)
      (copy_down_lem i other (set res i b) (length-set res i b ∙ same_length) (omega arith)
        ∙ ap (λ r. some (take i other ++ r)) (drop-set res i b (omega arith))
        ∙ ap some (sym (more (drop (suc i) res))))

-- Two strings are found equal exactly if their bytes are, and a copy is equal to what was copied.
pub data_equal-data_copy :
    (a b : List ℕ) → ((data_equal (some a) (some b) ≡ some true) ↔ (a ≡ b)) × (data_copy a ≡ some a)
unfolding data_copy
data_equal-data_copy a b =
    let zeros : List ℕ = replicate (length a) 0 in
    let wide : length zeros ≡ length a = length-replicate (length a) 0 in
    (
      (
        (λ h. eq_bytes→eq a b (let e = sym (data_equal-eq_bytes a b) ∙ h in cc)),
        (λ e. data_equal-eq_bytes a b ∙ ap some (ap (eq_bytes a) (sym e) ∙ eq_bytes_refl a)),
      ),
      copy_down_lem (length a) a zeros wide (omega arith)
          ∙ ap₂ (λ front back. some (front ++ back)) (take-all (length a) a refl)
              (drop-all (length a) zeros wide)
          ∙ ap some (append-nil a),
    )
