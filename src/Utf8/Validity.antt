-- ===== src/Utf8/Validity.antt =====
-- The test of a whole text (`platform/osal/src/utf8string.c`).
use empirical_zero_knowledge.Prelude.{
  ℕ, zero, suc, ◌+◌, ◌-◌, ◌<◌, ◌≤◌, ◌≡◌, refl, Bool, true, false, Bool-cases, inl, inr, Option,
  some, ◌>>=◌, List, [], ◌∷◌, length, get_elem?, drop, ltb, arith, length-drop,
}
use empirical_zero_knowledge.Utf8.{
  is_continuation, continued, more_bytes, valid_point, valid_loop, utf8_is_valid,
}

continued_total : (s : List ℕ) (n : ℕ) → n ≤ length s → (ok : Bool) × (continued s n ≡ some ok)
unfolding continued
continued_total s zero h = (true, refl)
continued_total [] (suc n) h = absurd (omega arith)
continued_total (b ∷ s) (suc n) h = elim (Bool-cases (is_continuation b)) [
  | inl yes_it_is ↦ let (ok, rest) = continued_total s n (omega arith) in (ok, rw yes_it_is rest)
  | inr no_it_is ↦ (false, rw no_it_is refl)
]

module _ (rest : List ℕ → ℕ → Option Bool) (s : List ℕ) (left : ℕ) (pos : 0 < left)
    (room : left + 3 ≤ length s)
    (fails : (n : ℕ) → n < 5 → 0 < n → rest (drop n s) (left - n) ≡ some false) where
  settle :
      (b : Bool) (n : ℕ)
      → rest (drop n s) (left - n) ≡ some false
      → elim b as (λ x. Option Bool) [ false ↦ some false | true ↦ rest (drop n s) (left - n) ]
        ≡ some false
  settle true n h = h
  settle false n h = refl

  more_bytes_lem : (n : ℕ) → n < 4 → more_bytes rest n s left ≡ some false
  unfolding more_bytes
  more_bytes_lem n few = elim (Bool-cases (ltb left n)) [
    | inl short ↦ rw short refl
    | inr long ↦
        let (ok, found) = continued_total (drop 1 s) n (omega (arith, length-drop 1 s)) in
        rw (long, found) (settle ok (n + 1) (fails (n + 1) (omega arith) (omega arith)))
  ]

  valid_point_lem : (b : ℕ) → valid_point rest b s left ≡ some false
  unfolding valid_point
  valid_point_lem b = ground (
    arith,
    fails 1 (omega arith) (omega arith),
    more_bytes_lem 1 (omega arith),
    more_bytes_lem 2 (omega arith),
    more_bytes_lem 3 (omega arith),
  )

read_first :
    (rest : List ℕ → ℕ → Option Bool) (s : List ℕ) (left : ℕ)
    → left + 3 ≤ length s
    → 0 < left
    → ((n : ℕ) → n < 5 → 0 < n → rest (drop n s) (left - n) ≡ some false)
    → (get_elem? s 0 >>= λ b. valid_point rest b s left) ≡ some false
read_first rest [] left room pos fails = absurd (omega arith)
read_first rest (b ∷ s) left room pos fails = valid_point_lem rest (b ∷ s) left pos room fails b

valid_loop_lem :
    (fuel : ℕ) (s : List ℕ) (left : ℕ)
    → left < fuel
    → (0 < left → left + 3 ≤ length s)
    → valid_loop fuel s left ≡ some false
unfolding valid_loop
valid_loop_lem zero s left h k = absurd (omega arith)
valid_loop_lem (suc fuel) s left h k = elim (Bool-cases (ltb 0 left)) [
  | inr done ↦ rw (done, valid_loop) refl
  | inl more ↦
      let pos : 0 < left = ground arith in
      let room : left + 3 ≤ length s = k pos in
      rw (more, valid_loop)
        (read_first (valid_loop fuel) s left room pos (λ n few one.
          valid_loop_lem fuel (drop n s) (left - n) (omega arith)
            (λ some_left. omega (arith, length-drop n s))))
]

-- Whatever the bytes are, of which three more can be read behind the text, the test of a text ends
-- and says that it is no UTF-8.
pub utf8_is_valid-false :
    (s : List ℕ) (ls : ℕ) → ls + 3 ≤ length s → utf8_is_valid s ls ≡ some false
unfolding utf8_is_valid
utf8_is_valid-false s ls room = valid_loop_lem (ls + 1) s ls (omega arith) (λ pos. room)
