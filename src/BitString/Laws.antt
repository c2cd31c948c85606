-- ===== src/BitString/Laws.antt =====
-- What a read sees after a write, and the range of indices at which neither leaves the array.
use empirical_zero_knowledge.Prelude.{
  ℕ, zero, suc, ◌-◌, ◌*◌, ◌/◌, ◌<◌, ◌≡◌, refl, Bool, true, false, not, ◌&&◌, some, List, [], ◌∷◌,
  ◌==◌, leb, if◌then◌else◌, length, get_or, set, arith, passes, passes_at, digit, IsBytes,
  IsBytes-set, get_elem?-eq-get_or, get_or-set, length-set,
}
use empirical_zero_knowledge.BitString.{test_bit, write_bit, get_bit, set_bit}

abbrev same : Bool → Bool → Bool
same true b = b
same false b = not b

same→eq : (a b : Bool) → same a b ≡ true → a ≡ b
same→eq a b h = ground arith

write_table :
    passes
      (λ b.
        passes
          (λ k.
            passes
              (λ j.
                same (test_bit (write_bit b k true) j) (if j == k then true else test_bit b j)
                && same (test_bit (write_bit b k false) j) (if j == k then false else test_bit b j))
              8)
          8)
      256
    ≡ true
unfolding passes test_bit write_bit
write_table = refl

digit_table : passes (λ b. passes (λ k. same (test_bit b k) (digit b k == 1)) 8) 256 ≡ true
unfolding passes test_bit digit
digit_table = refl

write_lt_table :
    passes (λ b. passes (λ k. leb (write_bit b k true) 255 && leb (write_bit b k false) 255) 8) 256
    ≡ true
unfolding passes write_bit
write_lt_table = refl

test-write :
    (b k j : ℕ) (bit : Bool)
    → b < 256
    → k < 8
    → j < 8
    → test_bit (write_bit b k bit) j ≡ (if j == k then bit else test_bit b j)
test-write b k j bit hb hk hj =
    let row = passes_at _ j 8 hj (passes_at _ k 8 hk (passes_at _ b 256 hb write_table)) in
    pick bit row
  where
    pick :
        (bit : Bool)
        → (same (test_bit (write_bit b k true) j) (if j == k then true else test_bit b j)
            && same (test_bit (write_bit b k false) j) (if j == k then false else test_bit b j))
          ≡ true
        → test_bit (write_bit b k bit) j ≡ (if j == k then bit else test_bit b j)
    pick true row = ground arith
    pick false row = ground arith

write-lt : (b k : ℕ) (bit : Bool) → b < 256 → k < 8 → write_bit b k bit < 256
write-lt b k bit hb hk =
    let row = passes_at _ k 8 hk (passes_at _ b 256 hb write_lt_table) in pick bit row
  where
    pick :
        (bit : Bool)
        → (leb (write_bit b k true) 255 && leb (write_bit b k false) 255) ≡ true
        → write_bit b k bit < 256
    pick true row = ground arith
    pick false row = ground arith

pub test_bit-digit : (b k : ℕ) → b < 256 → k < 8 → test_bit b k ≡ (digit b k == 1)
test_bit-digit b k hb hk = same→eq _ _ (passes_at _ k 8 hk (passes_at _ b 256 hb digit_table))

-- The bit at an index, `false` outside the array.
unfoldable pub bit_at : List ℕ → ℕ → Bool
bit_at a i = test_bit (get_or a (i / 8) 0) (i - i / 8 * 8)

pub get_bit-eq-bit_at : (a : List ℕ) (i : ℕ) → i < 8 * length a → get_bit a i ≡ some (bit_at a i)
unfolding get_bit bit_at
get_bit-eq-bit_at a i h = rw (get_elem?-eq-get_or a (i / 8) 0 (omega arith))

-- `a'` is `a` with the bit at `i` set to `bit`.
pub record IsWritten (a : List ℕ) (i : ℕ) (bit : Bool) (a' : List ℕ) : Type 0 where
  pub bytes : IsBytes a'
  pub same_length : length a' ≡ length a
  pub reads : (j : ℕ) → bit_at a' j ≡ (if j == i then bit else bit_at a j)

IsBytes-get_or : (a : List ℕ) (i : ℕ) → IsBytes a → get_or a i 0 < 256
IsBytes-get_or [] i h = omega arith
IsBytes-get_or (x ∷ xs) zero h = h.0
IsBytes-get_or (x ∷ xs) (suc i) h = IsBytes-get_or xs i h.1

-- A write in range changes that bit and no other.
pub set_bit-IsWritten :
    (a : List ℕ) (i : ℕ) (bit : Bool)
    → IsBytes a
    → i < 8 * length a
    → (a' : List ℕ) × (set_bit a i bit ≡ some a') × IsWritten a i bit a'
unfolding set_bit
set_bit-IsWritten a i bit bytes h =
    let old = get_or a (i / 8) 0 in
    let new = write_bit old (i - i / 8 * 8) bit in
    let old_lt : old < 256 = IsBytes-get_or a (i / 8) bytes in
    (
      set a (i / 8) new,
      rw (get_elem?-eq-get_or a (i / 8) 0 (omega arith)),
      record {
        bytes =
            IsBytes-set a (i / 8) new bytes (write-lt old (i - i / 8 * 8) bit old_lt (omega arith));
        same_length = length-set a (i / 8) new;
        reads = λ j.
            unfold bit_at in
            rw (get_or-set a (i / 8) (j / 8) new 0 (omega arith))
              (ground (arith, test-write old (i - i / 8 * 8) (j - j / 8 * 8) bit));
      },
    )
