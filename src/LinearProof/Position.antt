-- ===== src/LinearProof/Position.antt =====
-- The lookups in a string of permutations read three bits in a row, across byte boundaries.
use empirical_zero_knowledge.Prelude.{
  ℕ, ◌+◌, ◌-◌, ◌*◌, ◌/◌, ◌^◌, ◌<◌, ◌≤◌, ◌≡◌, Bool, false, some, List, ltb, if◌then◌else◌, length,
  u32, get_elem?-eq-get_or, arith, Bool-cases, inl, inr,
}
use empirical_zero_knowledge.BitString.Laws.{bit_at}
use empirical_zero_knowledge.LinearProof.Tables.{perms, reorder}
use empirical_zero_knowledge.LinearProof.Builder.{
  to_nat, bit_from, third_bit, second_bit, apply_permutation,
}

bit_from_lem :
    (p : List ℕ) (i byte_idx bit_idx : ℕ)
    → i ≡ byte_idx * 8 + bit_idx
    → bit_idx < 8
    → i < 8 * length p
    → bit_from p byte_idx bit_idx ≡ some (bit_at p i)
unfolding bit_from bit_at
bit_from_lem p i byte_idx bit_idx e small range =
    let q : i / 8 ≡ byte_idx = omega arith in
    let r : i - byte_idx * 8 ≡ bit_idx = omega arith in
    rw (q, r, get_elem?-eq-get_or p byte_idx 0 (omega arith))

-- What three bits select.
abbrev pub select : Bool → Bool → Bool → List ℕ → List ℕ
select bit1 bit2 bit3 indx =
    let perm_to_use = to_nat bit3 * 4 + to_nat bit2 * 2 + to_nat bit1 in
    if ltb 5 perm_to_use then indx else reorder perms perm_to_use indx

module _ (p : List ℕ) (lp : ℕ) (fits : length p ≤ lp) (indx : List ℕ) where
  third_bit_lem :
      (i byte_idx bit_idx : ℕ) (bit1 bit2 : Bool)
      → i ≡ byte_idx * 8 + bit_idx
      → bit_idx < 8
      → i < 8 * length p
      → third_bit p indx byte_idx bit_idx bit1 bit2 ≡ some (select bit1 bit2 (bit_at p i) indx)
  unfolding third_bit
  third_bit_lem i byte_idx bit_idx bit1 bit2 e small range =
      rw (bit_from_lem p i byte_idx bit_idx e small range)

  second_bit_lem :
      (i byte_idx bit_idx : ℕ) (bit1 : Bool)
      → i ≡ byte_idx * 8 + bit_idx
      → bit_idx < 8
      → i + 1 < 8 * length p
      → second_bit p lp indx byte_idx bit_idx bit1
        ≡ some (select bit1 (bit_at p i) (bit_at p (i + 1)) indx)
  unfolding second_bit
  second_bit_lem i byte_idx bit_idx bit1 e small range =
      rw (bit_from_lem p i byte_idx bit_idx e small (omega arith))
        (elim (Bool-cases (ltb 6 bit_idx)) [
          | inl over ↦
              let there : ltb lp (byte_idx + 1) ≡ false = ground arith in
              let last : bit_idx ≡ 7 = ground arith in
              rw (over, there)
                (third_bit_lem (i + 1) (byte_idx + 1) 0 bit1 (bit_at p i) (omega arith)
                  (omega arith) range)
          | inr under ↦
              let less : bit_idx < 7 = ground arith in
              rw under (
                third_bit_lem (i + 1) byte_idx (bit_idx + 1) bit1 (bit_at p i) (omega arith)
                  (omega arith) range)
        ])

  -- If 3k is below `2 ^ 32`, bits 3k to 3k + 2 lie in the string and the length given is at least
  -- its length, the lookup number k succeeds and reorders `indx` by the permutation that these
  -- bits select.
  pub apply_permutation_lem :
      (k : ℕ)
      → 3 * k < 2 ^ 32
      → 3 * k + 2 < 8 * length p
      → apply_permutation p lp indx k
        ≡ some (select (bit_at p (3 * k)) (bit_at p (3 * k + 1)) (bit_at p (3 * k + 2)) indx)
  unfolding apply_permutation
  apply_permutation_lem k small range =
      let i = 3 * k in
      let same : u32 (3 * k) ≡ i = omega arith in
      let next : i + 1 + 1 ≡ i + 2 = omega arith in
      rw
        (
          same,
          bit_from_lem p i (i / 8) (i - i / 8 * 8) (omega arith) (omega arith) (omega arith),
          ← next,
        )
        (elim (Bool-cases (ltb 6 (i - i / 8 * 8))) [
          | inl over ↦
              let there : ltb lp (i / 8 + 1) ≡ false = ground arith in
              let last : i - i / 8 * 8 ≡ 7 = ground arith in
              rw (over, there)
                (second_bit_lem (i + 1) (i / 8 + 1) 0 (bit_at p i) (omega arith) (omega arith)
                  (omega arith))
          | inr under ↦
              let less : i - i / 8 * 8 < 7 = ground arith in
              rw under (
                second_bit_lem (i + 1) (i / 8) (i - i / 8 * 8 + 1) (bit_at p i) (omega arith)
                  (omega arith) (omega arith))
        ])
