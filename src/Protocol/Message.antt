-- ===== src/Protocol/Message.antt =====
-- The string that the prover commits to (`executeProof` in `empiricalZK/rtz14/src/rtz14.c`): the
-- emitted string, then the auxiliary bits of the AND gates.
use Prim.Native.Nat.{bit_and-bitwise}
use empirical_zero_knowledge.Prelude.{
  ℕ, zero, suc, ◌+◌, ◌-◌, ◌*◌, ◌/◌, ◌^◌, ◌<◌, ◌≤◌, ◌≡◌, refl, ◌∙◌, Bool, false, ◌&&◌, Option, some,
  ◌>>=◌, List, ◌==◌, ltb, leb, if◌then◌else◌, Bool-cases, inl, inr, length, get_or,
  length-replicate, replicate, IsBytes, IsBytes-replicate, u32, arith, ==_iff,
}
use empirical_zero_knowledge.BitString.{get_bit, set_bit, test_bit}
use empirical_zero_knowledge.BitString.Laws.{bit_at, get_bit-eq-bit_at, set_bit-IsWritten}

-- `emitted_len` is `emitted_string_bit_len`.
module _ (emitted aux : List ℕ) (emitted_len : ℕ) where
  message_bit : ℕ → Option Bool
  message_bit bit_i =
      if ltb bit_i emitted_len then get_bit emitted bit_i else get_bit aux (bit_i - emitted_len)

  -- The loop from `bit_i` on, with `left` bits to go.
  message_loop : ℕ → ℕ → List ℕ → Option (List ℕ)
  unfolding message_bit
  message_loop zero bit_i message = some message
  message_loop (suc left) bit_i message = do
    bit ← message_bit bit_i
    message' ← set_bit message bit_i bit
    message_loop left (bit_i + 1) message'

unfoldable pub build_message : ℕ → ℕ → List ℕ → List ℕ → ℕ → Option (List ℕ)
unfolding message_loop
build_message circuit_size no_inputs emitted aux no_ands =
    let emitted_len = u32 (circuit_size + no_inputs) in
    let bit_l = u32 (emitted_len + u32 (no_ands * 3)) in
    message_loop emitted aux emitted_len bit_l 0 (replicate (u32 (bit_l + 7) / 8) 0)

bit_at-replicate : (n i : ℕ) → bit_at (replicate n 0) i ≡ false
unfolding bit_at test_bit
bit_at-replicate n i = rw (zero_at n (i / 8)) (zero_bit (i - i / 8 * 8))
  where
    zero_at : (n k : ℕ) → get_or {A = ℕ} (replicate n 0) k 0 ≡ 0
    zero_at zero k = refl
    zero_at (suc n) zero = refl
    zero_at (suc n) (suc k) = zero_at n k

    zero_bit : (k : ℕ) → test_bit 0 k ≡ false
    zero_bit k = rw (bit_and-bitwise 0 (2 ^ k)) refl

module _ (emitted aux : List ℕ) (emitted_len : ℕ) where
  -- The bit that belongs at an index.
  abbrev pub source_bit : ℕ → Bool
  source_bit i = if ltb i emitted_len then bit_at emitted i else bit_at aux (i - emitted_len)

  module _ (l : ℕ) (covers : emitted_len ≤ 8 * length emitted)
      (enough : l ≤ emitted_len + 8 * length aux) where
    message_bit_lem : (i : ℕ) → i < l → message_bit emitted aux emitted_len i ≡ some (source_bit i)
    unfolding message_bit
    message_bit_lem i lt = elim (Bool-cases (ltb i emitted_len)) [
      | inl e ↦
          let h : i < emitted_len = ground arith in rw e (get_bit-eq-bit_at emitted i (omega arith))
      | inr e ↦
          let h : emitted_len ≤ i = ground arith in
          rw e (get_bit-eq-bit_at aux (i - emitted_len) (omega arith))
    ]

    record IsCopied (from : ℕ) (message message' : List ℕ) : Type 0 where
      bytes : IsBytes message'
      same_length : length message' ≡ length message
      reads :
          (j : ℕ)
          → bit_at message' j ≡ (if leb from j && ltb j l then source_bit j else bit_at message j)

    message_loop_lem :
        (left i : ℕ) (message : List ℕ)
        → i + left ≡ l
        → IsBytes message
        → l ≤ 8 * length message
        → (message' : List ℕ) × (message_loop emitted aux emitted_len left i message
            ≡ some message')
          × IsCopied i message message'
    unfolding message_loop
    message_loop_lem zero i message e bytes fits =
        (message, refl, record { bytes = bytes; same_length = refl; reads = λ j. ground arith })
    message_loop_lem (suc left) i message e bytes fits =
        let (next, done, w) = set_bit-IsWritten message i (source_bit i) bytes (omega arith) in
        let same : length next ≡ length message = w.same_length in
        let (message', rest, c) =
          message_loop_lem left (i + 1) next (omega arith) w.bytes (omega arith) in
        (
          message',
          rw (message_bit_lem i (omega arith), done) rest,
          record {
            bytes = c.bytes;
            same_length = c.same_length ∙ same;
            reads = λ j. c.reads j ∙ rw (w.reads j) (extend i j left e (bit_at message j));
          },
        )
      where
        extend :
            (i j left : ℕ)
            → i + suc left ≡ l
            → (old : Bool)
            → (if leb (i + 1) j && ltb j l
                then source_bit j
                else if j == i
                then source_bit i
                else old)
              ≡ (if leb i j && ltb j l then source_bit j else old)
        extend i j left e old = elim (Bool-cases (j == i)) [
          | inl same ↦ let eq : j ≡ i = (==_iff j i).0 same in rw (same, eq) (ground arith)
          | inr other ↦ rw other (ground arith)
        ]

-- Below the bound nothing wraps.
without_wrap :
    (circuit_size no_inputs : ℕ) (emitted aux : List ℕ) (no_ands : ℕ)
    → let n = circuit_size + no_inputs in
      let l = n + no_ands * 3 in
      l + 7 < 2 ^ 32
      → let n = circuit_size + no_inputs in
        let l = n + no_ands * 3 in
        build_message circuit_size no_inputs emitted aux no_ands
        ≡ message_loop emitted aux n l 0 (replicate ((l + 7) / 8) 0)
unfolding build_message
without_wrap circuit_size no_inputs emitted aux no_ands small =
    let n = circuit_size + no_inputs in
    let l = n + no_ands * 3 in
    let same_n : u32 (circuit_size + no_inputs) ≡ n = omega arith in
    let same_ands : u32 (no_ands * 3) ≡ no_ands * 3 = omega arith in
    let same_l : u32 (n + no_ands * 3) ≡ l = omega arith in
    let same_width : u32 (l + 7) / 8 ≡ (l + 7) / 8 = omega arith in
    rw (same_n, same_ands, same_l, same_width) refl

-- If the two strings hold their bits and the number of bits does not wrap, the message is built,
-- and it has the length for its bits, holds bytes, and has the emitted bits, the auxiliary bits
-- behind them, and zeros from there on.
pub build_message_lem :
    (circuit_size no_inputs : ℕ) (emitted aux : List ℕ) (no_ands : ℕ)
    → let emitted_len = circuit_size + no_inputs in
      let bit_l = emitted_len + no_ands * 3 in
      bit_l + 7 < 2 ^ 32
      → circuit_size + no_inputs ≤ 8 * length emitted
      → no_ands * 3 ≤ 8 * length aux
      → (message : List ℕ) × (build_message circuit_size no_inputs emitted aux no_ands
          ≡ some message)
        × (length message ≡ (circuit_size + no_inputs + no_ands * 3 + 7) / 8)
        × IsBytes message
        × ((i : ℕ)
            → bit_at message i ≡ (
                if ltb i (circuit_size + no_inputs + no_ands * 3)
                then source_bit emitted aux (circuit_size + no_inputs) i
                else false))
build_message_lem circuit_size no_inputs emitted aux no_ands small covers enough =
    let n = circuit_size + no_inputs in
    let l = n + no_ands * 3 in
    let wide : length {A = ℕ} (replicate ((l + 7) / 8) 0) ≡ (l + 7) / 8 =
      length-replicate ((l + 7) / 8) 0 in
    let (message, built, c) =
      message_loop_lem emitted aux n l covers (omega arith) l 0 (replicate ((l + 7) / 8) 0)
        (omega arith) (IsBytes-replicate ((l + 7) / 8)) (omega arith) in
    (
      message,
      without_wrap circuit_size no_inputs emitted aux no_ands small ∙ built,
      c.same_length ∙ wide,
      c.bytes,
      λ i. c.reads i ∙ rw (bit_at-replicate ((l + 7) / 8) i) (ground arith),
    )
