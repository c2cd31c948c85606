-- ===== src/Der/Context/Collapse.antt =====
-- The encoding of a whole context by `der_end_seq`: the two calls of `der_encode_seq`, with the copies
-- between them.
use empirical_zero_knowledge.Prelude.{
  ℕ, ◌+◌, ◌-◌, ◌^◌, ◌<◌, ◌≡◌, refl, sym, ap, ap₂, ◌∙◌, none, some, List, [], ◌∷◌, ◌++◌, length,
  take, drop, replicate, u32, length-append, take-all, drop-all, length-replicate, replicate_add,
  concat, arith,
}
use mathlib.Core.List.{append-nil}
use empirical_zero_knowledge.Der.Outcome.{done, >>=-done}
use empirical_zero_knowledge.Der.Length.{len_len, len_bytes, len_len_bounds}
use empirical_zero_knowledge.Der.Sequence.{payload_length, store_all, encode_seq}
use empirical_zero_knowledge.Der.Sequence.Written.{
  drop-length-append, payload_length-concat, store_all-append, seq_bytes, length-seq_bytes,
  encode_seq-none, encode_seq_lem,
}
use empirical_zero_knowledge.Der.Context.{Subs, collapse_into, collapse}

pub append_single : (xs : List ℕ) → length (concat (xs ∷ [])) ≡ length xs
append_single xs = ap length (append-nil xs)

seq_bytes_single : (args : Subs) → seq_bytes (concat args ∷ []) ≡ seq_bytes args
unfolding seq_bytes
seq_bytes_single args = ap (λ r. 0x30 ∷ (len_bytes (length r) ++ r)) (append-nil (concat args))

-- The encoding of a context is the sequence of its elements.
module _ (args : Subs) (small : length (concat args) < 2 ^ 31) where
  abbrev whole : ℕ
  whole = length (seq_bytes args)

  abbrev front : ℕ
  front = 1 + len_len (length (concat args))

  copied : store_all (replicate whole 0) front args ≡ done (replicate front 0 ++ concat args, whole)
  copied =
      let n = length (concat args) in
      let (least, most) = len_len_bounds n in
      let total = length-seq_bytes args in
      let zeros = replicate {A = ℕ} front 0 in
      let new : length zeros ≡ front = length-replicate {A = ℕ} front 0 in
      let old : length (replicate {A = ℕ} n 0) ≡ n = length-replicate {A = ℕ} n 0 in
      ap (λ k. store_all (replicate k 0) front args) total
      ∙ ap₂ (λ mem k. store_all mem k args) (replicate_add {A = ℕ} front n 0) (sym new)
      ∙ store_all-append args zeros (replicate n 0) (omega arith) (omega arith)
      ∙ ap₂ (λ r k. done (zeros ++ r, k))
          (ap (λ r. concat args ++ r) (drop-all n (replicate n 0) old) ∙ append-nil (concat args))
          (omega arith)

  collapse_into_lem : collapse_into whole (length (concat args)) args ≡ done (seq_bytes args)
  unfolding collapse_into
  collapse_into_lem =
      let n = length (concat args) in
      let (least, most) = len_len_bounds n in
      let total = length-seq_bytes args in
      let zeros = replicate {A = ℕ} front 0 in
      let new : length zeros ≡ front = length-replicate {A = ℕ} front 0 in
      let idx : u32 (whole + 2 ^ 32 - n) ≡ front = omega arith in
      let result = zeros ++ concat args in
      let size : length result ≡ whole = omega (arith, length-append zeros (concat args)) in
      let behind : drop front result ≡ concat args =
        ap (λ k. drop k result) (sym new) ∙ drop-length-append zeros (concat args) in
      let slice : take n (drop front result) ≡ concat args =
        ap (take n) behind ∙ take-all n (concat args) refl in
      let same : length (seq_bytes (concat args ∷ [])) ≡ whole =
        ap length (seq_bytes_single args) in
      let single = append_single (concat args) in
      rw idx (
        >>=-done (store_all (replicate whole 0) front args) _ _ copied
        ∙ >>=-done (encode_seq (some result) whole 0 (take n (drop front result) ∷ [])) _ _ (
            ap (λ r. encode_seq (some result) whole 0 (r ∷ [])) slice
            ∙ encode_seq_lem (concat args ∷ []) result whole (omega arith) (omega arith)
                (omega arith))
        ∙ ap done (
            ap₂ (λ a b. a ++ b) (seq_bytes_single args) (drop-all _ result (size ∙ sym same))
            ∙ append-nil (seq_bytes args)))

  pub collapse_lem : collapse args ≡ done (seq_bytes args)
  unfolding collapse
  collapse_lem =
      let n = length (concat args) in
      let bogus = replicate {A = ℕ} n 0 in
      let tlen : payload_length 0 args ≡ n =
        payload_length-concat 0 args (omega arith) ∙ omega arith in
      let count : length (concat (bogus ∷ [])) ≡ n =
        append_single bogus ∙ length-replicate {A = ℕ} n 0 in
      let same : length (seq_bytes (bogus ∷ [])) ≡ whole =
        length-seq_bytes (bogus ∷ [])
        ∙ ap (λ k. 1 + len_len k + k) count
        ∙ sym (length-seq_bytes args) in
      rw tlen (
        >>=-done (encode_seq none 0 0 (bogus ∷ [])) _ _
          (encode_seq-none (bogus ∷ []) 0 (omega arith))
        ∙ ap (λ k. collapse_into k n args) same
        ∙ collapse_into_lem)
