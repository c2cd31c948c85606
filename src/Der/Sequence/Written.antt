-- ===== src/Der/Sequence/Written.antt =====
-- What `der_encode_seq` writes to a buffer that has room: the tag, the length of the arguments, and
-- the arguments one behind the other.
use empirical_zero_knowledge.Prelude.{
  ℕ, ◌+◌, ◌-◌, ◌^◌, ◌<◌, ◌≤◌, ◌≡◌, refl, sym, ap, ap₂, ◌∙◌, none, some, List, [], ◌∷◌, ◌++◌, length,
  drop, ltb, leb, u32, true, false, length-append, append_assoc, take-append_below, take-all,
  drop-all, drop-append_below, drop-drop, length-drop, concat, arith,
}
use empirical_zero_knowledge.Der.Outcome.{done, >>=-done}
use empirical_zero_knowledge.Der.Memory.{store}
use empirical_zero_knowledge.Der.Length.{len_len, len_bytes, length-len_bytes, len_len_bounds}
use empirical_zero_knowledge.Der.Sequence.{payload_length, store_all, write_seq, encode_seq}

pub drop-length-append : (pre old : List ℕ) → drop (length pre) (pre ++ old) ≡ old
drop-length-append pre old =
    drop-append_below (length pre) pre old (omega arith)
    ∙ ap (λ r. r ++ old) (drop-all (length pre) pre refl)

-- A write behind a prefix keeps the prefix, and what lies behind the write.
pub store-append :
    (pre old bytes : List ℕ)
    → length bytes ≤ length old
    → store (pre ++ old) (length pre) bytes ≡ done (pre ++ (bytes ++ drop (length bytes) old))
unfolding store
store-append pre old bytes room =
    let total : length (pre ++ old) ≡ length pre + length old = length-append pre old in
    let inside : leb (length pre + length bytes) (length (pre ++ old)) ≡ true = ground arith in
    rw inside (
      ap₂ (λ front back. done (front ++ (bytes ++ back)))
        (take-append_below (length pre) pre old (omega arith) ∙ take-all (length pre) pre refl)
        (sym (drop-drop (length bytes) (length pre) (pre ++ old))
          ∙ ap (drop (length bytes)) (drop-length-append pre old)))

pub payload_length-concat :
    (len : ℕ) (args : List (List ℕ))
    → len + length (concat args) < 2 ^ 32
    → payload_length len args ≡ len + length (concat args)
unfolding payload_length
payload_length-concat len [] h = omega arith
payload_length-concat len (buffer ∷ args) h =
    let total : length (buffer ++ concat args) ≡ length buffer + length (concat args) =
      length-append buffer (concat args) in
    let here : u32 (len + length buffer) ≡ len + length buffer = omega arith in
    rw here (payload_length-concat (len + length buffer) args (omega arith) ∙ omega arith)

-- Two writes, one behind the other, are one.
pub append_twice :
    (pre a b old : List ℕ)
    → (pre ++ a) ++ (b ++ drop (length b) (drop (length a) old))
      ≡ pre ++ ((a ++ b) ++ drop (length (a ++ b)) old)
append_twice pre a b old =
    append_assoc pre a (b ++ drop (length b) (drop (length a) old))
    ∙ ap (λ r. pre ++ r)
        (sym (append_assoc a b (drop (length b) (drop (length a) old)))
          ∙ ap (λ r. (a ++ b) ++ r)
              (drop-drop (length b) (length a) old
                ∙ ap (λ n. drop n old) (sym (length-append a b))))

pub store_all-append :
    (args : List (List ℕ)) (pre old : List ℕ)
    → length (concat args) ≤ length old
    → length pre + length (concat args) < 2 ^ 32
    → store_all (pre ++ old) (length pre) args
      ≡ done (
        pre ++ (concat args ++ drop (length (concat args)) old),
        length pre + length (concat args),
      )
unfolding store_all
store_all-append [] pre old room small = ap (λ n. done (pre ++ old, n)) (omega arith)
store_all-append (buffer ∷ args) pre old room small =
    let total : length (buffer ++ concat args) ≡ length buffer + length (concat args) =
      length-append buffer (concat args) in
    let behind : length (pre ++ buffer) ≡ length pre + length buffer = length-append pre buffer in
    let left : length (drop (length buffer) old) ≡ length old - length buffer =
      length-drop (length buffer) old in
    let next : u32 (length pre + length buffer) ≡ length (pre ++ buffer) = omega arith in
    >>=-done (store (pre ++ old) (length pre) buffer) _ _
      (store-append pre old buffer (omega arith))
    ∙ ap₂ (λ mem n. store_all mem n args) (sym (append_assoc pre buffer (drop (length buffer) old)))
        next
    ∙ store_all-append args (pre ++ buffer) (drop (length buffer) old) (omega arith) (omega arith)
    ∙ ap₂ (λ mem n. done (mem, n)) (append_twice pre buffer (concat args) old) (omega arith)

-- The encoding of a sequence of these elements.
unfoldable pub seq_bytes : List (List ℕ) → List ℕ
seq_bytes args = 0x30 ∷ (len_bytes (length (concat args)) ++ concat args)

pub length-seq_bytes :
    (args : List (List ℕ))
    → length (seq_bytes args) ≡ 1 + len_len (length (concat args)) + length (concat args)
unfolding seq_bytes
length-seq_bytes args =
    let n = length (concat args) in
    omega (arith, length-append (len_bytes n) (concat args), length-len_bytes n)

write_seq_lem :
    (args : List (List ℕ)) (buf : List ℕ)
    → length (concat args) < 2 ^ 31
    → length (seq_bytes args) ≤ length buf
    → write_seq buf 0 (length (concat args)) args
      ≡ done (seq_bytes args ++ drop (length (seq_bytes args)) buf, length (seq_bytes args))
unfolding write_seq seq_bytes
write_seq_lem args buf small room =
    let n = length (concat args) in
    let header = 0x30 ∷ len_bytes n in
    let old1 = drop 1 buf in
    let old2 = drop (length (len_bytes n)) old1 in
    let (least, most) = len_len_bounds n in
    let bytes = length-len_bytes n in
    let size = length-seq_bytes args in
    let left1 : length old1 ≡ length buf - 1 = length-drop 1 buf in
    let left2 : length old2 ≡ length old1 - length (len_bytes n) =
      length-drop (length (len_bytes n)) old1 in
    let whole : 1 + length (len_bytes n ++ concat args) ≡ length (seq_bytes args) = omega arith in
    >>=-done (store buf 0 (0x30 ∷ [])) _ _ (store-append [] buf (0x30 ∷ []) (omega arith))
    ∙ >>=-done (store (0x30 ∷ old1) 1 (len_bytes n)) _ _
        (store-append (0x30 ∷ []) old1 (len_bytes n) (omega arith))
    ∙ ap (λ k. store_all (header ++ old2) k args) (omega arith)
    ∙ store_all-append args header old2 (omega arith) (omega arith)
    ∙ ap₂ (λ mem k. done (mem, k))
        (append_twice (0x30 ∷ []) (len_bytes n) (concat args) old1
          ∙ ap (λ r. 0x30 ∷ ((len_bytes n ++ concat args) ++ r))
              (drop-drop (length (len_bytes n ++ concat args)) 1 buf ∙ ap (λ k. drop k buf) whole))
        (omega arith)

-- The size that a sequence takes up, which is all that is computed without a buffer.
pub encode_seq-none :
    (args : List (List ℕ)) (lresult : ℕ)
    → length (concat args) < 2 ^ 31
    → encode_seq none lresult 0 args ≡ done (none, length (seq_bytes args), 0)
unfolding encode_seq
encode_seq-none args lresult small =
    let n = length (concat args) in
    let payload : payload_length 0 args ≡ n =
      payload_length-concat 0 args (omega arith) ∙ omega arith in
    let (least, most) = len_len_bounds n in
    rw payload (ap (λ k. done (none, k, 0)) (omega (arith, length-seq_bytes args)))

-- With room in the buffer, the sequence stands at its start and the rest of the buffer is kept.
pub encode_seq_lem :
    (args : List (List ℕ)) (buf : List ℕ) (lresult : ℕ)
    → length (concat args) < 2 ^ 31
    → length (seq_bytes args) ≤ lresult
    → length (seq_bytes args) ≤ length buf
    → encode_seq (some buf) lresult 0 args
      ≡ done (
        some (seq_bytes args ++ drop (length (seq_bytes args)) buf),
        length (seq_bytes args),
        length (seq_bytes args),
      )
unfolding encode_seq
encode_seq_lem args buf lresult small fits room =
    let n = length (concat args) in
    let payload : payload_length 0 args ≡ n =
      payload_length-concat 0 args (omega arith) ∙ omega arith in
    let (least, most) = len_len_bounds n in
    let required : u32 (n + 1 + len_len n) ≡ length (seq_bytes args) =
      omega (arith, length-seq_bytes args) in
    let enough : ltb lresult (length (seq_bytes args)) ≡ false = ground arith in
    rw (payload, required, enough)
      (>>=-done (write_seq buf 0 n args) _ _ (write_seq_lem args buf small room))
