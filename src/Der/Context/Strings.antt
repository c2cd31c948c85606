-- ===== src/Der/Context/Strings.antt =====
-- Values as elements, and the octet string that `der_encode_octetstring` writes.
use empirical_zero_knowledge.Prelude.{
  ℕ, ◌+◌, ◌-◌, ◌^◌, ◌<◌, ◌≤◌, ◌≡◌, ap, ◌∙◌, none, some, List, [], ◌∷◌, ◌++◌, length, drop,
  replicate, ltb, u32, false, drop-all, drop-drop, length-drop, length-replicate, map, arith,
}
use mathlib.Core.List.{append-nil}
use empirical_zero_knowledge.Encoding.Integer.{i2b}
use empirical_zero_knowledge.Der.Outcome.{done, >>=-done}
use empirical_zero_knowledge.Der.Memory.{store}
use empirical_zero_knowledge.Der.Length.{len_len, len_bytes, length-len_bytes, len_len_bounds}
use empirical_zero_knowledge.Der.Primitive.{lacks, write, encode_octetstring}
use empirical_zero_knowledge.Der.Sequence.Written.{store-append, append_twice}
use empirical_zero_knowledge.Der.Sequence.Read.{Element, bytes_of, length-bytes_of}

pub data Value : Type 0 where
  number : ℕ → Value
  octets : List ℕ → Value

unfoldable pub element_of : Value → Element
unfolding i2b
element_of (number v) = record { tag = 2; content = i2b v }
element_of (octets d) = record { tag = 4; content = d }

abbrev pub elements : List Value → List Element
elements = map element_of

pub write-append :
    (pre old bytes : List ℕ)
    → length bytes ≤ length old
    → write (some (pre ++ old)) (length pre) bytes
      ≡ done (some (pre ++ (bytes ++ drop (length bytes) old)))
unfolding write
write-append pre old bytes room =
    >>=-done (store (pre ++ old) (length pre) bytes) _ _ (store-append pre old bytes room)

abbrev pub string_size : List ℕ → ℕ
string_size d = length (bytes_of (element_of (octets d)))

module _ (d : List ℕ) (short : length d < 2 ^ 31) where
  pub length-string : string_size d ≡ 1 + len_len (length d) + length d
  unfolding element_of
  length-string = length-bytes_of (element_of (octets d))

  pub encode_octetstring-none : encode_octetstring d none 0 0 ≡ done (none, string_size d)
  unfolding encode_octetstring lacks write
  encode_octetstring-none =
      let (least, most) = len_len_bounds (length d) in
      ap (λ k. done (none, k)) (omega (arith, length-string))

  -- With room, the octet string stands at the start of the buffer and the rest is kept.
  pub encode_octetstring_lem :
      (buf : List ℕ) (lout : ℕ)
      → string_size d ≤ lout
      → string_size d ≤ length buf
      → encode_octetstring d (some buf) 0 lout
        ≡ done (some (bytes_of (element_of (octets d)) ++ drop (string_size d) buf), string_size d)
  unfolding encode_octetstring lacks element_of bytes_of
  encode_octetstring_lem buf lout fits room =
      let n = length d in
      let (least, most) = len_len_bounds n in
      let bytes = length-len_bytes n in
      let header = 4 ∷ len_bytes n in
      let old1 = drop 1 buf in
      let old2 = drop (length (len_bytes n)) old1 in
      let left1 : length old1 ≡ length buf - 1 = length-drop 1 buf in
      let left2 : length old2 ≡ length old1 - length (len_bytes n) =
        length-drop (length (len_bytes n)) old1 in
      let need : u32 (0 + len_len n + 1 + n) ≡ string_size d = omega (arith, length-string) in
      let enough : ltb lout (string_size d) ≡ false = ground arith in
      let total = length-string in
      let place : len_len n + 1 ≡ length header = omega arith in
      let tail : 1 + length (len_bytes n ++ d) ≡ string_size d = omega arith in
      rw (need, enough)
        (>>=-done (write (some buf) 0 (4 ∷ [])) _ _ (write-append [] buf (4 ∷ []) (omega arith))
          ∙ >>=-done (write (some (4 ∷ old1)) 1 (len_bytes n)) _ _
              (write-append (4 ∷ []) old1 (len_bytes n) (omega arith))
          ∙ >>=-done (write (some (header ++ old2)) (len_len n + 1) d) _ _ (
              ap (λ k. write (some (header ++ old2)) k d) place
              ∙ write-append header old2 d (omega arith))
          ∙ ap (λ mem. done (some mem, string_size d))
              (append_twice (4 ∷ []) (len_bytes n) d old1
                ∙ ap (λ r. 4 ∷ ((len_bytes n ++ d) ++ r))
                    (drop-drop (length (len_bytes n ++ d)) 1 buf ∙ ap (λ k. drop k buf) tail)))

-- In a new buffer of its size the octet string is all there is.
pub encode_octetstring_new :
    (d : List ℕ)
    → length d < 2 ^ 31
    → encode_octetstring d (some (replicate (string_size d) 0)) 0 (string_size d)
      ≡ done (some (bytes_of (element_of (octets d))), string_size d)
encode_octetstring_new d short =
    let k = string_size d in
    let new : length (replicate {A = ℕ} k 0) ≡ k = length-replicate {A = ℕ} k 0 in
    encode_octetstring_lem d short (replicate k 0) k (omega arith) (omega arith)
    ∙ ap (λ r. done (some r, k))
        (ap (λ r. bytes_of (element_of (octets d)) ++ r) (drop-all k (replicate k 0) new)
          ∙ append-nil (bytes_of (element_of (octets d))))
