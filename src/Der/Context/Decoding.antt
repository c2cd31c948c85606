-- ===== src/Der/Context/Decoding.antt =====
-- `der_decode_octetstring` and `der_decode_integer` on what the encoders have written at the start of
-- a buffer.
use empirical_zero_knowledge.Prelude.{
  ℕ, ◌+◌, ◌^◌, ◌<◌, ◌≤◌, ◌≡◌, refl, sym, ap, ◌∙◌, some, List, [], ◌∷◌, ◌++◌, length, length-append,
  take, drop, ltb, if◌then◌else◌, u32, false, append_assoc, take-append_below, take-all, arith,
}
use empirical_zero_knowledge.Encoding.Integer.{i2b, b2i}
use empirical_zero_knowledge.Der.Outcome.{done, err, der_arg, >>=-done}
use empirical_zero_knowledge.Der.Memory.{load, load_lem, drop-prefix}
use empirical_zero_knowledge.Der.Length.{
  len_len, len_bytes, length-len_bytes, len_len_bounds, get_len,
}
use empirical_zero_knowledge.Der.Primitive.{
  lacks, write, encode_integer, decode_integer, read_integer, encode_octetstring, copy_content,
  decode_octetstring,
}
use empirical_zero_knowledge.Der.Sequence.Read.{bytes_of, get_len-element}
use empirical_zero_knowledge.Der.Context.Strings.{
  octets, element_of, string_size, length-string, write-append, encode_octetstring_lem,
}

-- The content behind the length, for a destination of `lv` bytes.
copy_content_lem :
    (lv : ℕ) (input d more : List ℕ) (off : ℕ)
    → drop off input ≡ d ++ more
    → off + length d < 2 ^ 32
    → copy_content (some lv) input off (length d)
      ≡ (if ltb lv (length d) then err der_arg else done (d, length d, off + length d))
unfolding copy_content
copy_content_lem lv input d more off at small =
    let behind : u32 (off + length d) ≡ off + length d = omega arith in
    let content : take (length d) (drop off input) ≡ d =
      ap (take (length d)) at
      ∙ take-append_below (length d) d more (omega arith)
      ∙ take-all (length d) d refl in
    let inside : ltb (length (drop off input)) (length d) ≡ false =
      ground (arith, ap length at, length-append d more) in
    rw (inside, behind, content) refl

decode_octetstring_lem :
    (lv lin : ℕ) (d input more : List ℕ)
    → length d < 2 ^ 31
    → input ≡ bytes_of (element_of (octets d)) ++ more
    → string_size d ≤ lin
    → lin < 2 ^ 32
    → decode_octetstring (some lv) input 0 lin
      ≡ (if ltb lv (length d) then err der_arg else done (d, length d, string_size d))
unfolding decode_octetstring element_of bytes_of
decode_octetstring_lem lv lin d input more short at room small =
    let n = length d in
    let e = element_of (octets d) in
    let total = length-string d short in
    let (least, most) = len_len_bounds n in
    let two : ltb lin (u32 (0 + 2)) ≡ false = ground arith in
    let fits : ltb lin (u32 (1 + len_len n + n)) ≡ false = ground arith in
    let size : 1 + len_len n + n ≡ string_size d = sym total in
    let len : get_len 0 input 1 lin ≡ done (n, 1 + len_len n) =
      get_len-element input lin small 0 0 e more short at (omega arith)
      ∙ ap (λ k. done (n, k)) (omega arith) in
    let behind : drop (1 + len_len n) input ≡ d ++ more =
      ap (λ k. drop k input) (omega (arith, length-len_bytes n))
      ∙ drop-prefix 0 input (4 ∷ len_bytes n) (d ++ more)
          (at ∙ ap (λ r. 4 ∷ r) (append_assoc (len_bytes n) d more)) in
    rw two (
      >>=-done (load input 0) _ 4 (load_lem 0 input at)
      ∙ rw (len, fits)
          (copy_content_lem lv input d more (1 + len_len n) behind (omega arith)
            ∙ ap (λ k. if ltb lv n then err der_arg else done (d, n, k)) size))

-- An octet string that `der_encode_octetstring` writes at the start of a buffer with room for it is
-- read back by `der_decode_octetstring`, with its length and the offset behind it, if the destination
-- has room; else the code is `DER_ARG`. The string is shorter than `2 ^ 31`, the sizes are `uint`s
-- that cover the element.
pub decode_octetstring-encode_octetstring :
    (d buf : List ℕ) (lout lin lv : ℕ)
    → length d < 2 ^ 31
    → string_size d ≤ lout
    → string_size d ≤ length buf
    → string_size d ≤ lin
    → lin < 2 ^ 32
    → (buf' : List ℕ) × (encode_octetstring d (some buf) 0 lout ≡ done (some buf', string_size d))
      × (decode_octetstring (some lv) buf' 0 lin
          ≡ (if ltb lv (length d) then err der_arg else done (d, length d, string_size d)))
decode_octetstring-encode_octetstring d buf lout lin lv short fits room covers small =
    let after = drop (string_size d) buf in
    (
      bytes_of (element_of (octets d)) ++ after,
      encode_octetstring_lem d short buf lout fits room,
      decode_octetstring_lem lv lin d _ after short refl covers small,
    )

-- An integer that `der_encode_integer` writes at the start of a buffer is read back by
-- `der_decode_integer`, whose offset ends one byte before the end of the element.
pub decode_integer-encode_integer :
    (v : ℕ) (buf : List ℕ) (lout lin : ℕ)
    → v < 2 ^ 32
    → 6 ≤ lout
    → 6 ≤ length buf
    → 6 ≤ lin
    → (buf' : List ℕ) × (encode_integer v (some buf) 0 lout ≡ done (some buf', 6))
      × (decode_integer buf' 0 lin ≡ done (v, 5))
unfolding encode_integer decode_integer lacks load read_integer i2b b2i
decode_integer-encode_integer v buf lout lin word fits room covers =
    let enough : ltb lout (u32 (0 + 6)) ≡ false = ground arith in
    let complete : ltb lin (u32 (0 + 6)) ≡ false = ground arith in
    (
      2 ∷ 4 ∷ i2b v ++ drop 6 buf,
      rw enough (
          >>=-done (write (some buf) 0 (2 ∷ 4 ∷ i2b v)) _ _
            (write-append [] buf (2 ∷ 4 ∷ i2b v) room)),
      rw complete (ap (λ k. done (k, 5)) (omega arith)),
    )
