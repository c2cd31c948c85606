-- ===== src/Der/Primitive.antt =====
-- The encoders and decoders of one element: end of content, Boolean, integer and octet string. An
-- encoder without an output buffer only moves the offset.
use empirical_zero_knowledge.Prelude.{
  ℕ, ◌+◌, Bool, false, not, Option, none, some, List, [], ◌∷◌, length, take, drop, ltb, ◌==◌,
  if◌then◌else◌, u32,
}
use empirical_zero_knowledge.Encoding.Integer.{i2b, b2i}
use empirical_zero_knowledge.Der.Outcome.{Outcome, done, err, fault, der_arg, der_bad, ◌>>=◌}
use empirical_zero_knowledge.Der.Memory.{load, store}
use empirical_zero_knowledge.Der.Length.{len_len, len_bytes, get_len}

-- `if (out) { if (lout < need) return DER_ARG; }`
unfoldable pub lacks : Option (List ℕ) → ℕ → ℕ → Bool
lacks none lout need = false
lacks (some buf) lout need = ltb lout need

-- A write to the output buffer, if there is one.
unfoldable pub write : Option (List ℕ) → ℕ → List ℕ → Outcome (Option (List ℕ))
unfolding store
write none pos bytes = done none
write (some buf) pos bytes = store buf pos bytes >>= λ buf'. done (some buf')

-- The output buffer and the offset behind the element.
unfoldable pub encode_eoc : Option (List ℕ) → ℕ → ℕ → Outcome (Option (List ℕ) × ℕ)
unfolding lacks write
encode_eoc out off lout =
    if lacks out lout (u32 (off + 2))
    then err der_arg
    else write out off (0 ∷ 0 ∷ []) >>= λ out'. done (out', u32 (off + 2))

-- The offset moves by 1, not by 2.
unfoldable pub decode_eoc : List ℕ → ℕ → ℕ → Outcome ℕ
unfolding load
decode_eoc out off lout =
    if ltb lout (u32 (off + 2))
    then err der_arg
    else (load out off >>= λ tag.
        if not (tag == 0)
        then err der_bad
        else load out (off + 1) >>= λ len.
            if not (len == 0) then err der_bad else done (u32 (off + 1)))

unfoldable pub encode_boolean : Bool → Option (List ℕ) → ℕ → ℕ → Outcome (Option (List ℕ) × ℕ)
unfolding lacks write
encode_boolean value out off lout =
    if lacks out lout (u32 (off + 3))
    then err der_arg
    else write out off (1 ∷ 1 ∷ (if value then 1 else 0) ∷ []) >>= λ out'.
        done (out', u32 (off + 3))

-- The offset does not move.
unfoldable pub decode_boolean : List ℕ → ℕ → ℕ → Outcome (Bool × ℕ)
unfolding load
decode_boolean input off lin =
    if ltb lin (u32 (off + 3))
    then err der_arg
    else (load input off >>= λ tag.
        if not (tag == 1)
        then err der_bad
        else (load input (off + 1) >>= λ len.
            if not (len == 1)
            then err der_bad
            else load input (off + 2) >>= λ b. done (not (b == 0), off)))

unfoldable pub encode_integer : ℕ → Option (List ℕ) → ℕ → ℕ → Outcome (Option (List ℕ) × ℕ)
unfolding lacks write i2b
encode_integer value out off lout =
    if lacks out lout (u32 (off + 6))
    then err der_arg
    else write out off (2 ∷ 4 ∷ i2b value) >>= λ out'. done (out', u32 (off + 6))

-- `*value = b2i(p)`.
unfoldable pub read_integer : List ℕ → Outcome ℕ
unfolding b2i
read_integer p = elim (b2i p) [ some v ↦ done v | none ↦ fault ]

-- The value is read behind the start of the buffer, whatever the offset, which moves by 5, not 6.
unfoldable pub decode_integer : List ℕ → ℕ → ℕ → Outcome (ℕ × ℕ)
unfolding load read_integer
decode_integer input off lin =
    if ltb lin (u32 (off + 6))
    then err der_arg
    else (load input off >>= λ tag.
        if not (tag == 2)
        then err der_bad
        else (load input (off + 1) >>= λ len.
            if not (len == 4)
            then err der_bad
            else read_integer (drop 2 input) >>= λ v. done (v, u32 (off + 5))))

-- The tag is written at the offset, the length and the content behind the start of the buffer.
unfoldable pub encode_octetstring : List ℕ → Option (List ℕ) → ℕ → ℕ → Outcome (Option (List ℕ) × ℕ)
unfolding lacks write len_len len_bytes
encode_octetstring v out off lout =
    let lv = length v in
    let lenlen = len_len lv in
    if lacks out lout (u32 (off + lenlen + 1 + lv))
    then err der_arg
    else (write out off (4 ∷ []) >>= λ out1. write out1 1 (len_bytes lv) >>= λ out2.
        write out2 (lenlen + 1) v >>= λ out3. done (out3, u32 (off + lenlen + 1 + lv)))

-- `mcpy(v, in + off, len)` for a `v` of `lv` bytes, or only the length if `v` is null.
unfoldable pub copy_content : Option ℕ → List ℕ → ℕ → ℕ → Outcome (List ℕ × ℕ × ℕ)
copy_content none input off len = done ([], len, u32 (off + len))
copy_content (some lv) input off len =
    if ltb lv len
    then err der_arg
    else if ltb (length (drop off input)) len
    then fault
    else done (take len (drop off input), len, u32 (off + len))

-- The content, its length and the offset behind it. The offset is set to 1 before the length is
-- read, and the return code of `get_len` is not looked at.
unfoldable pub decode_octetstring : Option ℕ → List ℕ → ℕ → ℕ → Outcome (List ℕ × ℕ × ℕ)
unfolding load get_len copy_content
decode_octetstring v input off lin =
    if ltb lin (u32 (off + 2))
    then err der_arg
    else (load input off >>= λ tag.
        if not (tag == 4) then err der_bad else elim (get_len 0 input 1 lin) [
          | done (len, off') ↦
              if ltb lin (u32 (off' + len)) then err der_bad else copy_content v input off' len
          | err rc ↦ if ltb lin 1 then err der_bad else copy_content v input 1 0
          | fault ↦ fault
        ])
