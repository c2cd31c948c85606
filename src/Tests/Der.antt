-- ===== src/Tests/Der.antt =====
-- DER messages and elements on small inputs.
use empirical_zero_knowledge.Prelude.{
  ℕ, ◌+◌, ◌^◌, ◌≡◌, ◌≤◌, refl, none, some, List, [], ◌∷◌, ◌++◌, length, replicate, ltb,
  if◌then◌else◌, arith,
}
use empirical_zero_knowledge.Encoding.Integer.{i2b}
use empirical_zero_knowledge.Der.Outcome.{done, err, fault, der_arg}
use empirical_zero_knowledge.Der.Memory.{load, store}
use empirical_zero_knowledge.Der.Length.{
  len_len, len_bytes, get_len, read_len, long_len, count_bytes, fill,
}
use empirical_zero_knowledge.Der.Length.Bounds.{get_len_bounds}
use empirical_zero_knowledge.Der.Primitive.{encode_octetstring, decode_octetstring, lacks, write}
use empirical_zero_knowledge.Der.Update.{upd_seq, extend, move_up, exchange, load_block}
use empirical_zero_knowledge.Der.Update.Appended.{sequence, upd_seq-sequence}
use empirical_zero_knowledge.Der.Context.{Sub, begin_read, sub_at, take_uint}
use empirical_zero_knowledge.Der.Context.Strings.{Value, number, octets, string_size, element_of}
use empirical_zero_knowledge.Der.Sequence.Read.{bytes_of}
use empirical_zero_knowledge.Der.Context.Writing.{write_message}
use empirical_zero_knowledge.Der.Context.Values.{Gives, read-write_message}
use empirical_zero_knowledge.Der.Context.Decoding.{decode_octetstring-encode_octetstring}
use empirical_zero_knowledge.Der.Context.Endless.{looping, begin_read-looping}

abbrev name : List ℕ
name = 82 ∷ 97 ∷ 115 ∷ 0 ∷ []

abbrev address : List ℕ
address = 84 ∷ 104 ∷ 0 ∷ []

abbrev person : List Value
person = octets name ∷ number 31 ∷ octets address ∷ []

read-write_message_example :
    (message : List ℕ) × (subs : List Sub) × (write_message person ≡ done message)
    × (begin_read 4 message (length message) ≡ some (done subs))
    × (length subs ≡ 3)
    × Gives subs 1 (number 31)
unfolding element_of bytes_of len_bytes i2b
read-write_message_example =
    read-write_message (octets name ∷ []) (number 31) (octets address ∷ []) 4 (omega arith)
      (omega arith) (omega arith)

abbrev long_form : List ℕ
long_form = 0x82 ∷ 1 ∷ 44 ∷ []

len_bytes_300 : len_bytes 300 ≡ long_form
unfolding len_bytes count_bytes fill
len_bytes_300 = refl

get_len_bounds_example : (1 ≤ 4) × (4 ≤ 5)
get_len_bounds_example =
    get_len_bounds 0 (4 ∷ long_form ++ 7 ∷ []) 1 5 {v = 300} {off' = 4} (omega arith) (omega arith)
      (omega arith) (unfold get_len read_len long_len load in refl)

decode_octetstring-encode_octetstring_example :
    (buf' : List ℕ) × (encode_octetstring name (some (replicate 8 0)) 0 8
      ≡ done (some buf', string_size name))
    × (decode_octetstring (some 4) buf' 0 7
        ≡ (if ltb 4 (length name) then err der_arg else done (name, length name, string_size name)))
unfolding element_of bytes_of len_bytes
decode_octetstring-encode_octetstring_example =
    decode_octetstring-encode_octetstring name (replicate 8 0) 8 7 4 (omega arith) (omega arith)
      (omega arith) (omega arith) (omega arith)

begin_read-looping_example : begin_read 1000 (looping 4 []) 8 ≡ none
begin_read-looping_example = begin_read-looping 4 [] 1000

-- A length of `2 ^ 31` or more is written in one byte.
len_bytes_negative : len_bytes (2 ^ 31 + 5) ≡ 0x81 ∷ 5 ∷ []
unfolding len_bytes count_bytes fill
len_bytes_negative = refl

-- The offset at the end of the buffer is not refused.
get_len_past_end : get_len 0 (4 ∷ []) 1 1 ≡ fault
unfolding get_len load
get_len_past_end = refl

-- Behind the start of a buffer an octet string is not written where its tag is.
encode_octetstring_shifted :
    encode_octetstring (9 ∷ []) (some (replicate 5 0)) 2 5 ≡ done (some (0 ∷ 1 ∷ 9 ∷ 0 ∷ 0 ∷ []), 5)
unfolding encode_octetstring lacks write store len_bytes len_len
encode_octetstring_shifted = refl

-- The index behind the last part is not refused.
take_uint_behind : take_uint [] 0 ≡ fault
unfolding take_uint sub_at
take_uint_behind = refl

upd_seq-sequence_example :
    upd_seq (sequence (4 ∷ 1 ∷ 7 ∷ []) (replicate 5 0)) 10 (5 ∷ 0 ∷ [])
    ≡ done (sequence (4 ∷ 1 ∷ 7 ∷ 5 ∷ 0 ∷ []) (replicate 3 0), 7)
upd_seq-sequence_example =
    unfold len_len count_bytes in
    (upd_seq-sequence (4 ∷ 1 ∷ 7 ∷ []) (replicate 5 0) (5 ∷ 0 ∷ []) 10 refl (omega arith)
      (omega arith) (omega arith) (omega arith) (omega arith))

-- One byte is refused, since the size of the data less two wraps around.
upd_seq_byte : upd_seq (sequence (4 ∷ 0 ∷ []) (replicate 5 0)) 9 (0 ∷ []) ≡ err der_arg
unfolding upd_seq
upd_seq_byte = refl

-- The length goes from two bytes to three, and the buffer has just the room: the last round of the
-- loop that moves the payload up writes behind the buffer.
upd_seq_past_end : upd_seq (sequence (replicate 254 7) (replicate 3 0)) 260 (5 ∷ 0 ∷ []) ≡ fault
unfolding upd_seq load get_len read_len long_len load_block exchange move_up extend store len_len
    len_bytes count_bytes fill
upd_seq_past_end = refl
