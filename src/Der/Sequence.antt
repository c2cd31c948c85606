-- ===== src/Der/Sequence.antt =====
-- A sequence of elements: `der_encode_seq` writes it, `der_decode_seq` finds its element of an index.
pub mod Written
pub mod Read
use empirical_zero_knowledge.Prelude.{
  ℕ, zero, suc, ◌+◌, ◌-◌, not, true, false, Option, none, some, List, [], ◌∷◌, ◌^◌, length, ltb,
  ◌==◌, if◌then◌else◌, u32,
}
use empirical_zero_knowledge.Der.Outcome.{Outcome, done, err, der_arg, der_bad, der_short, ◌>>=◌}
use empirical_zero_knowledge.Der.Memory.{load, store}
use empirical_zero_knowledge.Der.Length.{len_len, len_bytes, get_len}

-- `payload_length_required += lbuffer` for each argument.
unfoldable pub payload_length : ℕ → List (List ℕ) → ℕ
payload_length len [] = len
payload_length len (buffer ∷ args) = payload_length (u32 (len + length buffer)) args

-- `memmove(result + off, buffer, lbuffer); off += lbuffer` for each argument.
unfoldable pub store_all : List ℕ → ℕ → List (List ℕ) → Outcome (List ℕ × ℕ)
store_all result off [] = done (result, off)
store_all result off (buffer ∷ args) =
    store result off buffer >>= λ result'. store_all result' (u32 (off + length buffer)) args

-- The writes of `der_encode_seq`: the tag at the start, the payload's length and the arguments behind
-- the offset.
unfoldable pub write_seq : List ℕ → ℕ → ℕ → List (List ℕ) → Outcome (List ℕ × ℕ)
write_seq buf off payload args = store buf 0 (0x30 ∷ []) >>= λ buf1.
    store buf1 (u32 (off + 1)) (len_bytes payload) >>= λ buf2.
    store_all buf2 (u32 (u32 (off + 1) + len_len payload)) args

-- The result, `*lresult` and `*offset`. The arguments are the bytes of each buffer.
unfoldable pub encode_seq :
    Option (List ℕ) → ℕ → ℕ → List (List ℕ) → Outcome (Option (List ℕ) × ℕ × ℕ)
encode_seq result lresult off args =
    let payload = payload_length off args in
    let required = u32 (payload + 1 + len_len payload) in
    elim result [
      | none ↦ done (none, required, off)
      | some buf ↦
          if ltb lresult required
          then err der_short
          else write_seq buf off payload args >>= λ r. done (some (r.0), required, r.1)
    ]

-- The loop over the elements before the index: the offset, and the last length that was read.
unfoldable pub skip : ℕ → List ℕ → ℕ → ℕ → ℕ → Outcome (ℕ × ℕ)
skip zero seq lseq off nlen = done (off, nlen)
skip (suc idx) seq lseq off nlen = get_len 0 seq (u32 (off + 1)) lseq >>= λ r.
    elim (ltb lseq (u32 (r.1 + r.0))) [
      | true ↦ err der_arg
      | false ↦ skip idx seq lseq (u32 (r.1 + r.0)) r.0
    ]

-- From the first element on: where the element of the index starts, and its whole length.
unfoldable pub find_element : List ℕ → ℕ → ℕ → ℕ → Outcome (ℕ × ℕ)
find_element seq lseq idx off = skip idx seq lseq off 0 >>= λ r.
    get_len r.1 seq (u32 (r.0 + 1)) lseq >>= λ l. done (r.0, u32 (l.0 + u32 (l.1 + 2 ^ 32 - r.0)))

-- The offset of the element in `seq` and its length. The caller's offset is only read.
unfoldable pub decode_seq : List ℕ → ℕ → ℕ → ℕ → Outcome (ℕ × ℕ)
decode_seq seq lseq idx offset =
    if ltb lseq (u32 (offset + 2))
    then err der_arg
    else (load seq 0 >>= λ tag.
        if not (tag == 0x30)
        then err der_bad
        else (get_len 0 seq (u32 (offset + 1)) lseq >>= λ r.
            if ltb (u32 (lseq + 2 ^ 32 - r.1 + 1)) r.0
            then err der_bad
            else find_element seq lseq idx r.1))
