-- ===== src/Der/Context.antt =====
-- The contexts by which a message is written and read: `der_begin` to `der_final` and
-- `der_begin_read` to `der_end_read`. A chain of contexts is a list, the current one first, its
-- parent behind it.
use empirical_zero_knowledge.Prelude.{
  ℕ, zero, suc, ◌+◌, ◌-◌, ◌^◌, not, Option, none, some, List, [], ◌∷◌, ◌++◌, length, get_elem?,
  take, drop, replicate, ltb, ◌==◌, if◌then◌else◌, u32, bit_and,
}
use empirical_zero_knowledge.Der.Outcome.{
  Outcome, done, err, fault, der_arg, der_mem, der_short, ◌>>=◌,
}
use empirical_zero_knowledge.Der.Memory.{load}
use empirical_zero_knowledge.Der.Length.{get_len}
use empirical_zero_knowledge.Der.Primitive.{encode_integer, encode_octetstring, read_integer}
use empirical_zero_knowledge.Der.Sequence.{payload_length, store_all, encode_seq, decode_seq}
pub mod Strings
pub mod Collapse
pub mod Writing
pub mod Reading
pub mod Decoding
pub mod Values
pub mod Endless

-- A context that is written: the bytes of its elements.
abbrev pub Subs : Type 0
Subs = List (List ℕ)

unfoldable pub der_begin : List Subs
der_begin = [] ∷ []

unfoldable pub begin_seq : List Subs → List Subs
begin_seq ctx = [] ∷ ctx

-- The new element at the end of the current context's.
unfoldable pub add_sub : List Subs → List ℕ → Outcome (List Subs)
add_sub [] bytes = fault
add_sub (mine ∷ parents) bytes = done ((mine ++ bytes ∷ []) ∷ parents)

-- The contents of an output buffer.
abbrev pub filled : Option (List ℕ) → List ℕ
filled none = []
filled (some buf) = buf

unfoldable pub insert_uint : List Subs → ℕ → Outcome (List Subs)
insert_uint ctx val =
    encode_integer val (some (replicate 6 0)) 0 6 >>= λ r. add_sub ctx (filled r.0)

-- The second call of the encoder, whose failure is returned as `DER_MEM`.
unfoldable pub second : {A : Type 0} → Outcome A → Outcome A
second (done a) = done a
second (err rc) = err der_mem
second fault = fault

unfoldable pub insert_octetstring : List Subs → List ℕ → Outcome (List Subs)
insert_octetstring ctx d = encode_octetstring d none 0 0 >>= λ size.
    second (encode_octetstring d (some (replicate (size.1) 0)) 0 (size.1)) >>= λ r.
    add_sub ctx (filled r.0)

-- `while (str[lstr]) ++lstr`
unfoldable pub cstr_length : List ℕ → Outcome ℕ
cstr_length [] = fault
cstr_length (c ∷ str) =
    let rest = cstr_length str >>= λ n. done (suc n) in if c == 0 then done 0 else rest

unfoldable pub insert_cstr : List Subs → List ℕ → Outcome (List Subs)
insert_cstr ctx str = cstr_length str >>= λ lstr. insert_octetstring ctx (take (lstr + 1) str)

-- The copies of the elements to the end of the new buffer, and the second call of the encoder, whose
-- argument is the end of the result itself.
unfoldable pub collapse_into : ℕ → ℕ → Subs → Outcome (List ℕ)
collapse_into lres tlen mine =
    let idx = u32 (lres + 2 ^ 32 - tlen) in
    store_all (replicate lres 0) idx mine >>= λ c.
    encode_seq (some (c.0)) lres 0 (take tlen (drop idx (c.0)) ∷ []) >>= λ r. done (filled r.0)

-- The encoding of a whole context. Of the buffer in the first call only the length is read.
unfoldable pub collapse : Subs → Outcome (List ℕ)
collapse mine =
    let tlen = payload_length 0 mine in
    encode_seq none 0 0 (replicate tlen 0 ∷ []) >>= λ size. collapse_into (size.1) tlen mine

-- The encoding of the current context becomes an element of its parent.
unfoldable pub end_seq : List Subs → Outcome (List Subs)
end_seq [] = fault
end_seq (mine ∷ parents) = collapse mine >>= λ bytes. add_sub parents bytes

-- The chain, the output and its length. The context is freed when it has been written.
unfoldable pub final : List Subs → Option (List ℕ) → ℕ → Outcome (List Subs × Option (List ℕ) × ℕ)
final [] out ldata = fault
final (mine ∷ parent ∷ parents) out ldata = err der_arg
final (mine ∷ []) none ldata = done (mine ∷ [], none, payload_length 0 mine)
final (mine ∷ []) (some buf) ldata =
    if ltb ldata (payload_length 0 mine)
    then err der_short
    else store_all buf 0 mine >>= λ r. done ([], some (r.0), payload_length 0 mine)

-- A part of a message that is read: the memory from its pointer on, and its length.
pub record Sub : Type 0 where
  pub bytes : List ℕ
  pub size : ℕ

unfoldable pub peek_tag : List ℕ → Outcome ℕ
peek_tag d = load d 0 >>= λ tag. done (if bit_and tag 0x1F == 31 then 0 else tag)

-- `while (rc == DER_OK)`, with fuel: `none` where it has not ended.
unfoldable pub count_subs : ℕ → List ℕ → ℕ → ℕ → Option (Outcome ℕ)
count_subs zero input ldata nsubs = none
count_subs (suc fuel) input ldata nsubs = elim (decode_seq input ldata nsubs 0) [
  | done r ↦ count_subs fuel input ldata (u32 (nsubs + 1))
  | err rc ↦ some (done nsubs)
  | fault ↦ some fault
]

-- The second loop, over the numbers of the elements left.
unfoldable pub collect_subs : ℕ → List ℕ → ℕ → ℕ → Outcome (List Sub)
collect_subs zero input ldata sub_no = done []
collect_subs (suc left) input ldata sub_no = decode_seq input ldata sub_no 0 >>= λ r.
    collect_subs left input ldata (sub_no + 1) >>= λ subs.
    done (record { bytes = drop (r.0) input; size = r.1 } ∷ subs)

unfoldable pub read_subs : List ℕ → ℕ → Option (Outcome ℕ) → Option (Outcome (List Sub))
read_subs input ldata none = none
read_subs input ldata (some nsubs) = some (nsubs >>= λ n. collect_subs n input ldata 0)

unfoldable pub begin_read : ℕ → List ℕ → ℕ → Option (Outcome (List Sub))
begin_read fuel input ldata = elim (peek_tag input) [
  | done tag ↦
      if not (tag == 0x30)
      then some (err der_arg)
      else read_subs input ldata (count_subs fuel input ldata 0)
  | err rc ↦ some (err rc)
  | fault ↦ some fault
]

-- `ctx->subs[idx]`, with the guard of the code, which lets the index `lsubs` pass.
unfoldable pub sub_at : List Sub → ℕ → Outcome Sub
sub_at subs idx =
    if ltb (length subs) idx
    then err der_arg
    else elim (get_elem? subs idx) [ some sub ↦ done sub | none ↦ fault ]

-- The pointer to the content, as the memory from there on, and its length.
unfoldable pub take_octetstring : List Sub → ℕ → Outcome (List ℕ × ℕ)
take_octetstring subs idx = sub_at subs idx >>= λ sub. peek_tag sub.bytes >>= λ tag.
    if not (tag == 4)
    then err der_arg
    else get_len 0 sub.bytes 1 sub.size >>= λ r. done (drop (r.1) sub.bytes, r.0)

unfoldable pub take_uint : List Sub → ℕ → Outcome ℕ
take_uint subs idx = sub_at subs idx >>= λ sub. peek_tag sub.bytes >>= λ tag.
    if not (tag == 2)
    then err der_arg
    else (get_len 0 sub.bytes 1 sub.size >>= λ r.
        if not (r.0 == 4) then err der_arg else read_integer (drop 2 sub.bytes))

-- The new context, in front of the chain, unless the loop of `der_begin_read` has not ended.
unfoldable pub enter :
    List (List Sub) → Option (Outcome (List Sub)) → Option (Outcome (List (List Sub)))
enter ctx none = none
enter ctx (some r) = some (r >>= λ subs. done (subs ∷ ctx))

unfoldable pub enter_sub : ℕ → List (List Sub) → Outcome Sub → Option (Outcome (List (List Sub)))
enter_sub fuel ctx (err rc) = some (err rc)
enter_sub fuel ctx fault = some fault
enter_sub fuel ctx (done sub) = elim (peek_tag sub.bytes) [
  | done tag ↦
      if not (tag == 0x30)
      then some (err der_arg)
      else enter ctx (begin_read fuel sub.bytes sub.size)
  | err rc ↦ some (err rc)
  | fault ↦ some fault
]

unfoldable pub enter_seq : ℕ → List (List Sub) → ℕ → Option (Outcome (List (List Sub)))
enter_seq fuel [] idx = some (err der_arg)
enter_seq fuel (subs ∷ ctx) idx = enter_sub fuel (subs ∷ ctx) (sub_at subs idx)

-- The parent of the context that `der_begin_read` has made first is not initialised.
unfoldable pub leave_seq : List (List Sub) → Outcome (List (List Sub))
leave_seq [] = err der_arg
leave_seq (subs ∷ []) = fault
leave_seq (subs ∷ parent ∷ ctx) = done (parent ∷ ctx)

-- Only the current context is freed.
unfoldable pub end_read : List (List Sub) → List (List Sub)
end_read ctx = []
