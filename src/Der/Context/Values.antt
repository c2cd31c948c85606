-- ===== src/Der/Context/Values.antt =====
-- The values that the take functions return from a message that was written and read.
use empirical_zero_knowledge.Prelude.{
  ℕ, suc, ◌+◌, ◌^◌, ◌<◌, ◌≤◌, ◌≡◌, refl, sym, ap, ap₂, ◌∙◌, some, List, [], ◌∷◌, ◌++◌, length,
  get_elem?, drop, ltb, false, length-append, append_assoc, map, arith,
}
use mathlib.Core.List.{append-nil}
use empirical_zero_knowledge.Encoding.Integer.{i2b, b2i}
use empirical_zero_knowledge.Der.Outcome.{done, >>=-done}
use empirical_zero_knowledge.Der.Memory.{drop-prefix}
use empirical_zero_knowledge.Der.Length.{len_len, get_len}
use empirical_zero_knowledge.Der.Primitive.{read_integer}
use empirical_zero_knowledge.Der.Sequence.Written.{seq_bytes}
use empirical_zero_knowledge.Der.Sequence.Read.{
  Element, bytes_of, all_bytes, IsShort, length-bytes_of, all_bytes-split, drop-seq_bytes,
  payload_start,
}
use empirical_zero_knowledge.Der.Context.{
  Sub, peek_tag, begin_read, sub_at, take_octetstring, take_uint,
}
use empirical_zero_knowledge.Der.Context.Reading.{
  found, length-found, begin_read_lem, sub_length, sub_tag, sub_content,
}
use empirical_zero_knowledge.Der.Context.Strings.{Value, number, octets, element_of, elements}
use empirical_zero_knowledge.Der.Context.Writing.{write_message, write_message_lem}

get_elem?-found :
    (seq : List ℕ) (off : ℕ) (before : List Element) (e : Element) (after : List Element)
    → get_elem? (found seq off (before ++ e ∷ after)) (length before)
      ≡ some (record {
        bytes = drop (off + length (all_bytes before)) seq;
        size = length (bytes_of e);
      })
unfolding found
get_elem?-found seq off [] e after =
    ap (λ k. some (record { bytes = drop k seq; size = length (bytes_of e) })) (omega arith)
get_elem?-found seq off (b ∷ before) e after =
    get_elem?-found seq (off + length (bytes_of b)) before e after
    ∙ ap (λ k. some (record { bytes = drop k seq; size = length (bytes_of e) }))
        (omega (arith, length-append (bytes_of b) (all_bytes before)))

sub_at_lem :
    (subs : List Sub) (idx : ℕ) (sub : Sub)
    → get_elem? subs idx ≡ some sub
    → idx < length subs
    → sub_at subs idx ≡ done sub
unfolding sub_at
sub_at_lem subs idx sub at inside =
    let passes : ltb (length subs) idx ≡ false = ground arith in rw (passes, at, sub_at) refl

-- A number is a `uint`.
abbrev pub IsWord : Value → Type 0
IsWord (number v) = v < 2 ^ 32
IsWord (octets d) = Unit

-- The part of an index gives back a value: a number, or the pointer to an octet string and its
-- length.
abbrev pub Gives : List Sub → ℕ → Value → Type 0
Gives subs idx (number v) = take_uint subs idx ≡ done v
Gives subs idx (octets d) =
    (more : List ℕ) × (take_octetstring subs idx ≡ done (d ++ more, length d))

read_integer_lem : (v : ℕ) (more : List ℕ) → v < 2 ^ 32 → read_integer (i2b v ++ more) ≡ done v
unfolding read_integer i2b b2i
read_integer_lem v more small = ap done (omega arith)

one_byte : len_len 4 ≡ 1
unfolding len_len
one_byte = refl

Gives_lem :
    (subs : List Sub) (idx : ℕ) (sub : Sub) (v : Value) (more : List ℕ)
    → sub_at subs idx ≡ done sub
    → IsShort (element_of v)
    → IsWord v
    → sub.bytes ≡ bytes_of (element_of v) ++ more
    → sub.size ≡ length (bytes_of (element_of v))
    → Gives subs idx v
unfolding take_uint take_octetstring element_of
Gives_lem subs idx sub (number v) more at short word bytes exact =
    let e = element_of (number v) in
    >>=-done (sub_at subs idx) _ sub at
    ∙ >>=-done (peek_tag sub.bytes) _ 2 (sub_tag e more sub short bytes exact refl)
    ∙ >>=-done (get_len 0 sub.bytes 1 sub.size) _ _ (sub_length e more sub short bytes exact)
    ∙ ap (λ k. read_integer (drop (1 + k) sub.bytes)) (sym one_byte)
    ∙ ap read_integer (sub_content e more sub short bytes exact)
    ∙ read_integer_lem v more word
Gives_lem subs idx sub (octets d) more at short word bytes exact =
    let e = element_of (octets d) in
    (
      more,
      >>=-done (sub_at subs idx) _ sub at
          ∙ >>=-done (peek_tag sub.bytes) _ 4 (sub_tag e more sub short bytes exact refl)
          ∙ >>=-done (get_len 0 sub.bytes 1 sub.size) _ _ (sub_length e more sub short bytes exact)
          ∙ ap (λ r. done (r, length d)) (sub_content e more sub short bytes exact),
    )

length-elements : (vs : List Value) → length (elements vs) ≡ length vs
length-elements [] = refl
length-elements (v ∷ vs) = ap suc (length-elements vs)

elements-split :
    (before : List Value) (v : Value) (after : List Value)
    → elements (before ++ v ∷ after) ≡ elements before ++ element_of v ∷ elements after
elements-split [] v after = refl
elements-split (b ∷ before) v after = ap (λ r. element_of b ∷ r) (elements-split before v after)

-- Where the bytes of an element lie, behind those of the elements before it.
drop-element :
    (seq : List ℕ) (start : ℕ) (before : List Element) (e : Element) (after : List Element)
    (rest : List ℕ)
    → drop start seq ≡ all_bytes (before ++ e ∷ after) ++ rest
    → drop (start + length (all_bytes before)) seq ≡ bytes_of e ++ (all_bytes after ++ rest)
drop-element seq start before e after rest at =
    drop-prefix start seq (all_bytes before) (bytes_of e ++ (all_bytes after ++ rest)) (
      at
      ∙ ap (λ r. r ++ rest) (all_bytes-split before e after)
      ∙ append_assoc (all_bytes before) (bytes_of e ++ all_bytes after) rest
      ∙ ap (λ r. all_bytes before ++ r) (append_assoc (bytes_of e) (all_bytes after) rest))

-- The value of an index among the parts of some elements.
Gives-found :
    (seq : List ℕ) (start : ℕ) (before : List Value) (v : Value) (after : List Value)
    (rest : List ℕ)
    → drop start seq ≡ all_bytes (elements (before ++ v ∷ after)) ++ rest
    → IsShort (element_of v)
    → IsWord v
    → Gives (found seq start (elements (before ++ v ∷ after))) (length before) v
Gives-found seq start before v after rest at short word =
    let e = element_of v in
    let b = elements before in
    let a = elements after in
    let split = elements-split before v after in
    let subs = found seq start (elements (before ++ v ∷ after)) in
    let count : length before ≡ length b = sym (length-elements before) in
    let total : length subs ≡ length (before ++ v ∷ after) =
      length-found seq start (elements (before ++ v ∷ after))
      ∙ length-elements (before ++ v ∷ after) in
    let part : Sub = record {
      bytes = drop (start + length (all_bytes b)) seq;
      size = length (bytes_of e);
    } in
    Gives_lem subs (length before) part v (all_bytes a ++ rest)
      (sub_at_lem subs (length before) part
        (ap₂ (λ es k. get_elem? (found seq start es) k) split count
          ∙ get_elem?-found seq start b e a)
        (omega (arith, length-append before (v ∷ after))))
      short word (drop-element seq start b e a rest (at ∙ ap (λ es. all_bytes es ++ rest) split))
      refl

-- A message of values is written, and read again by `der_begin_read` in a loop of as many rounds as
-- there are values, and one more: there is a part for each value, and the part of the index of `v`
-- gives back `v`, which is an octet string or a `uint`. The elements take up less than `2 ^ 31` bytes.
pub read-write_message :
    (before : List Value) (v : Value) (after : List Value) (fuel : ℕ)
    → IsWord v
    → length (all_bytes (elements (before ++ v ∷ after))) < 2 ^ 31
    → length (before ++ v ∷ after) < fuel
    → (message : List ℕ) × (subs : List Sub) × (write_message (before ++ v ∷ after) ≡ done message)
      × (begin_read fuel message (length message) ≡ some (done subs))
      × (length subs ≡ length (before ++ v ∷ after))
      × Gives subs (length before) v
read-write_message before v after fuel word small enough =
    let vs = before ++ v ∷ after in
    let es = elements vs in
    let message = seq_bytes (map bytes_of es) in
    let start = payload_start es [] small in
    let subs = found (message ++ []) start es in
    let count : length es ≡ length vs = length-elements vs in
    let total : length (bytes_of (element_of v)) ≤ length (all_bytes es) = omega (
      arith,
      ap (λ es. length (all_bytes es)) (elements-split before v after),
      ap length (all_bytes-split (elements before) (element_of v) (elements after)),
      length-append (all_bytes (elements before))
          (bytes_of (element_of v) ++ all_bytes (elements after)),
      length-append (bytes_of (element_of v)) (all_bytes (elements after)),
    ) in
    (
      message,
      subs,
      write_message_lem vs small,
      ap (λ m. begin_read fuel m (length message)) (sym (append-nil message))
          ∙ begin_read_lem es [] small fuel (omega arith),
      length-found (message ++ []) start es ∙ count,
      Gives-found (message ++ []) start before v after [] (drop-seq_bytes es [] small)
          (omega (arith, length-bytes_of (element_of v))) word,
    )
