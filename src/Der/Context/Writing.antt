-- ===== src/Der/Context/Writing.antt =====
-- What a message looks like that is written by `der_begin`, `der_begin_seq`, insertions,
-- `der_end_seq` and `der_final`.
use empirical_zero_knowledge.Prelude.{
  ℕ, ◌^◌, ◌<◌, ◌≡◌, refl, sym, ap, ap₂, ◌∙◌, none, some, List, [], ◌∷◌, ◌++◌, length, replicate,
  ltb, false, append_assoc, drop-all, length-replicate, concat, map, All, arith,
}
use mathlib.Core.List.{append-nil}
use empirical_zero_knowledge.Der.Outcome.{Outcome, done, ◌>>=◌, >>=-done}
use empirical_zero_knowledge.Der.Memory.{store}
use empirical_zero_knowledge.Der.Length.{len_bytes, count_bytes, len_len_bounds}
use empirical_zero_knowledge.Der.Primitive.{lacks, write, encode_integer, encode_octetstring}
use empirical_zero_knowledge.Der.Sequence.{payload_length}
use empirical_zero_knowledge.Der.Sequence.Written.{
  payload_length-concat, store_all-append, seq_bytes, length-seq_bytes,
}
use empirical_zero_knowledge.Der.Sequence.Read.{bytes_of, all_bytes, IsShort, all_bytes-IsShort}
use empirical_zero_knowledge.Der.Context.{
  Subs, der_begin, begin_seq, add_sub, filled, insert_uint, second, insert_octetstring, end_seq,
  final,
}
use empirical_zero_knowledge.Der.Context.Strings.{
  Value, number, octets, element_of, elements, encode_octetstring-none, encode_octetstring_new,
}
use empirical_zero_knowledge.Der.Context.Collapse.{append_single, collapse_lem}

unfoldable pub insert : List Subs → Value → Outcome (List Subs)
insert ctx (number v) = insert_uint ctx v
insert ctx (octets d) = insert_octetstring ctx d

unfoldable pub insert_all : List Subs → List Value → Outcome (List Subs)
insert_all ctx [] = done ctx
insert_all ctx (v ∷ vs) = insert ctx v >>= λ ctx'. insert_all ctx' vs

-- The size is asked for first, as in `common/encoding/test/test_take.c`.
unfoldable pub write_message : List Value → Outcome (List ℕ)
write_message vs = insert_all (begin_seq der_begin) vs >>= λ ctx. end_seq ctx >>= λ top.
    final top none 0 >>= λ size.
    final (size.0) (some (replicate (size.2) 0)) (size.2) >>= λ r. done (filled (r.1))

insert_uint_lem :
    (mine : Subs) (parents : List Subs) (v : ℕ)
    → insert_uint (mine ∷ parents) v
      ≡ done ((mine ++ bytes_of (element_of (number v)) ∷ []) ∷ parents)
unfolding insert_uint encode_integer lacks write store add_sub element_of bytes_of len_bytes
    count_bytes
insert_uint_lem mine parents v = refl

insert_octetstring_lem :
    (mine : Subs) (parents : List Subs) (d : List ℕ)
    → length d < 2 ^ 31
    → insert_octetstring (mine ∷ parents) d
      ≡ done ((mine ++ bytes_of (element_of (octets d)) ∷ []) ∷ parents)
unfolding insert_octetstring second add_sub
insert_octetstring_lem mine parents d short =
    >>=-done (encode_octetstring d none 0 0) _ _ (encode_octetstring-none d short)
    ∙ rw (encode_octetstring_new d short) refl

-- An octet string whose length fits an `int`.
abbrev pub Fits : Value → Type 0
Fits v = IsShort (element_of v)

insert_lem :
    (mine : Subs) (parents : List Subs) (v : Value)
    → Fits v
    → insert (mine ∷ parents) v ≡ done ((mine ++ bytes_of (element_of v) ∷ []) ∷ parents)
unfolding insert element_of
insert_lem mine parents (number v) fits = insert_uint_lem mine parents v
insert_lem mine parents (octets d) fits = insert_octetstring_lem mine parents d fits

insert_all_lem :
    (mine : Subs) (parents : List Subs) (vs : List Value)
    → All IsShort (elements vs)
    → insert_all (mine ∷ parents) vs ≡ done ((mine ++ map bytes_of (elements vs)) ∷ parents)
unfolding insert_all
insert_all_lem mine parents [] fits = ap (λ r. done (r ∷ parents)) (sym (append-nil mine))
insert_all_lem mine parents (v ∷ vs) fits =
    >>=-done (insert (mine ∷ parents) v) _ _ (insert_lem mine parents v fits.0)
    ∙ insert_all_lem (mine ++ bytes_of (element_of v) ∷ []) parents vs fits.1
    ∙ ap (λ r. done (r ∷ parents))
        (append_assoc mine (bytes_of (element_of v) ∷ []) (map bytes_of (elements vs)))

-- The message of a context with the one element `s`: its size, and then its bytes.
final_single :
    (s : List ℕ)
    → length s < 2 ^ 32
    → (final ((s ∷ []) ∷ []) none 0 >>= λ size.
        final (size.0) (some (replicate (size.2) 0)) (size.2) >>= λ r. done (filled (r.1)))
      ≡ done s
unfolding final
final_single s small =
    let k = length s in
    let single = append_single s in
    let size : payload_length 0 (s ∷ []) ≡ k =
      payload_length-concat 0 (s ∷ []) (omega arith) ∙ omega arith in
    let enough : ltb k k ≡ false = ground arith in
    let new : length (replicate {A = ℕ} k 0) ≡ k = length-replicate {A = ℕ} k 0 in
    let stored = store_all-append (s ∷ []) [] (replicate k 0) (omega arith) (omega arith) in
    rw (size, enough, stored)
      (ap done (
        ap₂ (λ a b. a ++ b) (append-nil s)
          (drop-all (length (concat (s ∷ []))) (replicate k 0) (new ∙ sym single))
        ∙ append-nil s))

-- A message of values is the sequence of their elements.
pub write_message_lem :
    (vs : List Value)
    → length (all_bytes (elements vs)) < 2 ^ 31
    → write_message vs ≡ done (seq_bytes (map bytes_of (elements vs)))
unfolding write_message der_begin begin_seq end_seq add_sub
write_message_lem vs small =
    let args = map bytes_of (elements vs) in
    let (least, most) = len_len_bounds (length (concat args)) in
    >>=-done (insert_all ([] ∷ [] ∷ []) vs) _ _
      (insert_all_lem [] ([] ∷ []) vs (all_bytes-IsShort (elements vs) small))
    ∙ rw (collapse_lem args small)
        (final_single (seq_bytes args) (omega (arith, length-seq_bytes args)))
