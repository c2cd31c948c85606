-- ===== src/Der/Context/Reading.antt =====
-- How a message is read: `der_begin_read` finds the elements of a sequence, and the take functions
-- give back what stands in them.
use empirical_zero_knowledge.Prelude.{
  ℕ, zero, suc, ◌+◌, ◌^◌, ◌<◌, ◌≤◌, ◌≡◌, refl, sym, ap, ◌∙◌, some, List, [], ◌∷◌, ◌++◌, length,
  drop, u32, bit_and, ◌==◌, false, length-append, append_assoc, All, All-append, arith,
}
use mathlib.Core.List.{append-nil}
use empirical_zero_knowledge.Der.Outcome.{done, err, der_arg, >>=-done}
use empirical_zero_knowledge.Der.Memory.{load_lem, drop-prefix}
use empirical_zero_knowledge.Der.Length.{
  len_len, len_bytes, length-len_bytes, len_len_bounds, get_len,
}
use empirical_zero_knowledge.Der.Sequence.{find_element, decode_seq}
use empirical_zero_knowledge.Der.Sequence.Read.{
  Element, bytes_of, all_bytes, IsShort, length-bytes_of, find_element_lem, find_element_end,
  all_bytes-split, all_bytes-IsShort, memory, memory_head, payload_start, size, length-size,
  decode_seq_lem, drop-seq_bytes, get_len-element,
}
use empirical_zero_knowledge.Der.Context.{
  Sub, peek_tag, count_subs, collect_subs, read_subs, begin_read,
}

-- The parts that elements from an offset on make.
unfoldable pub found : List ℕ → ℕ → List Element → List Sub
found seq off [] = []
found seq off (e ∷ es) =
    record { bytes = drop off seq; size = length (bytes_of e) }
    ∷ found seq (off + length (bytes_of e)) es

pub length-found :
    (seq : List ℕ) (off : ℕ) (es : List Element) → length (found seq off es) ≡ length es
unfolding found
length-found seq off [] = refl
length-found seq off (e ∷ es) = ap suc (length-found seq (off + length (bytes_of e)) es)

length-le-all_bytes : (es : List Element) → length es ≤ length (all_bytes es)
length-le-all_bytes [] = omega arith
length-le-all_bytes (e ∷ es) =
    omega
      (arith, length-le-all_bytes es, length-append (bytes_of e) (all_bytes es), length-bytes_of e)

all_bytes-single :
    (before : List Element) (e : Element)
    → all_bytes (before ++ e ∷ []) ≡ all_bytes before ++ bytes_of e
all_bytes-single before e =
    all_bytes-split before e [] ∙ ap (λ r. all_bytes before ++ r) (append-nil (bytes_of e))

-- A sequence of `lseq` bytes whose elements start at `p`.
module _ (seq : List ℕ) (lseq p : ℕ) (rest : List ℕ) (fits : lseq + 1 < 2 ^ 32)
    (head : (idx : ℕ) → decode_seq seq lseq idx 0 ≡ find_element seq lseq idx p) where
  abbrev Stands : List Element → List Element → Type 0
  Stands before after =
      (drop p seq ≡ all_bytes before ++ (all_bytes after ++ rest))
      × (p + length (all_bytes before) + length (all_bytes after) ≡ lseq)
      × All IsShort before
      × All IsShort after

  -- One element has been passed.
  Stands-step :
      (before : List Element) (e : Element) (after : List Element)
      → Stands before (e ∷ after)
      → Stands (before ++ e ∷ []) after
  Stands-step before e after s =
      let total = length-append (bytes_of e) (all_bytes after) in
      let longer : length (all_bytes (before ++ e ∷ []))
          ≡ length (all_bytes before) + length (bytes_of e) =
        ap length (all_bytes-single before e) ∙ length-append (all_bytes before) (bytes_of e) in
      (
        s.0
            ∙ ap (λ r. all_bytes before ++ r) (append_assoc (bytes_of e) (all_bytes after) rest)
            ∙ sym (append_assoc (all_bytes before) (bytes_of e) (all_bytes after ++ rest))
            ∙ ap (λ r. r ++ (all_bytes after ++ rest)) (sym (all_bytes-single before e)),
        omega arith,
        All-append IsShort before (e ∷ []) s.2 (s.3.0, tt),
        s.3.1,
      )

  decode_seq_next :
      (before : List Element) (e : Element) (after : List Element)
      → Stands before (e ∷ after)
      → decode_seq seq lseq (length before) 0
        ≡ done (p + length (all_bytes before), length (bytes_of e))
  decode_seq_next before e after s =
      let total = length-append (bytes_of e) (all_bytes after) in
      head (length before)
      ∙ find_element_lem seq lseq (omega arith) before e p (all_bytes after ++ rest) s.2 s.3.0
          (s.0 ∙ ap (λ r. all_bytes before ++ r) (append_assoc (bytes_of e) (all_bytes after) rest))
          (omega arith)

  decode_seq_last :
      (es : List Element) → Stands es [] → decode_seq seq lseq (length es) 0 ≡ err der_arg
  decode_seq_last es s =
      head (length es)
      ∙ find_element_end seq lseq (omega arith) es p rest s.2 s.0 (omega arith) fits

  count_subs_lem :
      (fuel : ℕ) (before after : List Element)
      → length after < fuel
      → length before + length after < 2 ^ 32
      → Stands before after
      → count_subs fuel seq lseq (length before) ≡ some (done (length before + length after))
  unfolding count_subs
  count_subs_lem zero before after enough few s = absurd (omega arith)
  count_subs_lem (suc fuel) before [] enough few s =
      rw (decode_seq_last before s, count_subs) (ap (λ n. some (done n)) (omega arith))
  count_subs_lem (suc fuel) before (e ∷ after) enough few s =
      let one : length (before ++ e ∷ []) ≡ length before + 1 = length-append before (e ∷ []) in
      let next : u32 (length before + 1) ≡ length (before ++ e ∷ []) = omega arith in
      rw (decode_seq_next before e after s, count_subs)
        (ap (count_subs fuel seq lseq) next
          ∙ count_subs_lem fuel (before ++ e ∷ []) after (omega arith) (omega arith)
              (Stands-step before e after s)
          ∙ ap (λ n. some (done n)) (omega arith))

  collect_subs_lem :
      (before after : List Element)
      → Stands before after
      → collect_subs (length after) seq lseq (length before)
        ≡ done (found seq (p + length (all_bytes before)) after)
  unfolding collect_subs found
  collect_subs_lem before [] s = refl
  collect_subs_lem before (e ∷ after) s =
      let one : length before + 1 ≡ length (before ++ e ∷ []) =
        sym (length-append before (e ∷ [])) in
      let longer : p + length (all_bytes (before ++ e ∷ []))
          ≡ p + length (all_bytes before) + length (bytes_of e) =
        omega (
          arith,
          ap length (all_bytes-single before e),
          length-append (all_bytes before) (bytes_of e),
        ) in
      let others =
        ap (collect_subs (length after) seq lseq) one
        ∙ collect_subs_lem (before ++ e ∷ []) after (Stands-step before e after s)
        ∙ ap (λ k. done (found seq k after)) longer in
      >>=-done (decode_seq seq lseq (length before) 0) _ _ (decode_seq_next before e after s)
      ∙ >>=-done (collect_subs (length after) seq lseq (length before + 1)) _ _ others

  -- All parts, if the fuel is more than their number.
  read_subs_lem :
      (fuel : ℕ) (es : List Element)
      → length es < fuel
      → Stands [] es
      → read_subs seq lseq (count_subs fuel seq lseq 0) ≡ some (done (found seq p es))
  unfolding read_subs
  read_subs_lem fuel es enough s =
      let few : length es < 2 ^ 32 = omega (arith, length-le-all_bytes es) in
      let none_before : p + 0 ≡ p = omega arith in
      let all : 0 + length es ≡ length es = omega arith in
      rw (count_subs_lem fuel [] es enough (omega arith) s, all)
        (ap some (collect_subs_lem [] es s ∙ ap (λ k. done (found seq k es)) none_before))

-- The tag of an element that starts with a low tag number.
peek_tag_lem :
    (d : List ℕ) (tag : ℕ) {rest : List ℕ}
    → d ≡ tag ∷ rest
    → (bit_and tag 0x1F == 31) ≡ false
    → peek_tag d ≡ done tag
unfolding peek_tag
peek_tag_lem d tag at low = rw (load_lem 0 d at) (rw low refl)

pub begin_read_seq :
    (fuel : ℕ) (input : List ℕ) (ldata : ℕ)
    → peek_tag input ≡ done 0x30
    → begin_read fuel input ldata ≡ read_subs input ldata (count_subs fuel input ldata 0)
unfolding begin_read
begin_read_seq fuel input ldata tag = rw (tag, begin_read) refl

-- The parts of a sequence that was written, with more memory behind it.
module _ (es : List Element) (rest : List ℕ) (small : length (all_bytes es) < 2 ^ 31) where
  pub begin_read_lem :
      (fuel : ℕ)
      → length es < fuel
      → begin_read fuel (memory es rest small) (size es rest small)
        ≡ some (done (found (memory es rest small) (payload_start es rest small) es))
  begin_read_lem fuel enough =
      let (least, most) = len_len_bounds (length (all_bytes es)) in
      let whole = length-size es rest small in
      begin_read_seq fuel (memory es rest small) (size es rest small)
        (peek_tag_lem (memory es rest small) 0x30 (memory_head es rest small) refl)
      ∙ read_subs_lem (memory es rest small) (size es rest small) (payload_start es rest small) rest
          (omega arith) (decode_seq_lem es rest small) fuel es enough
          (drop-seq_bytes es rest small, omega arith, tt, all_bytes-IsShort es small)

-- A part that holds one element, with more memory behind it.
module _ (e : Element) (more : List ℕ) (sub : Sub) (short : IsShort e)
    (at : sub.bytes ≡ bytes_of e ++ more) (exact : sub.size ≡ length (bytes_of e)) where
  pub sub_length :
      get_len 0 sub.bytes 1 sub.size ≡ done (length e.content, 1 + len_len (length e.content))
  sub_length =
      let (least, most) = len_len_bounds (length e.content) in
      let size = length-bytes_of e in
      ap (λ k. get_len 0 sub.bytes 1 k) exact
      ∙ get_len-element sub.bytes (length (bytes_of e)) (omega arith) 0 0 e more short at
          (omega arith)
      ∙ ap (λ k. done (length e.content, k)) (omega arith)

  pub sub_tag : (bit_and e.tag 0x1F == 31) ≡ false → peek_tag sub.bytes ≡ done e.tag
  unfolding bytes_of
  sub_tag low = peek_tag_lem sub.bytes e.tag at low

  pub sub_content : drop (1 + len_len (length e.content)) sub.bytes ≡ e.content ++ more
  unfolding bytes_of
  sub_content =
      let n = length e.content in
      ap (λ k. drop k sub.bytes) (omega (arith, length-len_bytes n))
      ∙ drop-prefix 0 sub.bytes (e.tag ∷ len_bytes n) (e.content ++ more)
          (at ∙ ap (λ r. e.tag ∷ r) (append_assoc (len_bytes n) e.content more))
