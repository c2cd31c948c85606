-- ===== src/Der/Sequence/Read.antt =====
-- What `der_decode_seq` finds in a sequence of elements, each a tag, a length and its content.
use empirical_zero_knowledge.Prelude.{
  ℕ, ◌+◌, ◌-◌, ◌^◌, ◌<◌, ◌≤◌, ◌≡◌, refl, sym, ap, ◌∙◌, List, [], ◌∷◌, ◌++◌, length, drop, ltb, u32,
  false, length-append, append_assoc, concat, map, All, arith,
}
use empirical_zero_knowledge.Der.Outcome.{done, err, der_arg, >>=-done}
use empirical_zero_knowledge.Der.Memory.{load, load_lem, drop-prefix}
use empirical_zero_knowledge.Der.Length.{
  len_len, len_bytes, get_len, get_len_past, get_len-len_bytes, length-len_bytes, len_len_bounds,
}
use empirical_zero_knowledge.Der.Sequence.{skip, find_element, decode_seq}
use empirical_zero_knowledge.Der.Sequence.Written.{seq_bytes, length-seq_bytes}

pub record Element : Type 0 where
  pub tag : ℕ
  pub content : List ℕ

-- The bytes of an element.
unfoldable pub bytes_of : Element → List ℕ
bytes_of e = e.tag ∷ (len_bytes (length e.content) ++ e.content)

-- Elements one behind the other.
abbrev pub all_bytes : List Element → List ℕ
all_bytes es = concat (map bytes_of es)

-- The length fits an `int`.
abbrev pub IsShort : Element → Type 0
IsShort e = length e.content < 2 ^ 31

pub length-bytes_of :
    (e : Element) → length (bytes_of e) ≡ 1 + len_len (length e.content) + length e.content
unfolding bytes_of
length-bytes_of e =
    let n = length e.content in
    omega (arith, length-append (len_bytes n) e.content, length-len_bytes n)

module _ (seq : List ℕ) (lseq : ℕ) (fits : lseq < 2 ^ 32) where
  -- The length of the element at an offset.
  pub get_len-element :
      (l off : ℕ) (e : Element) (rest : List ℕ)
      → IsShort e
      → drop off seq ≡ bytes_of e ++ rest
      → off + length (bytes_of e) ≤ lseq
      → get_len l seq (u32 (off + 1)) lseq
        ≡ done (length e.content, off + 1 + len_len (length e.content))
  unfolding bytes_of
  get_len-element l off e rest short at room =
      let n = length e.content in
      let size = length-bytes_of e in
      let next : u32 (off + 1) ≡ off + 1 = omega arith in
      let behind = drop-prefix off seq (e.tag ∷ []) ((len_bytes n ++ e.content) ++ rest) at in
      rw next (
        get_len-len_bytes l n seq (off + 1) lseq (e.content ++ rest) short
          (behind ∙ append_assoc (len_bytes n) e.content rest) (omega arith) fits)

  -- The last of the lengths of some elements.
  pub last_length : ℕ → List Element → ℕ
  last_length nlen [] = nlen
  last_length nlen (e ∷ es) = last_length (length e.content) es

  skip_lem :
      (es : List Element) (off nlen : ℕ) (rest : List ℕ)
      → All IsShort es
      → drop off seq ≡ all_bytes es ++ rest
      → off + length (all_bytes es) ≤ lseq
      → skip (length es) seq lseq off nlen ≡ done (off + length (all_bytes es), last_length nlen es)
  unfolding skip last_length
  skip_lem [] off nlen rest short at room = ap (λ n. done (n, nlen)) (omega arith)
  skip_lem (e ∷ es) off nlen rest short at room =
      let n = length e.content in
      let size = length-bytes_of e in
      let total = length-append (bytes_of e) (all_bytes es) in
      let here = at ∙ append_assoc (bytes_of e) (all_bytes es) rest in
      let next : u32 (off + 1 + len_len n + n) ≡ off + length (bytes_of e) = omega arith in
      let inside : ltb lseq (u32 (off + 1 + len_len n + n)) ≡ false = ground arith in
      >>=-done (get_len 0 seq (u32 (off + 1)) lseq) _ _
        (get_len-element 0 off e (all_bytes es ++ rest) short.0 here (omega arith))
      ∙ rw inside (
          ap (λ k. skip (length es) seq lseq k n) next
          ∙ skip_lem es (off + length (bytes_of e)) n rest short.1
              (drop-prefix off seq (bytes_of e) (all_bytes es ++ rest) here) (omega arith)
          ∙ ap (λ k. done (k, last_length n es)) (omega arith))

  -- The element behind some others is found with its whole length.
  pub find_element_lem :
      (before : List Element) (e : Element) (off : ℕ) (rest : List ℕ)
      → All IsShort before
      → IsShort e
      → drop off seq ≡ all_bytes before ++ (bytes_of e ++ rest)
      → off + length (all_bytes before) + length (bytes_of e) ≤ lseq
      → find_element seq lseq (length before) off
        ≡ done (off + length (all_bytes before), length (bytes_of e))
  unfolding find_element
  find_element_lem before e off rest short_before short at room =
      let start = off + length (all_bytes before) in
      let n = length e.content in
      let size = length-bytes_of e in
      >>=-done (skip (length before) seq lseq off 0) _ _
        (skip_lem before off 0 (bytes_of e ++ rest) short_before at (omega arith))
      ∙ >>=-done (get_len (last_length 0 before) seq (u32 (start + 1)) lseq) _ _ (
          get_len-element (last_length 0 before) start e rest short
            (drop-prefix off seq (all_bytes before) (bytes_of e ++ rest) at) (omega arith))
      ∙ ap (λ k. done (start, k)) (omega arith)

  -- Behind the last element, where the sequence ends, there is none.
  pub find_element_end :
      (es : List Element) (off : ℕ) (rest : List ℕ)
      → All IsShort es
      → drop off seq ≡ all_bytes es ++ rest
      → off + length (all_bytes es) ≡ lseq
      → lseq + 1 < 2 ^ 32
      → find_element seq lseq (length es) off ≡ err der_arg
  unfolding find_element
  find_element_end es off rest short at ends small =
      let start = off + length (all_bytes es) in
      >>=-done (skip (length es) seq lseq off 0) _ _ (skip_lem es off 0 rest short at (omega arith))
      ∙ rw (get_len_past (last_length 0 es) seq (u32 (start + 1)) lseq (omega arith)) refl

pub all_bytes-split :
    (before : List Element) (e : Element) (after : List Element)
    → all_bytes (before ++ e ∷ after) ≡ all_bytes before ++ (bytes_of e ++ all_bytes after)
all_bytes-split [] e after = refl
all_bytes-split (b ∷ before) e after =
    ap (λ r. bytes_of b ++ r) (all_bytes-split before e after)
    ∙ sym (append_assoc (bytes_of b) (all_bytes before) (bytes_of e ++ all_bytes after))

-- Elements that fit into a short sequence are short.
pub all_bytes-IsShort : (es : List Element) → length (all_bytes es) < 2 ^ 31 → All IsShort es
all_bytes-IsShort [] h = tt
all_bytes-IsShort (e ∷ es) h =
    let total = length-append (bytes_of e) (all_bytes es) in
    let size = length-bytes_of e in (omega arith, all_bytes-IsShort es (omega arith))

-- A sequence whose length is right is searched from behind its length on.
decode_seq_head :
    (seq : List ℕ) (lseq n idx : ℕ)
    → load seq 0 ≡ done 0x30
    → get_len 0 seq 1 lseq ≡ done (n, 1 + len_len n)
    → lseq ≡ 1 + len_len n + n
    → lseq < 2 ^ 31 + 6
    → decode_seq seq lseq idx 0 ≡ find_element seq lseq idx (1 + len_len n)
unfolding decode_seq
decode_seq_head seq lseq n idx tag len whole small =
    let (least, most) = len_len_bounds n in
    let two : ltb lseq (u32 (0 + 2)) ≡ false = ground arith in
    let left : ltb (u32 (lseq + 2 ^ 32 - (1 + len_len n) + 1)) n ≡ false = ground arith in
    rw two
      (>>=-done (load seq 0) _ 0x30 tag ∙ >>=-done (get_len 0 seq 1 lseq) _ _ len ∙ rw left refl)

-- A sequence that was written, read from its start on.
module _ (es : List Element) (rest : List ℕ) (small : length (all_bytes es) < 2 ^ 31) where
  abbrev pub payload_start : ℕ
  payload_start = 1 + len_len (length (all_bytes es))

  abbrev pub memory : List ℕ
  memory = seq_bytes (map bytes_of es) ++ rest

  abbrev pub size : ℕ
  size = length (seq_bytes (map bytes_of es))

  pub memory_head : memory ≡ 0x30 ∷ (len_bytes (length (all_bytes es)) ++ (all_bytes es ++ rest))
  unfolding seq_bytes
  memory_head =
      ap (λ r. 0x30 ∷ r) (append_assoc (len_bytes (length (all_bytes es))) (all_bytes es) rest)

  pub drop-seq_bytes : drop payload_start memory ≡ all_bytes es ++ rest
  drop-seq_bytes =
      let n = length (all_bytes es) in
      ap (λ k. drop k memory) (omega (arith, length-len_bytes n))
      ∙ drop-prefix 1 memory (len_bytes n) (all_bytes es ++ rest) (ap (drop 1) memory_head)

  pub length-size : size ≡ payload_start + length (all_bytes es)
  length-size = length-seq_bytes (map bytes_of es)

  pub decode_seq_lem :
      (idx : ℕ) → decode_seq memory size idx 0 ≡ find_element memory size idx payload_start
  decode_seq_lem idx =
      let n = length (all_bytes es) in
      let (least, most) = len_len_bounds n in
      decode_seq_head memory size n idx (load_lem 0 memory memory_head)
        (get_len-len_bytes 0 n memory 1 size (all_bytes es ++ rest) small (ap (drop 1) memory_head)
          (omega (arith, length-size)) (omega (arith, length-size)))
        length-size (omega (arith, length-size))

  -- Behind the last element there is none.
  pub decode_seq_end : decode_seq memory size (length es) 0 ≡ err der_arg
  decode_seq_end =
      let (least, most) = len_len_bounds (length (all_bytes es)) in
      decode_seq_lem (length es)
      ∙ find_element_end memory size (omega (arith, length-size)) es payload_start rest
          (all_bytes-IsShort es small) drop-seq_bytes (sym length-size) (omega (arith, length-size))
