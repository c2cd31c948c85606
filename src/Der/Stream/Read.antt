-- ===== src/Der/Stream/Read.antt =====
-- What the stream reads from the bytes of an element.
use empirical_zero_knowledge.Prelude.{
  ℕ, ◌+◌, ◌-◌, ◌^◌, ◌<◌, ◌≤◌, ◌≡◌, refl, sym, ap, ap₂, ◌∙◌, true, false, List, [], ◌∷◌, ◌++◌,
  length, All, ltb, u32, append_assoc, arith,
}
use mathlib.Core.Path.{subst}
use native.Mathlib.Decide.{dec_lt}
use empirical_zero_knowledge.Der.Length.{
  len_len, len_bytes, count_bytes, fill, value, value-fill, length-fill, count_bytes_bounds,
  count_bytes_fits, len_bytes_short, len_bytes_long,
}
use empirical_zero_knowledge.Der.Sequence.Read.{bytes_of}
use empirical_zero_knowledge.Der.Context.Strings.{octets, element_of}
use empirical_zero_knowledge.Der.Stream.{
  ok, DerInputStream, cyclic_buf_siz, Run, cyclic_take, take_bytes, thelen_from, read_thelen,
  str_content, str_from, with_seqs, enter_element, read_str, give, ◌>>=◌,
}
use empirical_zero_knowledge.Der.Stream.Buffer.{
  IsReady, pending, >>=-ok, cyclic_take-Gives, take_bytes_lem,
}

-- A function of the stream reads some bytes and returns a value.
abbrev pub Reads : {A : Type 0} → Run A → DerInputStream → A → List ℕ → Type 0
Reads m s a rest =
    (s' : DerInputStream) × (m s ≡ (ok a, s'))
    × (pending s' ≡ rest)
    × IsReady s'
    × (s'.seqs ≡ s.seqs)

thelen_from-long :
    (s : DerInputStream) (bytes rest : List ℕ)
    → IsReady s
    → 1 ≤ length bytes
    → pending s ≡ bytes ++ rest
    → Reads (thelen_from (0x80 + length bytes)) s (value 0 bytes, length bytes + 1) rest
unfolding thelen_from
thelen_from-long s bytes rest r some_bytes front =
    let n = length bytes in
    let (s', others, left, ready, same) = take_bytes_lem s bytes rest r front in
    let long : ltb 0x80 (0x80 + n) ≡ true = ground arith in
    let count : 0x80 + n - 0x80 ≡ n = omega arith in
    (
      s',
      rw (long, count) (>>=-ok (take_bytes n) (λ xs. give (value 0 xs, n + 1)) s bytes s' others),
      left,
      ready,
      same,
    )

thelen_from-short : (s : DerInputStream) (n : ℕ) → n < 0x80 → thelen_from n s ≡ (ok (n, 1), s)
unfolding thelen_from
thelen_from-short s n low = let short : ltb 0x80 n ≡ false = ground arith in rw short refl

-- A function that reads the first byte, and goes on with it.
take_then :
    {A : Type 0} (f : ℕ → Run A) (s : DerInputStream) (b : ℕ) (a : A) (bytes rest : List ℕ)
    → IsReady s
    → pending s ≡ b ∷ bytes
    → ((s1 : DerInputStream)
        → IsReady s1
        → pending s1 ≡ bytes
        → s1.seqs ≡ s.seqs
        → Reads (f b) s1 a rest)
    → Reads (◌>>=◌ cyclic_take f) s a rest
take_then f s b a bytes rest r front go =
    let (s1, taken, left1, ready1, same1) = cyclic_take-Gives s b bytes r front in
    let (s2, done, left2, ready2, same2) = go s1 ready1 left1 same1 in
    (s2, >>=-ok cyclic_take f s b s1 taken ∙ done, left2, ready2, same2 ∙ same1)

read_thelen_lem :
    (s : DerInputStream) (n : ℕ) (rest : List ℕ)
    → IsReady s
    → n < 2 ^ 31
    → pending s ≡ len_bytes n ++ rest
    → Reads read_thelen s (n, len_len n) rest
unfolding read_thelen
read_thelen_lem s n rest r small front = elim (dec_lt n 0x80) [
  | yes low ↦
      let (bytes, size) = len_bytes_short n low in
      take_then thelen_from s n (n, len_len n) rest rest r (front ∙ ap (λ b. b ++ rest) bytes)
        (λ s1 ready left kept. (
          s1,
          thelen_from-short s1 n low ∙ ap (λ k. (ok (n, k), s1)) (sym size),
          left,
          ready,
          refl,
        ))
  | no high ↦
      let (bytes, size) = len_bytes_long n (omega arith) in
      let k = count_bytes 4 n 1 in
      let (least, most) = count_bytes_bounds n in
      let digits = fill k n [] in
      let count : length digits ≡ k = length-fill k n [] ∙ omega arith in
      let number : value 0 digits ≡ n = value-fill k n most (count_bytes_fits n small) in
      subst (λ v. Reads read_thelen s v rest) (ap₂ (λ v l. (v, l)) number (omega arith))
        (unfold read_thelen in
          (take_then thelen_from s (0x80 + length digits) (value 0 digits, length digits + 1)
            (digits ++ rest) rest r
            (front
              ∙ ap (λ b. b ++ rest) bytes
              ∙ ap (λ c. (0x80 + c) ∷ (digits ++ rest)) (sym count))
            (λ s1 ready left kept. thelen_from-long s1 digits rest ready (omega arith) left)))
]

enter_outside :
    (n whole : ℕ) (s : DerInputStream)
    → s.seqs ≡ []
    → with_seqs (enter_element n whole) s ≡ (ok tt, s)
unfolding enter_element
enter_outside n whole s h = ap (λ q. enter_element n whole q s) h

str_content_lem :
    (s : DerInputStream) (d rest : List ℕ) (lenlen : ℕ)
    → IsReady s
    → s.seqs ≡ []
    → pending s ≡ d ++ rest
    → Reads (str_content (length d, lenlen)) s (d, length d) rest
unfolding str_content
str_content_lem s d rest lenlen r outside front =
    let n = length d in
    let whole = u32 (n + 1 + lenlen) in
    let (s', taken, left, ready, same) = take_bytes_lem s d rest r front in
    (
      s',
      >>=-ok (with_seqs (enter_element n whole))
            (λ (done : Unit {0}). ◌>>=◌ (take_bytes n) (λ res. give (res, n))) s tt s
            (enter_outside n whole s outside)
          ∙ >>=-ok (take_bytes n) (λ res. give (res, n)) s d s' taken,
      left,
      ready,
      same,
    )

-- Outside of a sequence, the bytes of an octet string shorter than `2 ^ 31` are read as the string and
-- its length, whatever the sizes of the reads that bring them, if each read brings at least one byte
-- and no more than the buffer holds; the bytes behind them are left. The buffer has its size, and its
-- start and its count lie within that.
pub read_str-bytes_of :
    (s : DerInputStream) (d rest : List ℕ)
    → length s.cbuf ≡ cyclic_buf_siz
    → s.cbuf_start < cyclic_buf_siz
    → s.cbuf_len ≤ cyclic_buf_siz
    → All (λ (buf : List ℕ). (0 < length buf) × (length buf ≤ cyclic_buf_siz)) s.reads
    → s.seqs ≡ []
    → length d < 2 ^ 31
    → pending s ≡ bytes_of (element_of (octets d)) ++ rest
    → Reads read_str s (d, length d) rest
unfolding read_str str_from bytes_of element_of
read_str-bytes_of s d rest size start most some_bytes outside small front =
    let n = length d in
    let r : IsReady s = record {
      cbuf_length = size;
      start_inside = start;
      len_most = most;
      reads_are = some_bytes;
    } in
    take_then str_from s 4 (d, n) ((len_bytes n ++ d) ++ rest) rest r front
      (λ s1 ready1 left1 kept1.
        let (s2, len, left2, ready2, same2) =
          read_thelen_lem s1 n (d ++ rest) ready1 small
            (left1 ∙ append_assoc (len_bytes n) d rest) in
        let (s3, content, left3, ready3, same3) =
          str_content_lem s2 d rest (len_len n) ready2 (same2 ∙ kept1 ∙ outside) left2 in
        (
          s3,
          >>=-ok read_thelen str_content s1 (n, len_len n) s2 len ∙ content,
          left3,
          ready3,
          same3 ∙ same2,
        ))
