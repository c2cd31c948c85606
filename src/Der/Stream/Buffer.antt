-- ===== src/Der/Stream/Buffer.antt =====
-- The cyclic buffer gives the bytes of the reads in their order.
use empirical_zero_knowledge.Prelude.{
  ℕ, suc, ◌+◌, ◌-◌, ◌%◌, ◌<◌, ◌≤◌, ◌≡◌, refl, sym, ap, ap₂, ◌∙◌, true, false, List, [], ◌∷◌, ◌++◌,
  length, set, get_or, ltb, ◌==◌, length-set, append_assoc, concat, All, arith,
}
use mathlib.Core.Path.{subst}
use native.Mathlib.Decide.{dec_lt}
use mathlib.Core.List.{append-nil}
use empirical_zero_knowledge.Queue.Ring.{wrap, window, mod-eq-wrap, window-wrap, window_push}
use empirical_zero_knowledge.Der.Stream.{
  Reply, Run, ok, DerInputStream, cyclic_buf_siz, copy_in, front_byte, refill, cyclic_take,
  take_bytes, give, ◌>>=◌,
}

length-copy_in :
    (cbuf : List ℕ) (pos : ℕ) (buf : List ℕ) → length (copy_in cbuf pos buf) ≡ length cbuf
unfolding copy_in
length-copy_in cbuf pos [] = refl
length-copy_in cbuf pos (b ∷ buf) =
    length-copy_in (set cbuf (pos % cyclic_buf_siz) b) (pos + 1) buf
    ∙ length-set cbuf (pos % cyclic_buf_siz) b

-- What is copied in lies behind what was there.
window-copy_in :
    (cbuf : List ℕ) (p k : ℕ) (buf : List ℕ)
    → length cbuf ≡ cyclic_buf_siz
    → p < cyclic_buf_siz
    → k + length buf ≤ cyclic_buf_siz
    → window cyclic_buf_siz (copy_in cbuf (p + k) buf) p (k + length buf)
      ≡ window cyclic_buf_siz cbuf p k ++ buf
unfolding copy_in
window-copy_in cbuf p k [] size place room =
    ap (window cyclic_buf_siz cbuf p) (omega arith)
    ∙ sym (append-nil (window cyclic_buf_siz cbuf p k))
window-copy_in cbuf p k (b ∷ buf) size place room =
    let cell : (p + k) % cyclic_buf_siz ≡ wrap cyclic_buf_siz (p + k) =
      mod-eq-wrap cyclic_buf_siz (p + k) (omega arith) in
    let next = set cbuf ((p + k) % cyclic_buf_siz) b in
    let next_size : length next ≡ cyclic_buf_siz =
      length-set cbuf ((p + k) % cyclic_buf_siz) b ∙ size in
    ap₂ (λ q n. window cyclic_buf_siz (copy_in next q buf) p n) (omega arith) (omega arith)
    ∙ window-copy_in next p (suc k) buf next_size place (omega arith)
    ∙ ap (λ r. r ++ buf)
        (ap (λ c. window cyclic_buf_siz (set cbuf c b) p (suc k)) cell
          ∙ window_push cyclic_buf_siz cbuf p k b size place (omega arith))
    ∙ append_assoc (window cyclic_buf_siz cbuf p k) (b ∷ []) buf

-- A call that has succeeded is left out of a chain.
pub >>=-ok :
    {A B : Type 0} (m : Run A) (f : A → Run B) (s : DerInputStream) (a : A) (s' : DerInputStream)
    → m s ≡ (ok a, s')
    → ◌>>=◌ m f s ≡ f a s'
>>=-ok {A} {B} m f s a s' e = ap (λ (p : Reply A × DerInputStream). ◌>>=◌ (λ t. p) f s) e

-- Each read gives some bytes, and no more than the buffer holds.
abbrev pub AreReads : List (List ℕ) → Type 0
AreReads reads = All (λ (buf : List ℕ). (0 < length buf) × (length buf ≤ cyclic_buf_siz)) reads

pub record IsReady (s : DerInputStream) : Type 0 where
  pub cbuf_length : length s.cbuf ≡ cyclic_buf_siz
  pub start_inside : s.cbuf_start < cyclic_buf_siz
  pub len_most : s.cbuf_len ≤ cyclic_buf_siz
  pub reads_are : AreReads s.reads

-- The bytes to come.
abbrev pub pending : DerInputStream → List ℕ
pending s = window cyclic_buf_siz s.cbuf s.cbuf_start s.cbuf_len ++ concat s.reads

-- The first byte is given, and the others are left.
abbrev pub Gives :
    (DerInputStream → Reply ℕ × DerInputStream) → DerInputStream → ℕ → List ℕ → Type 0
Gives f s b rest =
    (s' : DerInputStream) × (f s ≡ (ok b, s'))
    × (pending s' ≡ rest)
    × IsReady s'
    × (s'.seqs ≡ s.seqs)

window_front :
    (cbuf : List ℕ) (p k : ℕ)
    → p < cyclic_buf_siz
    → window cyclic_buf_siz cbuf p (suc k) ≡ get_or cbuf p 0 ∷ window cyclic_buf_siz cbuf (p + 1) k
unfolding window wrap
window_front cbuf p k place =
    let inside : ltb p cyclic_buf_siz ≡ true = ground arith in
    ap (λ i. get_or cbuf i 0 ∷ window cyclic_buf_siz cbuf (p + 1) k) (rw inside refl)

head_eq : {x y : ℕ} {xs ys : List ℕ} → x ∷ xs ≡ y ∷ ys → x ≡ y
head_eq h = cc

tail_eq : {x y : ℕ} {xs ys : List ℕ} → x ∷ xs ≡ y ∷ ys → xs ≡ ys
tail_eq h = cc

front_byte-Gives :
    (s : DerInputStream) (k b : ℕ) (rest : List ℕ)
    → IsReady s
    → s.cbuf_len ≡ suc k
    → pending s ≡ b ∷ rest
    → Gives front_byte s b rest
unfolding front_byte
front_byte-Gives s k b rest r some_bytes front =
    let bytes : get_or s.cbuf s.cbuf_start 0
          ∷ (window cyclic_buf_siz s.cbuf (s.cbuf_start + 1) k ++ concat s.reads)
        ≡ b ∷ rest =
      ap (λ w. w ++ concat s.reads) (sym (window_front s.cbuf s.cbuf_start k r.start_inside))
      ∙ ap (λ n. window cyclic_buf_siz s.cbuf s.cbuf_start n ++ concat s.reads) (sym some_bytes)
      ∙ front in
    let test : (s.cbuf_len == 0) ≡ false = ground (arith, some_bytes) in
    let left : s.cbuf_len - 1 ≡ k = omega arith in
    let next : (s.cbuf_start + 1) % cyclic_buf_siz ≡ wrap cyclic_buf_siz (s.cbuf_start + 1) =
      mod-eq-wrap cyclic_buf_siz (s.cbuf_start + 1) (omega (arith, r.start_inside)) in
    let s' : DerInputStream = record s {
      cbuf_start = (s.cbuf_start + 1) % cyclic_buf_siz;
      cbuf_len = s.cbuf_len - 1;
    } in
    (
      s',
      rw test (ap (λ v. (ok v, s')) (head_eq bytes)),
      ap₂ (λ p n. window cyclic_buf_siz s.cbuf p n ++ concat s.reads) next left
          ∙ ap (λ w. w ++ concat s.reads)
              (window-wrap cyclic_buf_siz s.cbuf s.cbuf_start k r.start_inside
                (omega (arith, r.len_most)))
          ∙ tail_eq bytes,
      record {
        cbuf_length = r.cbuf_length;
        start_inside = omega arith;
        len_most = omega (arith, r.len_most);
        reads_are = r.reads_are;
      },
      refl,
    )

-- A stream with an empty buffer reads first.
refilled : DerInputStream → List ℕ → List (List ℕ) → DerInputStream
refilled s buf reads = record s {
  cbuf = copy_in s.cbuf s.cbuf_start buf;
  cbuf_len = length buf;
  reads = reads;
}

refilled-IsReady :
    (s : DerInputStream) (buf : List ℕ) (reads : List (List ℕ))
    → IsReady s
    → AreReads (buf ∷ reads)
    → IsReady (refilled s buf reads)
unfolding refilled
refilled-IsReady s buf reads r are = record {
  cbuf_length = length-copy_in s.cbuf s.cbuf_start buf ∙ r.cbuf_length;
  start_inside = r.start_inside;
  len_most = are.0.1;
  reads_are = are.1;
}

pending-refilled :
    (s : DerInputStream) (buf : List ℕ) (reads : List (List ℕ))
    → IsReady s
    → length buf ≤ cyclic_buf_siz
    → pending (refilled s buf reads) ≡ buf ++ concat reads
unfolding refilled window
pending-refilled s buf reads r room =
    ap (λ w. w ++ concat reads)
      (ap₂ (λ p n. window cyclic_buf_siz (copy_in s.cbuf p buf) s.cbuf_start n) (omega arith)
          (omega arith)
        ∙ window-copy_in s.cbuf s.cbuf_start 0 buf r.cbuf_length r.start_inside (omega arith))

take_refilled :
    (s : DerInputStream) (reads : List (List ℕ)) (b : ℕ) (rest : List ℕ)
    → IsReady s
    → s.reads ≡ reads
    → s.cbuf_len ≡ 0
    → concat reads ≡ b ∷ rest
    → Gives cyclic_take s b rest
take_refilled s [] b rest r given empty front = absurd (cc)
take_refilled s (buf ∷ reads) b rest r given empty front =
    let are = subst AreReads given r.reads_are in
    let (s', taken, left, ready, same) =
      front_byte-Gives (refilled s buf reads) (length buf - 1) b rest
        (refilled-IsReady s buf reads r are) (unfold refilled in (omega (arith, are.0.0)))
        (pending-refilled s buf reads r are.0.1 ∙ front) in
    let test : (s.cbuf_len == 0) ≡ true = ground (arith, empty) in
    (
      s',
      unfold cyclic_take refill refilled in
          (rw test
            (ap (λ rs. ◌>>=◌ (refill rs) (λ (done : Unit {0}). front_byte) s) given ∙ taken)),
      left,
      ready,
      unfold refilled in same,
    )

-- Where there are bytes to come, `cyclic_take` gives the first of them.
pub cyclic_take-Gives :
    (s : DerInputStream) (b : ℕ) (rest : List ℕ)
    → IsReady s
    → pending s ≡ b ∷ rest
    → Gives cyclic_take s b rest
unfolding window
cyclic_take-Gives s b rest r front = elim (dec_lt 0 s.cbuf_len) [
  | yes some_bytes ↦
      let (s', taken, left, ready, same) =
        front_byte-Gives s (s.cbuf_len - 1) b rest r (omega arith) front in
      let test : (s.cbuf_len == 0) ≡ false = ground arith in
      (s', unfold cyclic_take in (rw test taken), left, ready, same)
  | no none_left ↦
      let empty : s.cbuf_len ≡ 0 = omega arith in
      take_refilled s s.reads b rest r refl empty (
        ap (λ n. window cyclic_buf_siz s.cbuf s.cbuf_start n ++ concat s.reads) (sym empty) ∙ front)
]

-- Many bytes.
pub take_bytes_lem :
    (s : DerInputStream) (bytes rest : List ℕ)
    → IsReady s
    → pending s ≡ bytes ++ rest
    → (s' : DerInputStream) × (take_bytes (length bytes) s ≡ (ok bytes, s'))
      × (pending s' ≡ rest)
      × IsReady s'
      × (s'.seqs ≡ s.seqs)
unfolding take_bytes
take_bytes_lem s [] rest r front = (s, refl, front, r, refl)
take_bytes_lem s (b ∷ bytes) rest r front =
    let (s1, taken, left1, ready1, same1) = cyclic_take-Gives s b (bytes ++ rest) r front in
    let (s2, others, left2, ready2, same2) = take_bytes_lem s1 bytes rest ready1 left1 in
    (
      s2,
      >>=-ok cyclic_take (λ x. ◌>>=◌ (take_bytes (length bytes)) (λ xs. give (x ∷ xs))) s b s1 taken
          ∙ >>=-ok (take_bytes (length bytes)) (λ xs. give (b ∷ xs)) s1 bytes s2 others,
      left2,
      ready2,
      same2 ∙ same1,
    )
