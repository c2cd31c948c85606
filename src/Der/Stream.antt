-- ===== src/Der/Stream.antt =====
-- The input stream of DER elements: a cyclic buffer that is filled by the reads of a file. What the
-- file gives is an argument: the bytes of each read, as long as there are any.
pub mod Buffer
pub mod Read
use empirical_zero_knowledge.Prelude.{
  ℕ, zero, suc, ◌+◌, ◌-◌, ◌*◌, ◌^◌, ◌%◌, not, true, false, List, [], ◌∷◌, ◌++◌, length, get_or, set,
  ltb, ◌==◌, if◌then◌else◌, u32,
}
use empirical_zero_knowledge.Der.Length.{value}

-- Codes of `RC` other than `RC_OK`.
pub data Rc : Type 0 where
  rc_fail : Rc
  rc_bad_data : Rc

pub data Reply (A : Type 0) : Type 0 where
  ok : A → Reply A
  failed : Rc → Reply A

-- A sequence that has been begun: what has been read of it, its length, the bytes of the length.
pub record SeqEnt : Type 0 where
  pub offset : ℕ
  pub length : ℕ
  pub lenlen : ℕ

-- The sequences are listed from the innermost on. `reads` are the bytes of the reads to come.
pub record DerInputStream : Type 0 where
  pub cbuf : List ℕ
  pub cbuf_start : ℕ
  pub cbuf_len : ℕ
  pub seqs : List SeqEnt
  pub reads : List (List ℕ)

abbrev pub Run : Type 0 → Type 0
Run A = DerInputStream → Reply A × DerInputStream

infixl 5 ◌>>=◌
abbrev pub ◌>>=◌ : {A B : Type 0} → Run A → (A → Run B) → Run B
◌>>=◌ m f s = let (r, s') = m s in elim r [ ok a ↦ f a s' | failed rc ↦ (failed rc, s') ]

abbrev pub give : {A : Type 0} → A → Run A
give a s = (ok a, s)

abbrev pub refuse : {A : Type 0} → Rc → Run A
refuse rc s = (failed rc, s)

abbrev pub cyclic_buf_siz : ℕ
cyclic_buf_siz = 8192

-- `s->cbuf[(s->cbuf_start + i) % sizeof(s->cbuf)] = buf[i]`
unfoldable pub copy_in : List ℕ → ℕ → List ℕ → List ℕ
copy_in cbuf pos [] = cbuf
copy_in cbuf pos (b ∷ buf) = copy_in (set cbuf (pos % cyclic_buf_siz) b) (pos + 1) buf

-- The byte at the front.
unfoldable pub front_byte : Run ℕ
front_byte s = if s.cbuf_len == 0 then (failed rc_bad_data, s) else (
  ok (get_or s.cbuf s.cbuf_start 0),
  record s { cbuf_start = (s.cbuf_start + 1) % cyclic_buf_siz; cbuf_len = s.cbuf_len - 1 },
)

-- A read, which fails where the file gives nothing more.
unfoldable pub refill : List (List ℕ) → Run (Unit {0})
refill [] s = (failed rc_fail, s)
refill (buf ∷ reads) s = (
  ok tt,
  record s { cbuf = copy_in s.cbuf s.cbuf_start buf; cbuf_len = length buf; reads = reads },
)

unfoldable pub cyclic_take : Run ℕ
cyclic_take s =
    if s.cbuf_len == 0 then ◌>>=◌ (refill s.reads) (λ done. front_byte) s else front_byte s

unfoldable pub cyclic_rewind : DerInputStream → DerInputStream
cyclic_rewind s = record s {
  cbuf_len = s.cbuf_len + 1;
  cbuf_start = u32 (s.cbuf_start + 2 ^ 32 - 1) % cyclic_buf_siz;
}

unfoldable pub peek_tag : Run ℕ
peek_tag = cyclic_take >>= λ tag s. (ok tag, cyclic_rewind s)

-- `n` bytes one after the other.
unfoldable pub take_bytes : ℕ → Run (List ℕ)
take_bytes zero = give []
take_bytes (suc n) = cyclic_take >>= λ b. take_bytes n >>= λ bytes. give (b ∷ bytes)

-- The length, and the number of its bytes. A shift by 32 or more, which C leaves undefined, gives 0.
unfoldable pub thelen_from : ℕ → Run (ℕ × ℕ)
thelen_from l =
    if ltb 0x80 l
    then (take_bytes (l - 0x80) >>= λ bytes. give (value 0 bytes, l - 0x80 + 1))
    else give (l, 1)

unfoldable pub read_thelen : Run (ℕ × ℕ)
read_thelen = cyclic_take >>= thelen_from

-- An element of a sequence is not longer than what is left of it, and moves its offset.
unfoldable pub enter_element : ℕ → ℕ → List SeqEnt → Run (Unit {0})
enter_element thelen whole [] s = (ok tt, s)
enter_element thelen whole (ent ∷ seqs) s =
    if ltb ((ent.length + 2 ^ 64 - ent.offset) % 2 ^ 64) thelen
    then (failed rc_bad_data, s)
    else (ok tt, record s { seqs = record ent { offset = (ent.offset + whole) % 2 ^ 64 } ∷ seqs })

abbrev pub with_seqs : (List SeqEnt → Run (Unit {0})) → Run (Unit {0})
with_seqs f s = f s.seqs s

unfoldable pub str_content : ℕ × ℕ → Run (List ℕ × ℕ)
str_content l = with_seqs (enter_element (l.0) (u32 (l.0 + 1 + l.1))) >>= λ done.
    take_bytes (l.0) >>= λ res. give (res, l.0)

unfoldable pub str_from : ℕ → Run (List ℕ × ℕ)
str_from tag =
    if not (tag == 4)
    then (λ s. (failed rc_bad_data, cyclic_rewind s))
    else (read_thelen >>= str_content)

unfoldable pub read_str : Run (List ℕ × ℕ)
read_str = cyclic_take >>= str_from

unfoldable pub read_int : Run ℕ
read_int = cyclic_take >>= λ tag.
    if not (tag == 2)
    then refuse rc_bad_data
    else (cyclic_take >>= λ len.
        if not (len == 4)
        then refuse rc_bad_data
        else (with_seqs (enter_element len (len + 1 + 1)) >>= λ done.
            take_bytes 4 >>= λ ints. give (value 0 ints)))

unfoldable pub begin_seq : Run (Unit {0})
begin_seq = cyclic_take >>= λ tag.
    if not (tag == 0x30)
    then (λ s. (failed rc_bad_data, cyclic_rewind s))
    else (read_thelen >>= λ l. λ s.
        (ok tt, record s { seqs = record { offset = 0; length = l.0; lenlen = l.1 } ∷ s.seqs }))

-- The sequence around the one that ends has read it whole.
abbrev outer : SeqEnt → List SeqEnt → List SeqEnt
outer ent [] = []
outer ent (around ∷ seqs) =
    record around { offset = (around.offset + ent.length + ent.lenlen + 1) % 2 ^ 64 } ∷ seqs

unfoldable pub leave : List SeqEnt → Run (Unit {0})
leave [] s = (failed rc_bad_data, s)
leave (ent ∷ seqs) s =
    ◌>>=◌ (take_bytes ((ent.length + 2 ^ 64 - ent.offset) % 2 ^ 64))
      (λ bytes s'. (ok tt, record s' { seqs = outer ent seqs })) (record s { seqs = seqs })

unfoldable pub leave_seq : Run (Unit {0})
leave_seq s = leave s.seqs s
