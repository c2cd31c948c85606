-- ===== src/Der/Length.antt =====
-- The length of an encoding: `len_len` writes it, `get_len` reads it. A number of type `int` is given
-- by its two's complement.
pub mod Bounds
use empirical_zero_knowledge.Prelude.{
  ℕ, zero, suc, ◌+◌, ◌-◌, ◌*◌, ◌/◌, ◌%◌, ◌^◌, ◌<◌, ◌≤◌, ◌≡◌, refl, sym, ap, ap₂, ◌∙◌, List, [], ◌∷◌,
  ◌++◌, ◌&&◌, length, drop, ltb, if◌then◌else◌, u32, arith, true, false,
}
use native.Mathlib.Decide.{dec_lt}
use empirical_zero_knowledge.Der.Outcome.{Outcome, done, err, fault, der_arg, ◌>>=◌, >>=-done}
use empirical_zero_knowledge.Der.Memory.{load, load_lem, drop-prefix}

-- `while ((tmp >>= 8) > 0) lenlen++`, with fuel. A shift of a negative number leaves it negative.
unfoldable pub count_bytes : ℕ → ℕ → ℕ → ℕ
count_bytes zero tmp lenlen = lenlen
count_bytes (suc fuel) tmp lenlen =
    let rest = count_bytes fuel (tmp / 2 ^ 8) (lenlen + 1) in
    if ltb tmp (2 ^ 31) && ltb 0 (tmp / 2 ^ 8) then rest else lenlen

-- The value of `*llen`.
unfoldable pub len_len : ℕ → ℕ
unfolding count_bytes
len_len ldata = if ltb ldata 0x80 then 1 else count_bytes 4 ldata 1 + 1

-- `len[lenlen - i] = ldata % 256; ldata >>= 8`, from the last byte down.
unfoldable pub fill : ℕ → ℕ → List ℕ → List ℕ
fill zero ldata after = after
fill (suc k) ldata after = fill k (ldata / 2 ^ 8) ((ldata % 256) ∷ after)

-- What `len_len` writes to `len`.
unfoldable pub len_bytes : ℕ → List ℕ
unfolding count_bytes fill
len_bytes ldata =
    if ltb ldata 0x80
    then ldata ∷ []
    else (0x80 + count_bytes 4 ldata 1) ∷ fill (count_bytes 4 ldata 1) ldata []

-- The loop of the long form, over the bytes left. The shift of an `int` by 32 or more faults.
unfoldable pub long_len : List ℕ → ℕ → ℕ → ℕ → Outcome ℕ
long_len buf pos zero len = done len
long_len buf pos (suc k) len = do
  b ← load buf (u32 pos)
  elim (ltb k 4) [ true ↦ long_len buf (pos + 1) k (u32 (len + b * 2 ^ (8 * k))) | false ↦ fault ]

-- `get_len` from its first byte on. The byte 0x80 leaves the length and the offset as they were.
unfoldable pub read_len : ℕ → List ℕ → ℕ → ℕ → ℕ → Outcome (ℕ × ℕ)
unfolding long_len load
read_len l buf off lbuf b =
    if ltb b 0x80
    then done (b, u32 (off + 1))
    else if ltb 0x80 b
    then if ltb lbuf (u32 (off + 1 + (b - 0x80)))
      then err der_arg
      else (long_len buf (off + 1) (b - 0x80) 0 >>= λ len. done (len, u32 (off + (b - 0x80) + 1)))
    else done (l, off)

-- The length and the offset after it.
unfoldable pub get_len : ℕ → List ℕ → ℕ → ℕ → Outcome (ℕ × ℕ)
unfolding read_len load
get_len l buf off lbuf =
    if ltb lbuf off then err der_arg else load buf off >>= read_len l buf off lbuf

-- The number that bytes stand for, the highest first, added to `len`.
unfoldable pub value : ℕ → List ℕ → ℕ
value len [] = len
value len (b ∷ bytes) = value (u32 (len + b * 2 ^ (8 * length bytes))) bytes

long_len-value :
    (buf : List ℕ) (pos len : ℕ) (bytes rest : List ℕ)
    → drop pos buf ≡ bytes ++ rest
    → pos + length bytes < 2 ^ 32
    → length bytes ≤ 4
    → long_len buf pos (length bytes) len ≡ done (value len bytes)
unfolding long_len value
long_len-value buf pos len [] rest at small few = refl
long_len-value buf pos len (b ∷ bytes) rest at small few =
    let here : u32 pos ≡ pos = omega arith in
    let short : ltb (length bytes) 4 ≡ true = ground arith in
    >>=-done (load buf (u32 pos)) _ b (rw here (load_lem pos buf at))
    ∙ rw short (
        long_len-value buf (pos + 1) (u32 (len + b * 2 ^ (8 * length bytes))) bytes rest
          (drop-prefix pos buf (b ∷ []) (bytes ++ rest) at) (omega arith) (omega arith))

-- A long form of up to four bytes is read as their number.
get_len_long :
    (l : ℕ) (buf : List ℕ) (off lbuf : ℕ) (bytes rest : List ℕ)
    → drop off buf ≡ (0x80 + length bytes) ∷ (bytes ++ rest)
    → 1 ≤ length bytes
    → length bytes ≤ 4
    → off + 1 + length bytes ≤ lbuf
    → lbuf < 2 ^ 32
    → get_len l buf off lbuf ≡ done (value 0 bytes, off + (1 + length bytes))
unfolding get_len read_len
get_len_long l buf off lbuf bytes rest at some_bytes few room small =
    let inside : ltb lbuf off ≡ false = ground arith in
    let long : ltb (0x80 + length bytes) 0x80 ≡ false = ground arith in
    let proper : ltb 0x80 (0x80 + length bytes) ≡ true = ground arith in
    let count : (0x80 + length bytes) - 0x80 ≡ length bytes = omega arith in
    let fits : ltb lbuf (u32 (off + 1 + length bytes)) ≡ false = ground arith in
    let after : u32 (off + length bytes + 1) ≡ off + (1 + length bytes) = omega arith in
    rw inside (
      >>=-done (load buf off) _ (0x80 + length bytes) (load_lem off buf at)
      ∙ rw (long, proper, count, fits)
          (>>=-done (long_len buf (off + 1) (length bytes) 0) _ (value 0 bytes) (
              long_len-value buf (off + 1) 0 bytes rest
                (drop-prefix off buf ((0x80 + length bytes) ∷ []) (bytes ++ rest) at) (omega arith)
                (omega arith))
            ∙ ap (λ r. done (value 0 bytes, r)) after))

pub length-fill : (k v : ℕ) (after : List ℕ) → length (fill k v after) ≡ k + length after
unfolding fill
length-fill zero v after = omega arith
length-fill (suc k) v after = omega (arith, length-fill k (v / 2 ^ 8) ((v % 256) ∷ after))

pub count_bytes_bounds : (v : ℕ) → (1 ≤ count_bytes 4 v 1) × (count_bytes 4 v 1 ≤ 4)
unfolding count_bytes
count_bytes_bounds v = ground arith

-- The bytes that are counted hold the number, unless it is negative as an `int`.
pub count_bytes_fits : (v : ℕ) → v < 2 ^ 31 → v < 2 ^ (8 * count_bytes 4 v 1)
unfolding count_bytes
count_bytes_fits v h = ground arith

pub value-fill : (k v : ℕ) → k ≤ 4 → v < 2 ^ (8 * k) → value 0 (fill k v []) ≡ v
unfolding fill value
value-fill zero v few fits = omega arith
value-fill (suc zero) v few fits = omega arith
value-fill (suc (suc zero)) v few fits = omega arith
value-fill (suc (suc (suc zero))) v few fits = omega arith
value-fill (suc (suc (suc (suc zero)))) v few fits = omega arith
value-fill (suc (suc (suc (suc (suc k))))) v few fits = absurd (omega arith)

-- More fuel counts no further: the loop has ended by its test.
pub count_bytes_enough :
    (fuel v n : ℕ) → v < 2 ^ 32 → count_bytes (4 + fuel) v n ≡ count_bytes 4 v n
unfolding count_bytes
count_bytes_enough fuel v n h =
    let step : 4 + fuel ≡ suc (suc (suc (suc fuel))) = omega arith in rw step (ground arith)

pub get_len_past :
    (l : ℕ) (buf : List ℕ) (off lbuf : ℕ) → lbuf < off → get_len l buf off lbuf ≡ err der_arg
unfolding get_len
get_len_past l buf off lbuf h = let past : ltb lbuf off ≡ true = ground arith in rw past refl

get_len_short :
    (l v : ℕ) (buf : List ℕ) (off lbuf : ℕ) (rest : List ℕ)
    → drop off buf ≡ v ∷ rest
    → v < 0x80
    → off + 1 ≤ lbuf
    → lbuf < 2 ^ 32
    → get_len l buf off lbuf ≡ done (v, off + 1)
unfolding get_len read_len
get_len_short l v buf off lbuf rest at low room fits =
    let inside : ltb lbuf off ≡ false = ground arith in
    let short : ltb v 0x80 ≡ true = ground arith in
    let after : u32 (off + 1) ≡ off + 1 = omega arith in
    rw inside (>>=-done (load buf off) _ v (load_lem off buf at) ∙ rw (short, after) refl)

pub len_bytes_short : (v : ℕ) → v < 0x80 → (len_bytes v ≡ v ∷ []) × (len_len v ≡ 1)
unfolding len_bytes len_len
len_bytes_short v h = ground arith

pub len_bytes_long :
    (v : ℕ)
    → 0x80 ≤ v
    → (len_bytes v ≡ (0x80 + count_bytes 4 v 1) ∷ fill (count_bytes 4 v 1) v [])
      × (len_len v ≡ count_bytes 4 v 1 + 1)
unfolding len_bytes len_len
len_bytes_long v h = let high : ltb v 0x80 ≡ false = ground arith in (rw high refl, rw high refl)

pub len_len_bounds : (v : ℕ) → (1 ≤ len_len v) × (len_len v ≤ 5)
unfolding len_len
len_len_bounds v = ground (arith, count_bytes_bounds v)

pub length-len_bytes : (v : ℕ) → length (len_bytes v) ≡ len_len v
unfolding len_bytes len_len
length-len_bytes v = ground (arith, length-fill (count_bytes 4 v 1) v [])

-- What `len_len` has written is read back by `get_len`, which moves the offset behind it, where the
-- length is below `2 ^ 31`, the bytes stand at the offset and the buffer's size covers them.
pub get_len-len_bytes :
    (l v : ℕ) (buf : List ℕ) (off lbuf : ℕ) (rest : List ℕ)
    → v < 2 ^ 31
    → drop off buf ≡ len_bytes v ++ rest
    → off + len_len v ≤ lbuf
    → lbuf < 2 ^ 32
    → get_len l buf off lbuf ≡ done (v, off + len_len v)
get_len-len_bytes l v buf off lbuf rest small at room fits = elim (dec_lt v 0x80) [
  | yes low ↦
      let (bytes, size) = len_bytes_short v low in
      get_len_short l v buf off lbuf rest (at ∙ ap (λ b. b ++ rest) bytes) low (omega arith) fits
      ∙ ap (λ n. done (v, off + n)) (sym size)
  | no high ↦
      let (bytes, size) = len_bytes_long v (omega arith) in
      let k = count_bytes 4 v 1 in
      let count : length (fill k v []) ≡ k = length-fill k v [] ∙ omega arith in
      let (least, most) = count_bytes_bounds v in
      get_len_long l buf off lbuf (fill k v []) rest
        (at ∙ ap (λ b. b ++ rest) bytes ∙ ap (λ n. (0x80 + n) ∷ (fill k v [] ++ rest)) (sym count))
        (omega arith) (omega arith) (omega arith) fits
      ∙ ap₂ (λ x n. done (x, off + n)) (value-fill k v most (count_bytes_fits v small))
          (omega arith)
]
