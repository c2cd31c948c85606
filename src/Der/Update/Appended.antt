-- ===== src/Der/Update/Appended.antt =====
-- What `der_upd_seq` leaves in the buffer.
use empirical_zero_knowledge.Prelude.{
  ℕ, ◌+◌, ◌-◌, ◌^◌, ◌<◌, ◌≤◌, ◌≡◌, refl, sym, ap, ap₂, ◌∙◌, List, [], ◌∷◌, ◌++◌, length,
  length-append, append_assoc, drop, ltb, if◌then◌else◌, u32, false, arith,
}
use native.Mathlib.Decide.{dec_lt}
use empirical_zero_knowledge.Der.Outcome.{done, >>=-done}
use empirical_zero_knowledge.Der.Memory.{load, load_lem, store}
use empirical_zero_knowledge.Der.Length.{
  len_len, len_bytes, get_len, get_len-len_bytes, length-len_bytes, len_bytes_short, len_bytes_long,
  count_bytes, len_len_bounds, count_bytes_bounds,
}
use empirical_zero_knowledge.Der.Sequence.Written.{store-append, drop-length-append}
use empirical_zero_knowledge.Der.Update.{upd_seq, extend, move_up}

-- The first byte of a length gives the number of its bytes.
first_byte :
    (v : ℕ) (rest : List ℕ)
    → (b : ℕ) × (load (0x30 ∷ (len_bytes v ++ rest)) 1 ≡ done b)
      × ((if ltb 0x80 b then b - 0x7F else 1) ≡ len_len v)
first_byte v rest = elim (dec_lt v 0x80) [
  | yes low ↦
      let (bytes, size) = len_bytes_short v low in
      (v, load_lem 1 _ (ap (λ b. b ++ rest) bytes), ground arith)
  | no high ↦
      let (bytes, size) = len_bytes_long v (omega arith) in
      let bounds = count_bytes_bounds v in
      (0x80 + count_bytes 4 v 1, load_lem 1 _ (ap (λ b. b ++ rest) bytes), ground arith)
]

-- A sequence with its room behind it.
abbrev pub sequence : List ℕ → List ℕ → List ℕ
sequence payload room = 0x30 ∷ (len_bytes (length payload) ++ (payload ++ room))

-- The two writes.
store-payload :
    (payload room more : List ℕ)
    → length more ≤ length room
    → store (sequence payload room) (1 + len_len (length payload) + length payload) more
      ≡ done (0x30 ∷ (len_bytes (length payload) ++ (payload ++ (more ++ drop (length more) room))))
store-payload payload room more left =
    let n = length payload in
    let front = 0x30 ∷ (len_bytes n ++ payload) in
    let split : (after : List ℕ) → front ++ after ≡ 0x30 ∷ (len_bytes n ++ (payload ++ after)) =
      λ after. ap (λ r. 0x30 ∷ r) (append_assoc (len_bytes n) payload after) in
    let size : length front ≡ 1 + len_len n + n =
      omega (arith, length-append (len_bytes n) payload, length-len_bytes n) in
    ap₂ (λ b i. store b i more) (sym (split room)) (sym size)
    ∙ store-append front room more left
    ∙ ap (λ r. done r) (split (more ++ drop (length more) room))

store-length :
    (old new rest : List ℕ)
    → length new ≡ length old
    → store (0x30 ∷ (old ++ rest)) 1 new ≡ done (0x30 ∷ (new ++ rest))
store-length old new rest same =
    let left : length new ≤ length (old ++ rest) = omega (arith, length-append old rest) in
    store-append (0x30 ∷ []) (old ++ rest) new left
    ∙ ap (λ r. done (0x30 ∷ (new ++ r)))
        (ap (λ n. drop n (old ++ rest)) same ∙ drop-length-append old rest)

extend-sequence :
    (payload room more : List ℕ) (lresult : ℕ)
    → len_len (length payload + length more) ≡ len_len (length payload)
    → length more ≤ length room
    → length payload + length more < 2 ^ 31
    → 1 + len_len (length payload) + length payload + length more ≤ lresult
    → extend
        (sequence payload room)
        lresult
        more
        (length payload)
        (1 + len_len (length payload))
        (len_len (length payload))
      ≡ done (
        0x30
            ∷ (len_bytes (length payload + length more)
                ++ (payload ++ (more ++ drop (length more) room))),
        1 + len_len (length payload) + length payload + length more,
      )
unfolding extend move_up
extend-sequence payload room more lresult same room_left small fits =
    let bounds = len_len_bounds (length payload) in
    let n = length payload in
    let sum : u32 (n + length more) ≡ n + length more = omega arith in
    let at : u32 (1 + len_len n + n) ≡ 1 + len_len n + n = omega arith in
    let next : u32 (1 + len_len n + n + length more) ≡ 1 + len_len n + n + length more =
      omega arith in
    let room_test : ltb lresult (u32 (n + length more + len_len n + 1)) ≡ false = ground arith in
    let unmoved : ltb (len_len n) (len_len n) ≡ false = ground arith in
    rw (sum, same, at, next, room_test, unmoved)
      (>>=-done (store (sequence payload room) (1 + len_len n + n) more) _ _
          (store-payload payload room more room_left)
        ∙ >>=-done (store (0x30 ∷ (len_bytes n ++ _)) 1 (len_bytes (n + length more))) _ _ (
            store-length (len_bytes n) (len_bytes (n + length more)) _
              (length-len_bytes (n + length more) ∙ same ∙ sym (length-len_bytes n))))

-- Bytes, at least two, are put behind the payload of a sequence, its length is written anew, and the
-- offset is the one behind them. This is where the length, below 2 ^ 31, takes as many bytes as
-- before, and the buffer has room, as does its size, which is below 2 ^ 32.
pub upd_seq-sequence :
    (payload room more : List ℕ) (lresult : ℕ)
    → len_len (length payload + length more) ≡ len_len (length payload)
    → 2 ≤ length more
    → length more ≤ length room
    → length payload + length more < 2 ^ 31
    → 1 + len_len (length payload) + length payload + length more ≤ lresult
    → lresult < 2 ^ 32
    → upd_seq (sequence payload room) lresult more
      ≡ done (
        sequence (payload ++ more) (drop (length more) room),
        1 + len_len (length payload) + length payload + length more,
      )
unfolding upd_seq load
upd_seq-sequence payload room more lresult same two left small fits below =
    let n = length payload in
    let refused : ltb lresult (u32 (length more + 2 ^ 32 - 2)) ≡ false = ground arith in
    let tall : ltb lresult n ≡ false = ground arith in
    let (first, read, count) = first_byte n (payload ++ room) in
    let bounds = len_len_bounds n in
    rw refused (
      >>=-done (get_len 0 (sequence payload room) 1 lresult) _ _ (
        get_len-len_bytes 0 n (sequence payload room) 1 lresult (payload ++ room) (omega arith) refl
          (omega arith) below)
      ∙ >>=-done (load (sequence payload room) 1) _ first read
      ∙ rw (tall, count) (extend-sequence payload room more lresult same left small fits)
      ∙ ap₂ (λ size r. done (0x30 ∷ (len_bytes size ++ r), 1 + len_len n + n + length more))
          (sym (length-append payload more))
          (sym (append_assoc payload more (drop (length more) room))))
