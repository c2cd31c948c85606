-- ===== src/Der/Length/Bounds.antt =====
-- How far `get_len` reads, and what it returns on a buffer that is cut short.
use empirical_zero_knowledge.Prelude.{
  ℕ, zero, suc, ◌+◌, ◌-◌, ◌^◌, ◌<◌, ◌≤◌, ◌≡◌, refl, Bool-cases, inl, inr, List, [], ◌∷◌, ltb, u32,
  false, IsBytes, arith,
}
use empirical_zero_knowledge.Der.Outcome.{Outcome, done, err, fault, ◌>>=◌}
use empirical_zero_knowledge.Der.Memory.{load}
use empirical_zero_knowledge.Der.Length.{get_len, read_len, long_len}

>>=-eq-done :
    {A B : Type 0} (m : Outcome A) (f : A → Outcome B) {b : B}
    → (m >>= f) ≡ done b
    → (a : A) × (m ≡ done a) × (f a ≡ done b)
>>=-eq-done (done a) f h = (a, refl, h)
>>=-eq-done (err e) f h = cc
>>=-eq-done fault f h = cc

load-byte : (buf : List ℕ) (i : ℕ) {b : ℕ} → IsBytes buf → load buf i ≡ done b → b < 256
unfolding load
load-byte [] i bytes h = cc
load-byte (x ∷ buf) zero bytes h = ground arith
load-byte (x ∷ buf) (suc i) bytes h = load-byte buf i bytes.1 h

-- What follows the loop of the long form moves the offset behind the bytes.
after_loop :
    (m : Outcome ℕ) (next : ℕ) {v off' : ℕ}
    → ◌>>=◌ {B = ℕ × ℕ} m (λ len. done (len, next)) ≡ done (v, off')
    → off' ≡ next
after_loop (done len) next h = cc
after_loop (err e) next h = cc
after_loop fault next h = cc

read_len_bounds :
    (l : ℕ) (buf : List ℕ) (off lbuf b : ℕ) {v off' : ℕ}
    → off < lbuf
    → lbuf + 2 ^ 8 < 2 ^ 32
    → b < 256
    → read_len l buf off lbuf b ≡ done (v, off')
    → (off ≤ off') × (off' ≤ lbuf)
unfolding read_len
read_len_bounds l buf off lbuf b inside fits byte h = elim (Bool-cases (ltb b 0x80)) [
  | inl short ↦ let moved = rw short at h in ground arith
  | inr long ↦ elim (Bool-cases (ltb 0x80 b)) [
    | inl proper ↦ elim (Bool-cases (ltb lbuf (u32 (off + 1 + (b - 0x80))))) [
      | inl cut ↦ let refused = rw (long, proper, cut) at h in cc
      | inr room ↦
          let left = rw (long, proper, room) at h in
          ground (
            arith,
            after_loop (long_len buf (off + 1) (b - 0x80) 0) (u32 (off + (b - 0x80) + 1)) left,
          )
    ]
    | inr exact ↦ let kept = rw (long, exact) at h in ground arith
  ]
]

-- Where the offset lies in the buffer, `get_len` leaves it in the buffer or at its end, whatever the
-- bytes there are. The buffer's size is 256 or more below `2 ^ 32`.
pub get_len_bounds :
    (l : ℕ) (buf : List ℕ) (off lbuf : ℕ) {v off' : ℕ}
    → off < lbuf
    → lbuf + 2 ^ 8 < 2 ^ 32
    → IsBytes buf
    → get_len l buf off lbuf ≡ done (v, off')
    → (off ≤ off') × (off' ≤ lbuf)
unfolding get_len
get_len_bounds l buf off lbuf inside fits bytes h =
    let in_buf : ltb lbuf off ≡ false = ground arith in
    let (b, read, rest) = >>=-eq-done (load buf off) (read_len l buf off lbuf) (rw in_buf at h) in
    read_len_bounds l buf off lbuf b inside fits (load-byte buf off bytes read) rest
