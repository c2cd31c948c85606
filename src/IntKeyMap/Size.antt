-- ===== src/IntKeyMap/Size.antt =====
-- How the number of entries changes (`platform/osal/src/intkeymap.c`).
use empirical_zero_knowledge.Prelude.{
  ℕ, zero, suc, ◌+◌, ◌<◌, ◌≤◌, ◌≡◌, List, [], ◌∷◌, length, length-append, get_or, set, u32, arith,
}
use empirical_zero_knowledge.IntKeyMap.{
  Entry, int_hash_fn, int_hash_fn-lt, bucket_at, put_entry, drop_entry, put, rem, size,
}

size-set :
    (buckets : List (List Entry)) (h : ℕ) (bucket : List Entry)
    → h < length buckets
    → size (set buckets h bucket) + length (get_or buckets h []) ≡ size buckets + length bucket
unfolding size
size-set [] h bucket inside = absurd (omega arith)
size-set (b ∷ buckets) zero bucket inside = omega arith
size-set (b ∷ buckets) (suc h) bucket inside =
    omega (arith, size-set buckets h bucket (omega arith))

length-put_entry :
    (key elm : ℕ) (bucket : List Entry) → length (put_entry key elm bucket) ≤ length bucket + 1
unfolding put_entry
length-put_entry key elm bucket = ground (arith, length-append {A = Entry} bucket ((key, elm) ∷ []))

length-drop_entry : (key : ℕ) (bucket : List Entry) → length (drop_entry key bucket) ≤ length bucket
unfolding drop_entry
length-drop_entry key [] = omega arith
length-drop_entry key ((k, elm) ∷ bucket) = ground (arith, length-drop_entry key bucket)

pub size-put :
    (key elm : ℕ) (buckets : List (List Entry))
    → length buckets ≡ 17
    → size (put key elm buckets) ≤ size buckets + 1
unfolding put
size-put key elm buckets width =
    let k = u32 key in
    omega (
      arith,
      int_hash_fn-lt k,
      size-set buckets (int_hash_fn k) (put_entry k elm (bucket_at buckets k))
          (let small = int_hash_fn-lt k in omega arith),
      length-put_entry k elm (bucket_at buckets k),
    )

pub size-rem :
    (key : ℕ) (buckets : List (List Entry))
    → length buckets ≡ 17
    → size ((rem key buckets).1) ≤ size buckets
unfolding rem
size-rem key buckets width =
    let k = u32 key in
    omega (
      arith,
      size-set buckets (int_hash_fn k) (drop_entry k (bucket_at buckets k))
          (let small = int_hash_fn-lt k in omega arith),
      length-drop_entry k (bucket_at buckets k),
    )
