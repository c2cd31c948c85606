-- ===== src/IntKeyMap.antt =====
-- The map with integer keys (`platform/osal/src/intkeymap.c`): 17 buckets, each a list of entries. The
-- list is that of `platform/osal/src/singlelinkedlist.c`, by its elements. An element is a pointer,
-- given by a number, and 0 is the null pointer.
pub mod History
pub mod Size
use empirical_zero_knowledge.Prelude.{
  ℕ, ◌+◌, ◌*◌, ◌%◌, ◌^◌, ◌<◌, ◌≡◌, refl, Bool, false, not, ◌&&◌, ◌||◌, List, [], ◌∷◌, ◌++◌, length,
  get_or, set, replicate, get_or-set, ◌==◌, if◌then◌else◌, u32, arith,
}

abbrev pub Entry : Type 0
Entry = ℕ × ℕ

unfoldable pub int_hash_fn : ℕ → ℕ
int_hash_fn key = u32 (101 * key + 65537) % 17

unfoldable pub new : List (List Entry)
new = replicate 17 []

-- The searches of a bucket.
unfoldable pub present : ℕ → List Entry → Bool
present key [] = false
present key ((k, elm) ∷ bucket) = key == k || present key bucket

unfoldable pub elm_of : ℕ → List Entry → ℕ
elm_of key [] = 0
elm_of key ((k, elm) ∷ bucket) = if key == k then elm else elm_of key bucket

unfoldable pub drop_entry : ℕ → List Entry → List Entry
drop_entry key [] = []
drop_entry key ((k, elm) ∷ bucket) = if key == k then bucket else (k, elm) ∷ drop_entry key bucket

abbrev pub bucket_at : List (List Entry) → ℕ → List Entry
bucket_at buckets key = get_or buckets (int_hash_fn key) []

-- A key that is there keeps its element.
unfoldable pub put_entry : ℕ → ℕ → List Entry → List Entry
put_entry key elm bucket = if present key bucket then bucket else bucket ++ (key, elm) ∷ []

-- A caller gives 64 bits for a key, of which the map takes 32.
unfoldable pub put : ℕ → ℕ → List (List Entry) → List (List Entry)
put key elm buckets =
    let k = u32 key in set buckets (int_hash_fn k) (put_entry k elm (bucket_at buckets k))

unfoldable pub get : ℕ → List (List Entry) → ℕ
get key buckets = let k = u32 key in elm_of k (bucket_at buckets k)

unfoldable pub contains : ℕ → List (List Entry) → Bool
contains key buckets = not (get key buckets == 0)

-- The element that was there, and the map without it.
unfoldable pub rem : ℕ → List (List Entry) → ℕ × List (List Entry)
rem key buckets =
    let k = u32 key in
    let bucket = bucket_at buckets k in
    (elm_of k bucket, set buckets (int_hash_fn k) (drop_entry k bucket))

unfoldable pub keys : List (List Entry) → List ℕ
keys [] = []
keys ([] ∷ buckets) = keys buckets
keys (((k, elm) ∷ bucket) ∷ buckets) = k ∷ keys (bucket ∷ buckets)

unfoldable pub size : List (List Entry) → ℕ
size [] = 0
size (bucket ∷ buckets) = length bucket + size buckets

elm_of-append :
    (j key elm : ℕ) (bucket : List Entry)
    → elm_of j (bucket ++ (key, elm) ∷ [])
      ≡ (if present j bucket then elm_of j bucket else if j == key then elm else 0)
unfolding elm_of present
elm_of-append j key elm [] = refl
elm_of-append j key elm ((k, e) ∷ bucket) = ground (arith, elm_of-append j key elm bucket)

elm_of-absent : (j : ℕ) (bucket : List Entry) → present j bucket ≡ false → elm_of j bucket ≡ 0
unfolding elm_of present
elm_of-absent j [] h = refl
elm_of-absent j ((k, e) ∷ bucket) h = ground (arith, elm_of-absent j bucket)

elm_of-put_entry :
    (j key elm : ℕ) (bucket : List Entry)
    → elm_of j (put_entry key elm bucket)
      ≡ (if j == key && not (present key bucket) then elm else elm_of j bucket)
unfolding put_entry
elm_of-put_entry j key elm bucket =
    ground (arith, elm_of-append j key elm bucket, elm_of-absent j bucket)

pub int_hash_fn-lt : (key : ℕ) → int_hash_fn key < 17
unfolding int_hash_fn
int_hash_fn-lt key = omega arith

-- In a map of 17 buckets and for keys below 2 ^ 32, `put` makes its key give the new element if the key was not there; a key that
-- was there, and any other key, give what they gave before.
pub get-put_absent :
    (j key elm : ℕ) (buckets : List (List Entry))
    → length buckets ≡ 17
    → j < 2 ^ 32
    → key < 2 ^ 32
    → get j (put key elm buckets)
      ≡ (if j == key && not (present key (bucket_at buckets key)) then elm else get j buckets)
unfolding get put
get-put_absent j key elm buckets size_is small_j small_key =
    let same_j : u32 j ≡ j = omega arith in
    let same_key : u32 key ≡ key = omega arith in
    rw (same_j, same_key)
      (ground (
        arith,
        get_or-set buckets (int_hash_fn key) (int_hash_fn j)
            (put_entry key elm (bucket_at buckets key)) [],
        int_hash_fn-lt key,
        elm_of-put_entry j key elm (bucket_at buckets key),
        elm_of-put_entry j key elm (bucket_at buckets j),
      ))
