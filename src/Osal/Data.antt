-- ===== src/Osal/Data.antt =====
-- Strings of bytes: `mcmp` of `platform/osal/src/common.c`, and `Data_new`, `Data_equal` and
-- `Data_copy` of `platform/osal/posix_src/osal.c`. A `Data` is its bytes, `ldata` of them; the null
-- pointer is `none`, as is a read or write outside of an array. The counter of `mcmp` is an `int`, and
-- the strings are shorter than 2 ^ 31.
pub mod Equal
use empirical_zero_knowledge.Prelude.{
  ℕ, zero, suc, ◌+◌, ◌-◌, Bool, true, false, Option, none, some, ◌>>=◌, List, [], ◌∷◌, length,
  get_elem?, set, replicate, ltb, leb, ◌==◌, if◌then◌else◌,
}

-- 1, -1 and 0.
pub data Sign : Type 0 where
  above : Sign
  below : Sign
  same : Sign

-- Over the first `l` bytes.
unfoldable pub mcmp : List ℕ → List ℕ → ℕ → Option Sign
mcmp ba bb zero = some same
mcmp [] bb (suc l) = none
mcmp (a ∷ ba) [] (suc l) = none
mcmp (a ∷ ba) (b ∷ bb) (suc l) =
    let rest = mcmp ba bb l in if ltb b a then some above else if ltb a b then some below else rest

unfoldable pub data_new : ℕ → List ℕ
data_new size = replicate size 0

unfoldable pub is_same : Sign → Bool
is_same same = true
is_same above = false
is_same below = false

unfoldable pub data_equal : Option (List ℕ) → Option (List ℕ) → Option Bool
unfolding mcmp is_same
data_equal none none = some true
data_equal none (some b) = some false
data_equal (some a) none = some false
data_equal (some a) (some b) =
    if length a == length b
    then (mcmp a b (length a) >>= λ sign. some (is_same sign))
    else some false

-- `while (i--) res->data[i] = other->data[i]`
unfoldable pub copy_down : ℕ → List ℕ → List ℕ → Option (List ℕ)
copy_down zero other res = some res
copy_down (suc i) other res = do
  b ← get_elem? other i
  res' ← if ltb i (length res) then some (set res i b) else none
  copy_down i other res'

unfoldable pub data_copy : List ℕ → Option (List ℕ)
unfolding copy_down
data_copy other = copy_down (length other) other (replicate (length other) 0)
