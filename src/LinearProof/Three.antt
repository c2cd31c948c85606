-- ===== src/LinearProof/Three.antt =====
-- The generator writes its bits in groups of three: what is read after such a write, and that
-- the write of a majority test fits.
use empirical_zero_knowledge.Prelude.{
  ℕ, ◌+◌, ◌*◌, ◌^◌, ◌<◌, ◌≡◌, refl, ◌∙◌, Bool, true, false, some, List, ◌==◌, if◌then◌else◌, length,
  u32, IsBytes, arith,
}
use empirical_zero_knowledge.BitString.{set_bit}
use empirical_zero_knowledge.BitString.Laws.{bit_at, set_bit-IsWritten}
use empirical_zero_knowledge.LinearProof.Generator.{set_three, set_two, set_majority}

-- Three bits in a row, from `i` on, in place of the old ones.
abbrev pub three : ℕ → Bool → Bool → Bool → (ℕ → Bool) → ℕ → Bool
three i b₁ b₂ b₃ old j =
    if j == i then b₁ else if j == i + 1 then b₂ else if j == i + 2 then b₃ else old j

pub record IsThree (a : List ℕ) (i : ℕ) (b₁ b₂ b₃ : Bool) (a' : List ℕ) : Type 0 where
  pub bytes : IsBytes a'
  pub same_length : length a' ≡ length a
  pub reads : (j : ℕ) → bit_at a' j ≡ three i b₁ b₂ b₃ (bit_at a) j

set_three-chain :
    (a a₁ a₂ : List ℕ) (i : ℕ) (b₁ b₂ b₃ : Bool)
    → i + 2 < 2 ^ 32
    → set_bit a i b₁ ≡ some a₁
    → set_bit a₁ (i + 1) b₂ ≡ some a₂
    → set_three a i b₁ b₂ b₃ ≡ set_bit a₂ (i + 2) b₃
unfolding set_three
set_three-chain a a₁ a₂ i b₁ b₂ b₃ small e₁ e₂ =
    let same₁ : u32 (i + 1) ≡ i + 1 = omega arith in
    let same₂ : u32 (i + 2) ≡ i + 2 = omega arith in rw (e₁, same₁, e₂, same₂) refl

set_two-chain :
    (a a₁ : List ℕ) (i : ℕ) (b₁ b₂ : Bool)
    → i + 1 < 2 ^ 32
    → set_bit a i b₁ ≡ some a₁
    → set_two a i b₁ b₂ ≡ set_bit a₁ (i + 1) b₂
unfolding set_two
set_two-chain a a₁ i b₁ b₂ small e₁ =
    let same₁ : u32 (i + 1) ≡ i + 1 = omega arith in rw (e₁, same₁) refl

three-writes :
    (i : ℕ) (b₁ b₂ b₃ : Bool) (old r₁ r₂ r₃ : ℕ → Bool)
    → ((j : ℕ) → r₁ j ≡ (if j == i then b₁ else old j))
    → ((j : ℕ) → r₂ j ≡ (if j == i + 1 then b₂ else r₁ j))
    → ((j : ℕ) → r₃ j ≡ (if j == i + 2 then b₃ else r₂ j))
    → (j : ℕ) → r₃ j ≡ three i b₁ b₂ b₃ old j
three-writes i b₁ b₂ b₃ old r₁ r₂ r₃ w₁ w₂ w₃ j = ground (arith, w₁ j, w₂ j, w₃ j)

pub set_three-IsThree :
    (a : List ℕ) (i : ℕ) (b₁ b₂ b₃ : Bool)
    → IsBytes a
    → i + 2 < 8 * length a
    → i + 2 < 2 ^ 32
    → (a' : List ℕ) × (set_three a i b₁ b₂ b₃ ≡ some a') × IsThree a i b₁ b₂ b₃ a'
set_three-IsThree a i b₁ b₂ b₃ bytes range small =
    let (a₁, e₁, w₁) = set_bit-IsWritten a i b₁ bytes (omega arith) in
    let l₁ : length a₁ ≡ length a = w₁.same_length in
    let (a₂, e₂, w₂) = set_bit-IsWritten a₁ (i + 1) b₂ w₁.bytes (omega arith) in
    let l₂ : length a₂ ≡ length a₁ = w₂.same_length in
    let (a₃, e₃, w₃) = set_bit-IsWritten a₂ (i + 2) b₃ w₂.bytes (omega arith) in
    (
      a₃,
      set_three-chain a a₁ a₂ i b₁ b₂ b₃ small e₁ e₂ ∙ e₃,
      record {
        bytes = w₃.bytes;
        same_length = w₃.same_length ∙ l₂ ∙ l₁;
        reads =
            three-writes i b₁ b₂ b₃ (bit_at a) (bit_at a₁) (bit_at a₂) (bit_at a₃) w₁.reads w₂.reads
              w₃.reads;
      },
    )

-- The same array, as far as its size goes.
abbrev pub IsAlike : List ℕ → List ℕ → Type 0
IsAlike a a' = IsBytes a' × (length a' ≡ length a)

-- The bits of the majority test fit, whatever they are.
set_two-total :
    (a : List ℕ) (i : ℕ) (b₁ b₂ : Bool)
    → IsBytes a
    → i + 1 < 8 * length a
    → i + 1 < 2 ^ 32
    → (a' : List ℕ) × (set_two a i b₁ b₂ ≡ some a') × IsAlike a a'
set_two-total a i b₁ b₂ bytes range small =
    let (a₁, e₁, w₁) = set_bit-IsWritten a i b₁ bytes (omega arith) in
    let l₁ : length a₁ ≡ length a = w₁.same_length in
    let (a₂, e₂, w₂) = set_bit-IsWritten a₁ (i + 1) b₂ w₁.bytes (omega arith) in
    (a₂, set_two-chain a a₁ i b₁ b₂ small e₁ ∙ e₂, (w₂.bytes, w₂.same_length ∙ l₁))

pub set_majority-total :
    (a : List ℕ) (i : ℕ) (b₁ b₂ b₃ : Bool)
    → IsBytes a
    → i + 1 < 8 * length a
    → i + 1 < 2 ^ 32
    → (a' : List ℕ) × (set_majority a i b₁ b₂ b₃ ≡ some a') × IsAlike a a'
unfolding set_majority
set_majority-total a i false false false h p q = set_two-total a i false false h p q
set_majority-total a i true true true h p q = set_two-total a i false false h p q
set_majority-total a i false false true h p q = set_two-total a i false false h p q
set_majority-total a i false true false h p q = set_two-total a i true false h p q
set_majority-total a i true false false h p q = set_two-total a i false true h p q
set_majority-total a i false true true h p q = (a, refl, (h, refl))
set_majority-total a i true false true h p q = (a, refl, (h, refl))
set_majority-total a i true true false h p q = (a, refl, (h, refl))

module _ (i : ℕ) (old : ℕ → Bool) (b₁ b₂ b₃ : Bool) where
  pub at_first : three i b₁ b₂ b₃ old (i + 0) ≡ b₁
  at_first = ground arith

  pub at_second : three i b₁ b₂ b₃ old (i + 1) ≡ b₂
  at_second = ground arith

  pub at_third : three i b₁ b₂ b₃ old (i + 2) ≡ b₃
  at_third = ground arith
