-- ===== src/Circuit.antt =====
-- Circuits: the gates of `empiricalZK/rtz14/include/circuitparser.h`, and the meaning of a gate
-- over an assignment of bits to heap addresses. A circuit is the list of its gates.
pub mod AddressMap
pub mod Hashed
pub mod PatchOne
pub mod InputGates
pub mod OutputGates
use empirical_zero_knowledge.Prelude.{ℕ, ◌≡◌, ◌≢◌, Bool, true, false, ◌&&◌, xor, List, [], ◌∷◌, All}

pub data GType : Type 0 where
  g_and g_xor g_one g_zero : GType

pub record Gate : Type 0 where
  pub type : GType
  pub dst : ℕ
  pub op1 : ℕ
  pub op2 : ℕ

-- The visitors call `visitAnd` and `visitXor` on these two types, and skip the others.
abbrev pub is_logic : GType → Bool
is_logic g_and = true
is_logic g_xor = true
is_logic g_one = false
is_logic g_zero = false

-- The relation between the bits at a gate's addresses.
abbrev pub HoldsAt : GType → (ℕ → Bool) → Gate → Type 0
HoldsAt g_and s g = s g.dst ≡ (s g.op1 && s g.op2)
HoldsAt g_xor s g = s g.dst ≡ xor (s g.op1) (s g.op2)
HoldsAt g_one s g = Unit
HoldsAt g_zero s g = Unit

abbrev pub Satisfies : (ℕ → Bool) → List Gate → Type 0
Satisfies s = All (λ g. HoldsAt g.type s g)
