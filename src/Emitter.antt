-- ===== src/Emitter.antt =====
-- The evaluation string emitter of `empiricalZK/rtz14/src/emiter.c`: it evaluates a circuit over
-- a bit string indexed by heap address, and takes one witness bit at the first use of each input
-- address. `none` is an access outside the bit string or the witness. The two counters
-- are `uint` in the code; they count gates and inputs that lie in memory, and do not wrap.
pub mod Step
pub mod Satisfies
use empirical_zero_knowledge.Prelude.{
  ℕ, suc, ◌+◌, ◌/◌, Bool, ◌&&◌, xor, Option, some, ◌>>=◌, List, [], ◌∷◌, if◌then◌else◌, length,
  replicate, u32,
}
use empirical_zero_knowledge.BitString.{get_bit, set_bit}
use empirical_zero_knowledge.Circuit.{GType, g_and, g_xor, g_one, g_zero, Gate}
use empirical_zero_knowledge.Circuit.AddressMap.{AddressMap}

pub record EmiterResult : Type 0 where
  pub emitted_string : List ℕ
  pub lemitted_string : ℕ

module _ (A : AddressMap) where
  open A use {Map, contains, rem, size}

  pub record EseVisitor : Type 0 where
    pub bit_string : List ℕ
    pub input : List ℕ
    pub input_gates : Map
    pub no_and_gates : ℕ
    pub next_input : ℕ

  unfoldable pub esev_next_input_bit : EseVisitor → Option (Bool × EseVisitor)
  esev_next_input_bit e = do
    r ← get_bit e.input e.next_input
    some (r, record e { next_input = e.next_input + 1 })

  -- The block for one operand, which both visitors repeat for `op1` and `op2`: an input address
  -- takes the next witness bit, any other address is read from the string.
  take_input : ℕ → EseVisitor → Option (Bool × EseVisitor)
  unfolding esev_next_input_bit
  take_input op e = do
    (bit, e₁) ← esev_next_input_bit e
    string ← set_bit e₁.bit_string op bit
    some (bit, record e₁ { bit_string = string; input_gates = rem e₁.input_gates op })

  unfoldable pub read_operand : ℕ → EseVisitor → Option (Bool × EseVisitor)
  unfolding take_input
  read_operand op e =
      if contains e.input_gates op
      then take_input op e
      else (get_bit e.bit_string op >>= λ bit. some (bit, e))

  unfoldable pub write_result : ℕ → Bool → EseVisitor → Option EseVisitor
  write_result dst bit e = do
    string ← set_bit e.bit_string dst bit
    some (record e { bit_string = string; input_gates = rem e.input_gates dst })

  -- Both visitors count into `no_and_gates`.
  unfoldable pub ese_visit_and : Gate → EseVisitor → Option EseVisitor
  unfolding read_operand write_result
  ese_visit_and and e = do
    (op1, e₁) ← read_operand and.op1 (record e { no_and_gates = e.no_and_gates + 1 })
    (op2, e₂) ← read_operand and.op2 e₁
    write_result and.dst (op1 && op2) e₂

  unfoldable pub ese_visit_xor : Gate → EseVisitor → Option EseVisitor
  unfolding read_operand write_result
  ese_visit_xor g e = do
    (op1, e₁) ← read_operand g.op1 (record e { no_and_gates = e.no_and_gates + 1 })
    (op2, e₂) ← read_operand g.op2 e₁
    write_result g.dst (xor op1 op2) e₂

  unfoldable pub ese_dispatch : GType → Gate → EseVisitor → Option EseVisitor
  ese_dispatch g_and g e = ese_visit_and g e
  ese_dispatch g_xor g e = ese_visit_xor g e
  ese_dispatch g_one g e = some e
  ese_dispatch g_zero g e = some e

  unfoldable pub ese_loop : List Gate → EseVisitor → Option EseVisitor
  ese_loop [] e = some e
  ese_loop (g ∷ gs) e = ese_dispatch g.type g e >>= ese_loop gs

  -- `ese_visit`: the string has a bit for each gate and each input address.
  unfoldable pub ese_visit : List Gate → EseVisitor → Option (EmiterResult × EseVisitor)
  unfolding ese_loop ese_dispatch ese_visit_and ese_visit_xor
  ese_visit circuit e = do
    let lbit_string = u32 (length circuit + size e.input_gates)
    let zeros = replicate (u32 (lbit_string + 7) / 8) 0
    e' ← ese_loop circuit (record e { no_and_gates = 0; bit_string = zeros })
    some
        (record { emitted_string = e'.bit_string; lemitted_string = u32 (lbit_string + 7) / 8 }, e')
