-- ===== src/Emitter/Step.antt =====
-- One gate of the emitter: what it writes, and which bits and input addresses it leaves alone.
use empirical_zero_knowledge.Prelude.{
  ℕ, ◌+◌, ◌*◌, ◌<◌, ◌≤◌, ◌≡◌, ◌≢◌, refl, ◌∙◌, Bool, true, false, not, ◌&&◌, Option, some, ◌>>=◌,
  ◌==◌, ==_iff, ==_refl, if◌then◌else◌, length, IsBytes, arith, Bool-cases, inl, inr,
}
use empirical_zero_knowledge.BitString.Laws.{bit_at, get_bit-eq-bit_at, set_bit-IsWritten}
use empirical_zero_knowledge.Circuit.{Gate}
use empirical_zero_knowledge.Circuit.AddressMap.{AddressMap}
use empirical_zero_knowledge.Emitter.{EseVisitor, read_operand, write_result}

module _ (A : AddressMap) (width : ℕ) where
  open A use {
    Map, contains, rem, size, IsMap, IsUnique, rem-IsMap, rem-IsUnique, contains-rem, size-rem,
  }

  -- The string has `width` bytes, and the witness has a bit for every input address left.
  pub record IsReady (e : EseVisitor A) : Type 0 where
    pub bytes : IsBytes e.bit_string
    pub wide : length e.bit_string ≡ width
    pub map : IsMap e.input_gates
    pub unique : IsUnique e.input_gates
    pub supply : e.next_input + size e.input_gates ≤ 8 * length e.input

  -- `e'` has read the operand at `a`, with result `bit`.
  pub record HasRead (a : ℕ) (bit : Bool) (e e' : EseVisitor A) : Type 0 where
    pub ready : IsReady e'
    pub value : bit_at e'.bit_string a ≡ bit
    pub keeps :
        (j : ℕ)
        → (a == j && contains e.input_gates a) ≡ false
        → bit_at e'.bit_string j ≡ bit_at e.bit_string j
    pub keys : (j : ℕ) → contains e'.input_gates j ≡ (contains e.input_gates j && not (a == j))

  read_input :
      (a : ℕ) (e : EseVisitor A)
      → IsReady e
      → a < 8 * width
      → contains e.input_gates a ≡ true
      → (bit : Bool) × (e' : EseVisitor A) × (read_operand A a e ≡ some (bit, e'))
        × HasRead a bit e e'
  unfolding read_operand
  read_input a e r range there =
      let took : size (rem e.input_gates a) + 1 ≡ size e.input_gates =
        rw there at (size-rem e.input_gates a r.map) in
      let bit = bit_at e.input e.next_input in
      let got = get_bit-eq-bit_at e.input e.next_input (omega (arith, r.supply)) in
      let (string, wrote, w) = set_bit-IsWritten e.bit_string a bit r.bytes (rw r.wide range) in
      (
        bit,
        record e {
          next_input = e.next_input + 1;
          bit_string = string;
          input_gates = rem e.input_gates a;
        },
        rw (there, got, wrote),
        record {
          ready = record {
            bytes = w.bytes;
            wide = w.same_length ∙ r.wide;
            map = rem-IsMap e.input_gates a r.map;
            unique = rem-IsUnique e.input_gates a r.map r.unique;
            supply = omega (arith, r.supply);
          };
          value = w.reads a ∙ ground arith;
          keeps = λ j h. w.reads j ∙ ground (arith, ==_iff a j);
          keys = λ j. contains-rem e.input_gates a j r.map r.unique;
        },
      )

  pub read_operand_lem :
      (a : ℕ) (e : EseVisitor A)
      → IsReady e
      → a < 8 * width
      → (bit : Bool) × (e' : EseVisitor A) × (read_operand A a e ≡ some (bit, e'))
        × HasRead a bit e e'
  read_operand_lem a e r range = elim (Bool-cases (contains e.input_gates a)) [
    | inl there ↦ read_input a e r range there
    | inr absent ↦ (
      bit_at e.bit_string a,
      e,
      unfold read_operand in rw (absent, get_bit-eq-bit_at e.bit_string a (rw r.wide range)),
      record {
        ready = r;
        value = refl;
        keeps = λ j h. refl;
        keys = λ j. ground (arith, ==_iff a j);
      },
    )
  ]

  -- `e'` has written the result of a gate that combines its operands by `f`.
  pub record HasVisited (f : Bool → Bool → Bool) (g : Gate) (e e' : EseVisitor A) : Type 0 where
    pub ready : IsReady e'
    pub value :
        bit_at e'.bit_string g.dst ≡ f (bit_at e'.bit_string g.op1) (bit_at e'.bit_string g.op2)
    pub keeps :
        (j : ℕ)
        → (g.dst == j) ≡ false
        → contains e.input_gates j ≡ false
        → bit_at e'.bit_string j ≡ bit_at e.bit_string j
    pub keys :
        (j : ℕ)
        → contains e'.input_gates j
          ≡ (contains e.input_gates j && not (g.op1 == j) && not (g.op2 == j) && not (g.dst == j))

  abbrev pub combine : (Bool → Bool → Bool) → Gate → EseVisitor A → Option (EseVisitor A)
  combine f g e = do
    (op1, e₁) ← read_operand A g.op1 (record e { no_and_gates = e.no_and_gates + 1 })
    (op2, e₂) ← read_operand A g.op2 e₁
    write_result A g.dst (f op1 op2) e₂

  abbrev pub IsInRange : Gate → Type 0
  IsInRange g = (g.op1 < 8 * width) × (g.op2 < 8 * width) × (g.dst < 8 * width)

  write_result_lem :
      (a : ℕ) (bit : Bool) (e : EseVisitor A)
      → IsReady e
      → a < 8 * width
      → (e' : EseVisitor A) × (write_result A a bit e ≡ some e')
        × IsReady e'
        × ((j : ℕ) → bit_at e'.bit_string j ≡ (if j == a then bit else bit_at e.bit_string j))
        × ((j : ℕ) → contains e'.input_gates j ≡ (contains e.input_gates j && not (a == j)))
  unfolding write_result
  write_result_lem a bit e r range =
      let (string, wrote, w) = set_bit-IsWritten e.bit_string a bit r.bytes (rw r.wide range) in
      (
        record e { bit_string = string; input_gates = rem e.input_gates a },
        rw wrote,
        record {
          bytes = w.bytes;
          wide = w.same_length ∙ r.wide;
          map = rem-IsMap e.input_gates a r.map;
          unique = rem-IsUnique e.input_gates a r.map r.unique;
          supply = omega (arith, r.supply, size-rem e.input_gates a r.map);
        },
        w.reads,
        λ j. contains-rem e.input_gates a j r.map r.unique,
      )

  visited_of_parts :
      (f : Bool → Bool → Bool) (g : Gate) (b1 b2 : Bool) (e e₁ e₂ e₃ : EseVisitor A)
      → g.dst ≢ g.op1
      → g.dst ≢ g.op2
      → HasRead g.op1 b1 e e₁
      → HasRead g.op2 b2 e₁ e₂
      → IsReady e₃
      → ((j : ℕ)
          → bit_at e₃.bit_string j ≡ (if j == g.dst then f b1 b2 else bit_at e₂.bit_string j))
      → ((j : ℕ) → contains e₃.input_gates j ≡ (contains e₂.input_gates j && not (g.dst == j)))
      → HasVisited f g e e₃
  visited_of_parts f g b1 b2 e e₁ e₂ e₃ ne1 ne2 h₁ h₂ r₃ reads keys =
      let first : bit_at e₂.bit_string g.op1 ≡ b1 =
        h₂.keeps g.op1 (ground (arith, ==_iff g.op2 g.op1, h₁.keys g.op2, ==_refl g.op1))
        ∙ h₁.value in
      let d0 : (g.dst == g.dst) ≡ true = ==_refl g.dst in
      let d1 : (g.op1 == g.dst) ≡ false = ground arith in
      let d2 : (g.op2 == g.dst) ≡ false = ground arith in
      record {
        ready = r₃;
        value = rw (reads g.dst, reads g.op1, reads g.op2, d0, d1, d2, first, h₂.value);
        keeps = λ j nd absent.
            let n : (j == g.dst) ≡ false = ground arith in
            let k₁ : bit_at e₁.bit_string j ≡ bit_at e.bit_string j =
              h₁.keeps j (ground (arith, ==_iff g.op1 j)) in
            let k₂ : bit_at e₂.bit_string j ≡ bit_at e₁.bit_string j =
              h₂.keeps j (ground (arith, ==_iff g.op2 j, h₁.keys g.op2)) in
            rw (reads j, n, k₂, k₁);
        keys = λ j. keys j ∙ rw (h₂.keys j, h₁.keys j);
      }

  pub combine_lem :
      (f : Bool → Bool → Bool) (g : Gate) (e : EseVisitor A)
      → IsReady e
      → IsInRange g
      → g.dst ≢ g.op1
      → g.dst ≢ g.op2
      → (e' : EseVisitor A) × (combine f g e ≡ some e') × HasVisited f g e e'
  combine_lem f g e r range ne1 ne2 =
      let start : EseVisitor A = record e { no_and_gates = e.no_and_gates + 1 } in
      let ready : IsReady start = record {
        bytes = r.bytes;
        wide = r.wide;
        map = r.map;
        unique = r.unique;
        supply = r.supply;
      } in
      let (b1, e₁, run₁, h₁) = read_operand_lem g.op1 start ready range.0 in
      let (b2, e₂, run₂, h₂) = read_operand_lem g.op2 e₁ h₁.ready range.1 in
      let (e₃, run₃, r₃, reads, keys) = write_result_lem g.dst (f b1 b2) e₂ h₂.ready range.2 in
      let v = visited_of_parts f g b1 b2 start e₁ e₂ e₃ ne1 ne2 h₁ h₂ r₃ reads keys in
      (
        e₃,
        rw (run₁, run₂, run₃),
        record { ready = v.ready; value = v.value; keeps = v.keeps; keys = v.keys },
      )
