-- ===== src/Tests/Circuits.antt =====
-- The visitors on a small circuit, over the hash map.
use empirical_zero_knowledge.Prelude.{
  ℕ, ◌≡◌, Bool, true, some, List, [], ◌∷◌, length, IsBytes, arith,
}
use empirical_zero_knowledge.BitString.Laws.{bit_at}
use empirical_zero_knowledge.Circuit.{Gate, g_and, g_xor, Satisfies}
use empirical_zero_knowledge.Circuit.AddressMap.{AddressMap, elem}
use empirical_zero_knowledge.Circuit.Hashed.{hash_map, GateMap}
use empirical_zero_knowledge.Circuit.PatchOne.{minus_one}
use empirical_zero_knowledge.Circuit.InputGates.{igv_visit, first_read, igv_visit-first_read}
use empirical_zero_knowledge.Circuit.OutputGates.{ogv_visit, write_unread, ogv_visit-write_unread}
use empirical_zero_knowledge.Emitter.{EmiterResult, EseVisitor, ese_visit}
use empirical_zero_knowledge.Emitter.Satisfies.{ese_visit-Satisfies}

abbrev first : Gate
first = record { type = g_xor; dst = 1; op1 = 0; op2 = 0 }

abbrev second : Gate
second = record { type = g_and; dst = 2; op1 = 1; op2 = 0 }

abbrev circuit : List Gate
circuit = first ∷ second ∷ []

-- INV(1,0), as the parser writes it.
abbrev inverted : List Gate
inverted = record { type = g_xor; dst = 1; op1 = minus_one; op2 = 0 } ∷ []

abbrev all_true : ℕ → Bool
all_true i = true

igv_visit-first_read_example :
    (r : GateMap) × (igv_visit hash_map circuit ≡ some r)
    × AddressMap.IsMap hash_map r
    × AddressMap.IsUnique hash_map r
    × ((a : ℕ) → AddressMap.contains hash_map r a ≡ first_read a circuit)
igv_visit-first_read_example = igv_visit-first_read hash_map circuit

ogv_visit-write_unread_example :
    (r : List ℕ) × (ogv_visit hash_map circuit ≡ some r)
    × ((a : ℕ) → elem a r ≡ write_unread a circuit)
ogv_visit-write_unread_example = ogv_visit-write_unread hash_map circuit

-- The map that holds the one input address of the circuit.
abbrev no_gates : GateMap
no_gates = (AddressMap.new_fresh hash_map 64 (omega arith)).0

no_gates-IsMap : AddressMap.IsMap hash_map no_gates
no_gates-IsMap = (AddressMap.new_fresh hash_map 64 (omega arith)).2

abbrev inputs : GateMap
inputs = AddressMap.put hash_map no_gates 0 first

inputs-IsUnique : AddressMap.IsUnique hash_map inputs
inputs-IsUnique =
    let fresh = AddressMap.new_fresh hash_map 64 (omega arith) in
    AddressMap.put-IsUnique hash_map no_gates 0 first no_gates-IsMap fresh.3 (fresh.5 0)

size-inputs : AddressMap.size hash_map inputs ≡ 1
size-inputs =
    let fresh = AddressMap.new_fresh hash_map 64 (omega arith) in
    omega (arith, AddressMap.size-put hash_map no_gates 0 first no_gates-IsMap, fresh.4)

abbrev start : EseVisitor hash_map
start = record {
  bit_string = [];
  input = 1 ∷ [];
  input_gates = inputs;
  no_and_gates = 0;
  next_input = 0;
}

ese_visit-Satisfies_example :
    (er : EmiterResult) × (e' : EseVisitor hash_map) × (ese_visit hash_map circuit start
      ≡ some (er, e'))
    × (length er.emitted_string ≡ er.lemitted_string)
    × IsBytes er.emitted_string
    × Satisfies (bit_at er.emitted_string) circuit
ese_visit-Satisfies_example =
    ese_visit-Satisfies hash_map circuit start
      (AddressMap.put-IsMap hash_map no_gates 0 first no_gates-IsMap) inputs-IsUnique
      (omega (arith, size-inputs)) (rw size-inputs (omega arith)) (omega arith)
