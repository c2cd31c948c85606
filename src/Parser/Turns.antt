-- ===== src/Parser/Turns.antt =====
-- The loop of the parser of `empiricalZK/rtz14/src/circuitparser.c` ends.
use empirical_zero_knowledge.Prelude.{◌≤◌, ◌≡◌, Option, some, List, length}
use empirical_zero_knowledge.Circuit.{Gate}
use empirical_zero_knowledge.Parser.{Parsed}
use empirical_zero_knowledge.Parser.Termination.{turns}
use empirical_zero_knowledge.Parser.Tokenizer.{Fct}

-- What the parser of a gate leaves.
record Stays (impl : Fct) (r : Option Gate × Fct) : Type 0 where
  same : length r.1.data_ ≡ length impl.data_
  no_more : turns r.1 ≤ turns impl

-- The loop has ended, with a result or with a read outside the source.
abbrev pub Ends : Parsed → Type 0
Ends parsed = (r : Option (List Gate)) × (parsed ≡ some r)
