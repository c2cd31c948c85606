-- ===== src/LinkedList/Chain.antt =====
-- The nodes of a list in the store: their addresses and elements, in order.
use empirical_zero_knowledge.Prelude.{
  ℕ, zero, suc, ◌<◌, ◌≡◌, ◌≢◌, Option, some, List, [], ◌∷◌, length, drop, false, get_or, ◌==◌,
  arith,
}
use empirical_zero_knowledge.LinkedList.{Node, update}

-- An address and the element there.
abbrev pub Cells : Type 0
Cells = List (ℕ × ℕ)

abbrev pub address : Cells → ℕ
address [] = 0
address ((a, x) ∷ ns) = a

abbrev pub last_address : Cells → ℕ
last_address [] = 0
last_address ((a, x) ∷ []) = a
last_address ((a, x) ∷ n ∷ ns) = last_address (n ∷ ns)

abbrev pub elements : Cells → List ℕ
elements [] = []
elements ((a, x) ∷ ns) = x ∷ elements ns

-- The address is that of no node.
abbrev pub Avoids : ℕ → Cells → Type 0
Avoids p [] = Unit
Avoids p ((a, x) ∷ ns) = (p ≢ a) × Avoids p ns

-- Each node points to the next, the last one nowhere, and no address comes twice.
abbrev pub IsChain : (ℕ → Option Node) → Cells → Type 0
IsChain cell [] = Unit
IsChain cell ((a, x) ∷ ns) =
    (0 < a)
    × (cell a ≡ some (record { element = x; next = address ns }))
    × Avoids a ns
    × IsChain cell ns

-- A change at an address of no node.
pub IsChain-update :
    (cell : ℕ → Option Node) (p : ℕ) (v : Option Node) (ns : Cells)
    → Avoids p ns
    → IsChain cell ns
    → IsChain (update cell p v) ns
unfolding update
IsChain-update cell p v [] off c = tt
IsChain-update cell p v ((a, x) ∷ ns) off c =
    let other : (p == a) ≡ false = ground (arith, off.0) in
    (c.0, rw other c.1, c.2, IsChain-update cell p v ns off.1 c.3)

pub Avoids-drop :
    (p : ℕ) (ns : Cells) (i : ℕ) → i < length ns → Avoids p ns → p ≢ address (drop i ns)
Avoids-drop p [] i h off = absurd (omega arith)
Avoids-drop p ((a, x) ∷ ns) zero h off = off.0
Avoids-drop p ((a, x) ∷ ns) (suc i) h off = Avoids-drop p ns i (omega arith) off.1

pub Avoids-last : (p : ℕ) (ns : Cells) → 0 < length ns → Avoids p ns → p ≢ last_address ns
Avoids-last p [] h off = absurd (omega arith)
Avoids-last p ((a, x) ∷ []) h off = off.0
Avoids-last p ((a, x) ∷ n ∷ ns) h off = Avoids-last p (n ∷ ns) (omega arith) off.1

-- The node of an index.
pub cell_at :
    (cell : ℕ → Option Node) (ns : Cells) (i : ℕ)
    → IsChain cell ns
    → i < length ns
    → (0 < address (drop i ns))
      × (cell (address (drop i ns))
          ≡ some (record { element = get_or (elements ns) i 0; next = address (drop (suc i) ns) }))
cell_at cell [] i c h = absurd (omega arith)
cell_at cell ((a, x) ∷ ns) zero c h = (c.0, c.1)
cell_at cell ((a, x) ∷ ns) (suc i) c h = cell_at cell ns i c.3 (omega arith)

-- The last node.
pub cell_last :
    (cell : ℕ → Option Node) (ns : Cells)
    → IsChain cell ns
    → 0 < length ns
    → (x : ℕ) × (cell (last_address ns) ≡ some (record { element = x; next = 0 }))
cell_last cell [] c h = absurd (omega arith)
cell_last cell ((a, x) ∷ []) c h = (x, c.1)
cell_last cell ((a, x) ∷ n ∷ ns) c h = cell_last cell (n ∷ ns) c.3 (omega arith)
