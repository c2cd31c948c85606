-- ===== src/LinkedList/Walk.antt =====
-- The walk from the first node on finds the node of an index and the one before it.
use empirical_zero_knowledge.Prelude.{
  ℕ, zero, suc, ◌<◌, ◌≡◌, refl, ◌∙◌, Option, some, [], ◌∷◌, length, drop, arith,
}
use empirical_zero_knowledge.LinkedList.{Node, walk}
use empirical_zero_knowledge.LinkedList.Chain.{Cells, address, IsChain}

-- The address of the node before an index, or `prv` before the first.
unfoldable pub before : ℕ → Cells → ℕ → ℕ
before prv ns zero = prv
before prv [] (suc i) = prv
before prv ((a, x) ∷ ns) (suc i) = before a ns i

walk_step :
    (cell : ℕ → Option Node) (prv cur i : ℕ) (node : Node)
    → cell cur ≡ some node
    → 0 < node.next
    → walk cell prv cur (suc i) ≡ walk cell cur node.next i
unfolding walk
walk_step cell prv cur i node at more = rw at (ground arith)

pub walk_lem :
    (cell : ℕ → Option Node) (prv : ℕ) (ns : Cells) (i : ℕ)
    → IsChain cell ns
    → i < length ns
    → walk cell prv (address ns) i ≡ some (before prv ns i, address (drop i ns))
unfolding walk before
walk_lem cell prv [] i c h = absurd (omega arith)
walk_lem cell prv ((a, x) ∷ ns) zero c h = rw c.1 refl
walk_lem cell prv ((a, x) ∷ []) (suc i) c h = absurd (omega arith)
walk_lem cell prv ((a, x) ∷ (b, y) ∷ ns) (suc i) c h =
    walk_step cell prv a i _ c.1 c.3.0 ∙ walk_lem cell a ((b, y) ∷ ns) i c.3 (omega arith)
