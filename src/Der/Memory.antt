-- ===== src/Der/Memory.antt =====
-- Reads and writes of a buffer, which fault outside of it, and what lies from a position on.
use empirical_zero_knowledge.Prelude.{
  ℕ, zero, suc, ◌+◌, ◌≡◌, refl, sym, ap, ◌∙◌, none, some, List, [], ◌∷◌, ◌++◌, length, get_elem?,
  take, drop, drop-drop, drop-all, drop-append_below, leb, if◌then◌else◌, arith,
}
use empirical_zero_knowledge.Der.Outcome.{Outcome, done, fault}

unfoldable pub load : List ℕ → ℕ → Outcome ℕ
load buf i = elim (get_elem? buf i) [ some b ↦ done b | none ↦ fault ]

-- `buf[i] = bytes[0]` and on, or `mcpy(buf + i, bytes, length bytes)`.
unfoldable pub store : List ℕ → ℕ → List ℕ → Outcome (List ℕ)
store buf i bytes =
    if leb (i + length bytes) (length buf)
    then done (take i buf ++ (bytes ++ drop (i + length bytes) buf))
    else fault

get_elem?-drop :
    (i : ℕ) (buf : List ℕ) {b : ℕ} {rest : List ℕ}
    → drop i buf ≡ b ∷ rest
    → get_elem? buf i ≡ some b
get_elem?-drop zero buf h = rw h refl
get_elem?-drop (suc i) [] h = cc
get_elem?-drop (suc i) (x ∷ buf) h = get_elem?-drop i buf h

-- A read finds the first of the bytes that lie from its position on.
pub load_lem :
    (i : ℕ) (buf : List ℕ) {b : ℕ} {rest : List ℕ} → drop i buf ≡ b ∷ rest → load buf i ≡ done b
unfolding load
load_lem i buf h = rw (get_elem?-drop i buf h, load) refl

-- What lies after a prefix of the bytes from a position on.
pub drop-prefix :
    (i : ℕ) (buf front rest : List ℕ)
    → drop i buf ≡ front ++ rest
    → drop (i + length front) buf ≡ rest
drop-prefix i buf front rest h =
    sym (drop-drop (length front) i buf)
    ∙ ap (drop (length front)) h
    ∙ drop-append_below (length front) front rest (omega arith)
    ∙ ap (λ r. r ++ rest) (drop-all (length front) front refl)
