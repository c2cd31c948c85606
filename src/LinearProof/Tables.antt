-- ===== src/LinearProof/Tables.antt =====
-- The tables `perms` and `majs`, and the reordering of three places that both lookups end with.
use empirical_zero_knowledge.Prelude.{ℕ, zero, suc, ◌<◌, List, [], ◌∷◌, get_or, set, arith}

abbrev triple : ℕ → ℕ → ℕ → List ℕ
triple a b c = a ∷ b ∷ c ∷ []

abbrev pub majs : List (List ℕ)
majs = triple 0 1 2 ∷ triple 0 2 1 ∷ triple 2 1 0 ∷ []

abbrev pub perms : List (List ℕ)
perms = triple 0 1 2 ∷ triple 0 2 1 ∷ triple 1 0 2 ∷ triple 1 2 0 ∷ triple 2 0 1 ∷ triple 2 1 0 ∷ []

-- `perms[r][k]` and `majs[r][k]`.
abbrev pub entry : List (List ℕ) → ℕ → ℕ → ℕ
entry table r k = get_or (get_or table r []) k 0

-- `res[table[r][k]] = indx[k]` for k = 0, 1, 2, from a zeroed `res`.
unfoldable pub reorder : List (List ℕ) → ℕ → List ℕ → List ℕ
reorder table r indx =
    let res₀ = set (triple 0 0 0) (entry table r 0) (get_or indx 0 0) in
    let res₁ = set res₀ (entry table r 1) (get_or indx 1 0) in
    set res₁ (entry table r 2) (get_or indx 2 0)

abbrev pub identity : List ℕ
identity = triple 0 1 2

-- A statement about the six permutations is checked one by one.
pub below_six {ℓ} : (P : ℕ → Type ℓ) (r : ℕ) → r < 6 → P 0 → P 1 → P 2 → P 3 → P 4 → P 5 → P r
below_six P zero h p0 p1 p2 p3 p4 p5 = p0
below_six P (suc zero) h p0 p1 p2 p3 p4 p5 = p1
below_six P (suc (suc zero)) h p0 p1 p2 p3 p4 p5 = p2
below_six P (suc (suc (suc zero))) h p0 p1 p2 p3 p4 p5 = p3
below_six P (suc (suc (suc (suc zero)))) h p0 p1 p2 p3 p4 p5 = p4
below_six P (suc (suc (suc (suc (suc zero))))) h p0 p1 p2 p3 p4 p5 = p5
below_six P (suc (suc (suc (suc (suc (suc r)))))) h p0 p1 p2 p3 p4 p5 = absurd (omega arith)
