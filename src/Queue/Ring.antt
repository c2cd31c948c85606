-- ===== src/Queue/Ring.antt =====
-- The cells of a ring that are in use, from a position on. Positions run on behind the end of the
-- array, up to twice its length, and `wrap` brings them back.
use empirical_zero_knowledge.Prelude.{
  ℕ, zero, suc, ◌+◌, ◌-◌, ◌%◌, ◌<◌, ◌≤◌, ◌≡◌, refl, sym, ap, ap₂, ◌∙◌, List, [], ◌∷◌, ◌++◌, length,
  get_or, set, ltb, if◌then◌else◌, get_or-set, true, false, arith,
}
use native.Mathlib.Decide.{dec_lt}
use native.Mathlib.Nat.{mod-eq_of_lt, mod-eq-sub-mod}

unfoldable pub wrap : ℕ → ℕ → ℕ
wrap n p = if ltb p n then p else p - n

unfoldable pub window : ℕ → List ℕ → ℕ → ℕ → List ℕ
window n cells p zero = []
window n cells p (suc k) = get_or cells (wrap n p) 0 ∷ window n cells (p + 1) k

pub mod-eq-wrap : (n p : ℕ) → p < n + n → p % n ≡ wrap n p
unfolding wrap
mod-eq-wrap n p h = elim (dec_lt p n) [
  | yes below ↦ let test : ltb p n ≡ true = ground arith in rw test (mod-eq_of_lt below)
  | no above ↦
      let test : ltb p n ≡ false = ground arith in
      rw test (mod-eq-sub-mod (omega arith) ∙ mod-eq_of_lt (omega arith))
]

pub length-window : (n : ℕ) (cells : List ℕ) (p k : ℕ) → length (window n cells p k) ≡ k
unfolding window
length-window n cells p zero = refl
length-window n cells p (suc k) = ap suc (length-window n cells (p + 1) k)

other_cell :
    (n : ℕ) (cells : List ℕ) (p q v : ℕ)
    → length cells ≡ n
    → p < q
    → q < p + n
    → q < n + n
    → get_or (set cells (wrap n q) v) (wrap n p) 0 ≡ get_or cells (wrap n p) 0
unfolding wrap
other_cell n cells p q v size above below small =
    let inside : wrap n q < length cells = ground arith in
    ground (arith, get_or-set cells (wrap n q) (wrap n p) v 0)

-- A write to a cell that is not in use leaves those in use as they are.
pub window-set :
    (n : ℕ) (cells : List ℕ) (p k q v : ℕ)
    → length cells ≡ n
    → p + k ≤ q
    → q < p + n
    → q < n + n
    → window n (set cells (wrap n q) v) p k ≡ window n cells p k
unfolding window
window-set n cells p zero q v size above below small = refl
window-set n cells p (suc k) q v size above below small =
    ap₂ (λ x xs. x ∷ xs) (other_cell n cells p q v size (omega arith) below small)
      (window-set n cells (p + 1) k q v size (omega arith) (omega arith) small)

-- A cell more at the end.
pub window-suc :
    (n : ℕ) (cells : List ℕ) (p k : ℕ)
    → window n cells p (suc k) ≡ window n cells p k ++ get_or cells (wrap n (p + k)) 0 ∷ []
unfolding window
window-suc n cells p zero = ap (λ q. get_or cells (wrap n q) 0 ∷ []) (omega arith)
window-suc n cells p (suc k) =
    ap (λ r. get_or cells (wrap n p) 0 ∷ r)
      (window-suc n cells (p + 1) k
        ∙ ap (λ q. window n cells (p + 1) k ++ get_or cells (wrap n q) 0 ∷ []) (omega arith))

-- A round further on there are the same cells.
pub window-round :
    (n : ℕ) (cells : List ℕ) (p k : ℕ) → p + k ≤ n → window n cells (p + n) k ≡ window n cells p k
unfolding window
window-round n cells p zero h = refl
window-round n cells p (suc k) h =
    ap₂ (λ q xs. get_or cells q 0 ∷ xs) (unfold wrap in (ground arith))
      (ap (λ q. window n cells q k) (omega arith) ∙ window-round n cells (p + 1) k (omega arith))

pub wrap-lt : (n p : ℕ) → p < n + n → wrap n p < n
unfolding wrap
wrap-lt n p h = ground arith

-- The place behind the cells in use.
pub ring_next : (n p k : ℕ) → p < n → k < n → (wrap n (p + k) + 1) % n ≡ wrap n (p + suc k)
ring_next n p k place count =
    mod-eq-wrap n (wrap n (p + k) + 1) (omega (arith, wrap-lt n (p + k)))
    ∙ unfold wrap in (ground arith)

-- The same place, counted from the second cell in use.
pub ring_second : (n p k : ℕ) → p < n → k < n → wrap n (p + suc k) ≡ wrap n (wrap n (p + 1) + k)
unfolding wrap
ring_second n p k place count = ground arith

-- The cells in use after a push.
pub window_push :
    (n : ℕ) (cells : List ℕ) (p k x : ℕ)
    → length cells ≡ n
    → p < n
    → k < n
    → window n (set cells (wrap n (p + k)) x) p (suc k) ≡ window n cells p k ++ x ∷ []
window_push n cells p k x size place count =
    let j = wrap n (p + k) in
    let inside : j < length cells = omega (arith, wrap-lt n (p + k)) in
    let stored : get_or (set cells j x) j 0 ≡ x = ground (arith, get_or-set cells j j x 0) in
    window-suc n (set cells j x) p k
    ∙ ap₂ (λ xs y. xs ++ y ∷ [])
        (window-set n cells p k (p + k) x size (omega arith) (omega arith) (omega arith)) stored

pub window-wrap :
    (n : ℕ) (cells : List ℕ) (p k : ℕ)
    → p < n
    → k ≤ n
    → window n cells (wrap n (p + 1)) k ≡ window n cells (p + 1) k
window-wrap n cells p k place count = elim (dec_lt (p + 1) n) [
  | yes below ↦ ap (λ q. window n cells q k) (unfold wrap in (ground arith))
  | no end ↦
      let first : wrap n (p + 1) ≡ 0 = unfold wrap in (ground arith) in
      let round : 0 + n ≡ p + 1 = omega arith in
      ap (λ q. window n cells q k) first
      ∙ sym (window-round n cells 0 k (omega arith))
      ∙ ap (λ q. window n cells q k) round
]

-- The cells in use after a take.
pub window_take :
    (n : ℕ) (cells : List ℕ) (p k : ℕ)
    → length cells ≡ n
    → p < n
    → k < n
    → window n cells p (suc k) ≡ get_or cells p 0 ∷ window n (set cells p 0) (wrap n (p + 1)) k
window_take n cells p k size place count =
    let here : wrap n p ≡ p = unfold wrap in (ground arith) in
    let there : wrap n (p + n) ≡ p = unfold wrap in (ground arith) in
    unfold window in
    (ap₂ (λ i xs. get_or cells i 0 ∷ xs) here
      (sym (window-set n cells (p + 1) k (p + n) 0 size (omega arith) (omega arith) (omega arith))
        ∙ ap (λ i. window n (set cells i 0) (p + 1) k) there
        ∙ sym (window-wrap n (set cells p 0) p k place (omega arith))))
