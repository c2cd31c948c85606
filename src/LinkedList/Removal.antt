-- ===== src/LinkedList/Removal.antt =====
-- A removal takes out the element of its index, and leaves the other nodes as they were.
use empirical_zero_knowledge.Prelude.{
  ℕ, zero, suc, ◌-◌, ◌<◌, ◌≤◌, ◌≡◌, inl, refl, sym, ap, ◌∙◌, true, false, Option, none, some, [],
  ◌∷◌, length, drop, get_or, leb, ◌==◌, if◌then◌else◌, arith,
}
use mathlib.Core.Path.{subst}
use native.Mathlib.Decide.{dec_lt}
use empirical_zero_knowledge.LinkedList.{Node, SingleLinkedList, update, walk, unlink, rem_element}
use empirical_zero_knowledge.LinkedList.Chain.{
  Cells, address, last_address, elements, Avoids, IsChain, IsChain-update, Avoids-last, cell_at,
}
use empirical_zero_knowledge.LinkedList.Walk.{before, walk_lem}
use empirical_zero_knowledge.LinkedList.Change.{
  remove_at, address-remove_at, unlinked, IsChain-remove_at,
}
use empirical_zero_knowledge.LinkedList.Refines.{Below, Represents, length-elements, get_or-past}

before-suc :
    (p : ℕ) (ns : Cells) (j : ℕ) → j < length ns → before p ns (suc j) ≡ address (drop j ns)
unfolding before
before-suc p [] j h = absurd (omega arith)
before-suc p ((a, x) ∷ ns) zero h = refl
before-suc p ((a, x) ∷ ns) (suc j) h = before-suc a ns j (omega arith)

Below-remove_at : (p i : ℕ) (ns : Cells) → Below p ns → Below p (remove_at i ns)
unfolding remove_at
Below-remove_at p i [] h = tt
Below-remove_at p zero ((a, x) ∷ ns) h = h.1
Below-remove_at p (suc i) ((a, x) ∷ ns) h = (h.0, Below-remove_at p i ns h.1)

length-remove_at : (i : ℕ) (ns : Cells) → i < length ns → length (remove_at i ns) ≡ length ns - 1
unfolding remove_at
length-remove_at i [] h = absurd (omega arith)
length-remove_at zero (n ∷ ns) h = omega arith
length-remove_at (suc i) (n ∷ ns) h = omega (arith, length-remove_at i ns)

remove_at-past : (i : ℕ) (ns : Cells) → length ns ≤ i → remove_at i ns ≡ ns
unfolding remove_at
remove_at-past i [] h = refl
remove_at-past zero (n ∷ ns) h = absurd (omega arith)
remove_at-past (suc i) (n ∷ ns) h = ap (λ r. n ∷ r) (remove_at-past i ns (omega arith))

-- The last node after a removal behind the first.
last-remove_at :
    (cell : ℕ → Option Node) (ns : Cells) (j : ℕ)
    → IsChain cell ns
    → suc j < length ns
    → (if address (drop (suc j) ns) == last_address ns
        then address (drop j ns)
        else last_address ns)
      ≡ last_address (remove_at (suc j) ns)
unfolding remove_at
last-remove_at cell [] j c h = absurd (omega arith)
last-remove_at cell ((b, z) ∷ []) j c h = absurd (omega arith)
last-remove_at cell ((b, z) ∷ (d, w) ∷ []) zero c h =
    let self : (d == d) ≡ true = ground arith in rw self refl
last-remove_at cell ((b, z) ∷ (d, w) ∷ n ∷ ns) zero c h =
    let other : (d == last_address (n ∷ ns)) ≡ false =
      ground (arith, Avoids-last d (n ∷ ns) (omega arith) c.3.2) in
    rw other refl
last-remove_at cell ((b, z) ∷ n ∷ ns) (suc j) c h = last-remove_at cell (n ∷ ns) j c.3 (omega arith)

-- The fields after a removal.
abbrev removed : SingleLinkedList → (ℕ → Option Node) → ℕ → ℕ → SingleLinkedList
removed s cell first last = record s {
  cell = cell;
  first = first;
  last_elm = last;
  size = s.size - 1;
  last = 0;
  lasti = 0;
}

module _ (s : SingleLinkedList) (ns : Cells) (r : Represents s ns) where
  removed-Represents :
      (i : ℕ) (cell : ℕ → Option Node) (first last : ℕ)
      → i < length ns
      → IsChain cell (remove_at i ns)
      → first ≡ address (remove_at i ns)
      → last ≡ last_address (remove_at i ns)
      → Represents (removed s cell first last) (remove_at i ns)
  removed-Represents i cell first last inside chain first_is last_is = record {
    chain = chain;
    first_is = first_is;
    last_is = last_is;
    count = omega (arith, r.count, length-remove_at i ns);
    below = Below-remove_at s.fresh i ns r.below;
    fresh_pos = r.fresh_pos;
    cursor = inl refl;
  }

  -- The chain behind the second node of the walk is put behind the first.
  rem_inner :
      (j : ℕ)
      → suc j < length ns
      → (s' : SingleLinkedList) × (rem_element (suc j) s
          ≡ some (get_or (elements ns) (suc j) 0, s'))
        × Represents s' (remove_at (suc j) ns)
  unfolding rem_element unlink
  rem_inner j inside =
      let test : leb s.size (suc j) ≡ false = ground (arith, r.count) in
      let p = address (drop j ns) in
      let d = address (drop (suc j) ns) in
      let (p_pos, p_node) = cell_at s.cell ns j r.chain (omega arith) in
      let (d_pos, d_node) = cell_at s.cell ns (suc j) r.chain inside in
      let inner : (p == 0) ≡ false = ground (arith, p_pos) in
      let found : walk s.cell 0 s.first (suc j) ≡ some (p, d) =
        ap (λ f. walk s.cell 0 f (suc j)) r.first_is
        ∙ walk_lem s.cell 0 ns (suc j) r.chain inside
        ∙ ap (λ b. some (b, d)) (before-suc 0 ns j (omega arith)) in
      let last = if d == s.last_elm then p else s.last_elm in
      (
        removed s (unlinked s.cell ns j) s.first last,
        rw test (rw found (rw (d_node, inner) (rw p_node refl))),
        removed-Represents (suc j) (unlinked s.cell ns j) s.first last inside
            (IsChain-remove_at s.cell ns j inside r.chain)
            (r.first_is ∙ sym (address-remove_at j ns (omega arith)))
            (ap (λ l. if d == l then p else l) r.last_is
              ∙ last-remove_at s.cell ns j r.chain inside),
      )

last_first :
    (a x : ℕ) (ns : Cells)
    → Avoids a ns
    → (if a == last_address ((a, x) ∷ ns) then 0 else last_address ((a, x) ∷ ns)) ≡ last_address ns
last_first a x [] off = let self : (a == a) ≡ true = ground arith in rw self refl
last_first a x (n ∷ ns) off =
    let other : (a == last_address (n ∷ ns)) ≡ false =
      ground (arith, Avoids-last a (n ∷ ns) (omega arith) off) in
    rw other refl

rem_past :
    (s : SingleLinkedList) (i : ℕ) (ns : Cells)
    → Represents s ns
    → length ns ≤ i
    → (s' : SingleLinkedList) × (rem_element i s ≡ some (get_or (elements ns) i 0, s'))
      × Represents s' (remove_at i ns)
unfolding rem_element
rem_past s i ns r past =
    let test : leb s.size i ≡ true = ground (arith, r.count) in
    (
      s,
      rw (test, get_or-past (elements ns) i (omega (arith, length-elements ns))) refl,
      subst (Represents s) (sym (remove_at-past i ns past)) r,
    )

-- The first node leaves the chain.
rem_first :
    (s : SingleLinkedList) (a x : ℕ) (ns : Cells)
    → Represents s ((a, x) ∷ ns)
    → (s' : SingleLinkedList) × (rem_element 0 s ≡ some (x, s')) × Represents s' ns
unfolding rem_element unlink remove_at before
rem_first s a x ns r =
    let test : leb s.size 0 ≡ false = ground (arith, r.count) in
    let found : walk s.cell 0 s.first 0 ≡ some (0, a) =
      ap (λ f. walk s.cell 0 f 0) r.first_is
      ∙ walk_lem s.cell 0 ((a, x) ∷ ns) 0 r.chain (omega arith) in
    let last = if a == s.last_elm then 0 else s.last_elm in
    (
      removed s (update s.cell a none) (address ns) last,
      rw test (rw found (rw r.chain.1 refl)),
      removed-Represents s ((a, x) ∷ ns) r 0 (update s.cell a none) (address ns) last (omega arith)
          (IsChain-update s.cell a none ns r.chain.2 r.chain.3) refl
          (ap (λ l. if a == l then 0 else l) r.last_is ∙ last_first a x ns r.chain.2),
    )

-- An index behind the list removes nothing and returns the null pointer.
pub rem_element-Represents :
    (i : ℕ) (s : SingleLinkedList) (ns : Cells)
    → Represents s ns
    → (s' : SingleLinkedList) × (rem_element i s ≡ some (get_or (elements ns) i 0, s'))
      × Represents s' (remove_at i ns)
rem_element-Represents i s [] r = rem_past s i [] r (omega arith)
rem_element-Represents zero s ((a, x) ∷ ns) r = unfold remove_at in (rem_first s a x ns r)
rem_element-Represents (suc j) s ((a, x) ∷ ns) r = elim (dec_lt (suc j) (length ((a, x) ∷ ns))) [
  | yes inside ↦ rem_inner s ((a, x) ∷ ns) r j inside
  | no past ↦ rem_past s (suc j) ((a, x) ∷ ns) r (omega arith)
]
