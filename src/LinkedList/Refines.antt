-- ===== src/LinkedList/Refines.antt =====
-- The list behaves as a list of its elements, whatever operations are called in what order.
use empirical_zero_knowledge.Prelude.{
  ℕ, zero, suc, ◌+◌, ◌<◌, ◌≤◌, ◌≡◌, ◌≢◌, ◌⊎◌, inl, inr, refl, sym, ap, ◌∙◌, Bool-cases, not, ◌&&◌,
  true, false, Option, some, ◌>>=◌, List, [], ◌∷◌, ◌++◌, length, drop, get_or, leb, ◌==◌,
  length-append, arith,
}
use mathlib.Core.Path.{subst}
use native.Mathlib.Decide.{dec_lt}
use empirical_zero_knowledge.LinkedList.{
  Node, SingleLinkedList, update, new, add_element, walk, read_at, get_element,
}
use empirical_zero_knowledge.LinkedList.Chain.{
  Cells, address, last_address, elements, Avoids, IsChain, cell_at, cell_last,
}
use empirical_zero_knowledge.LinkedList.Walk.{walk_lem}
use empirical_zero_knowledge.LinkedList.Change.{linked, IsChain-append}

abbrev pub Below : ℕ → Cells → Type 0
Below limit [] = Unit
Below limit ((a, x) ∷ ns) = (a < limit) × Below limit ns

-- The nodes of a list, with its pointers to the first, the last and the cursor's node.
pub record Represents (s : SingleLinkedList) (ns : Cells) : Type 0 where
  pub chain : IsChain s.cell ns
  pub first_is : s.first ≡ address ns
  pub last_is : s.last_elm ≡ last_address ns
  pub count : s.size ≡ length ns
  pub below : Below s.fresh ns
  pub fresh_pos : 0 < s.fresh
  pub cursor : (s.last ≡ 0) ⊎ ((s.lasti < length ns) × (s.last ≡ address (drop s.lasti ns)))

pub new-Represents : Represents new []
unfolding new
new-Represents = record {
  chain = tt;
  first_is = refl;
  last_is = refl;
  count = refl;
  below = tt;
  fresh_pos = omega arith;
  cursor = inl refl;
}

Below-Avoids : (p : ℕ) (ns : Cells) → Below p ns → Avoids p ns
Below-Avoids p [] h = tt
Below-Avoids p ((a, x) ∷ ns) h = ((λ e. absurd (omega (arith, e, h.0))), Below-Avoids p ns h.1)

Below-append : (p : ℕ) (ns : Cells) (e : ℕ) → Below p ns → Below (suc p) (ns ++ (p, e) ∷ [])
Below-append p [] e h = (omega arith, tt)
Below-append p ((a, x) ∷ ns) e h = (omega (arith, h.0), Below-append p ns e h.1)

last_address-append : (ns : Cells) (a e : ℕ) → last_address (ns ++ (a, e) ∷ []) ≡ a
last_address-append [] a e = refl
last_address-append ((b, x) ∷ []) a e = refl
last_address-append ((b, x) ∷ n ∷ ns) a e = last_address-append (n ∷ ns) a e

address-append : (ns : Cells) (a e : ℕ) → 0 < length ns → address (ns ++ (a, e) ∷ []) ≡ address ns
address-append [] a e h = absurd (omega arith)
address-append (n ∷ ns) a e h = refl

update_self : (cell : ℕ → Option Node) (p : ℕ) (v : Option Node) → update cell p v p ≡ v
unfolding update
update_self cell p v = ground arith

pub add_element-Represents :
    (e : ℕ) (s : SingleLinkedList) (ns : Cells)
    → Represents s ns
    → (s' : SingleLinkedList) × (add_element e s ≡ some s')
      × Represents s' (ns ++ (s.fresh, e) ∷ [])
unfolding add_element
add_element-Represents e s [] r =
    let empty : (s.first == 0) ≡ true = ground (arith, r.first_is) in
    (
      record s {
        cell = update s.cell s.fresh (some (record { element = e; next = 0 }));
        fresh = suc s.fresh;
        first = s.fresh;
        last_elm = s.fresh;
        size = 1;
        last = 0;
        lasti = 0;
      },
      rw empty refl,
      record {
        chain = (r.fresh_pos, update_self s.cell s.fresh _, tt, tt);
        first_is = refl;
        last_is = refl;
        count = refl;
        below = (omega arith, tt);
        fresh_pos = omega arith;
        cursor = inl refl;
      },
    )
add_element-Represents e s ((a, x) ∷ ns) r =
    let nodes : Cells = (a, x) ∷ ns in
    let nonempty : (s.first == 0) ≡ false = ground (arith, r.first_is, r.chain.0) in
    let (y, at) = cell_last s.cell nodes r.chain (omega arith) in
    let at_last : s.cell s.last_elm ≡ some (record { element = y; next = 0 }) =
      ap s.cell r.last_is ∙ at in
    (
      record s {
        cell = linked s.cell s.fresh e y r.fresh_pos s.last_elm;
        fresh = suc s.fresh;
        last_elm = s.fresh;
        size = s.size + 1;
        last = 0;
        lasti = 0;
      },
      rw nonempty (rw at_last refl),
      record {
        chain =
            subst
              (λ l. IsChain (linked s.cell s.fresh e y r.fresh_pos l) (nodes ++ (s.fresh, e) ∷ []))
              (sym r.last_is)
              (IsChain-append s.cell s.fresh e y r.fresh_pos nodes (omega arith) r.chain
                (Below-Avoids s.fresh nodes r.below) at);
        first_is = r.first_is;
        last_is = sym (last_address-append nodes s.fresh e);
        count = omega (arith, r.count, length-append ns ((s.fresh, e) ∷ []));
        below = Below-append s.fresh nodes e r.below;
        fresh_pos = omega arith;
        cursor = inl refl;
      },
    )

-- The cursor at the node of an index.
module _ (s : SingleLinkedList) (ns : Cells) (r : Represents s ns) (i : ℕ)
    (inside : i < length ns) where
  abbrev at_index : SingleLinkedList
  at_index = record s { last = address (drop i ns); lasti = i }

  at_index-Represents : Represents at_index ns
  at_index-Represents = record {
    chain = r.chain;
    first_is = r.first_is;
    last_is = r.last_is;
    count = r.count;
    below = r.below;
    fresh_pos = r.fresh_pos;
    cursor = inr (inside, refl);
  }

  read_at_lem : read_at s (address (drop i ns)) i ≡ some (get_or (elements ns) i 0, at_index)
  unfolding read_at
  read_at_lem = rw ((cell_at s.cell ns i r.chain inside).1) refl

  -- What the walk finds.
  walk_read :
      (walk s.cell 0 s.first i >>= λ w. read_at s (w.1) i)
      ≡ some (get_or (elements ns) i 0, at_index)
  walk_read =
      let found = ap (λ f. walk s.cell 0 f i) r.first_is ∙ walk_lem s.cell 0 ns i r.chain inside in
      rw found read_at_lem

  -- What the two shortcuts by the cursor find.
  next_read :
      s.last ≢ 0
      → i ≡ s.lasti + 1
      → (s.cell s.last >>= λ node. read_at s node.next i)
        ≡ some (get_or (elements ns) i 0, at_index)
  next_read set i_next = elim r.cursor [
    | inl no_cursor ↦ absurd (set no_cursor)
    | inr (lt, here) ↦
        let behind : suc s.lasti ≡ i = omega arith in
        let node = (cell_at s.cell ns s.lasti r.chain lt).1 in
        rw (ap s.cell here ∙ node)
          (ap (λ k. read_at s (address (drop k ns)) i) behind ∙ read_at_lem)
  ]

  same_read :
      s.last ≢ 0
      → i ≡ s.lasti
      → ◌>>=◌ {B = ℕ × SingleLinkedList} (s.cell s.last) (λ node. some (node.element, s))
        ≡ some (get_or (elements ns) i 0, s)
  same_read set i_same = elim r.cursor [
    | inl no_cursor ↦ absurd (set no_cursor)
    | inr (lt, here) ↦
        let node = (cell_at s.cell ns s.lasti r.chain lt).1 in
        rw (ap s.cell here ∙ node) (ap (λ k. some (get_or (elements ns) k 0, s)) (sym i_same))
  ]

cursor_test : (last i k : ℕ) → (not (last == 0) && (i == k)) ≡ true → (last ≢ 0) × (i ≡ k)
cursor_test last i k h = ((λ e. ground arith), ground arith)

pub length-elements : (ns : Cells) → length (elements ns) ≡ length ns
length-elements [] = refl
length-elements ((a, x) ∷ ns) = ap suc (length-elements ns)

pub get_or-past : (xs : List ℕ) (i : ℕ) → length xs ≤ i → get_or xs i 0 ≡ 0
get_or-past [] i h = refl
get_or-past (x ∷ xs) zero h = absurd (omega arith)
get_or-past (x ∷ xs) (suc i) h = get_or-past xs i (omega arith)

pub get_element-Represents :
    (i : ℕ) (s : SingleLinkedList) (ns : Cells)
    → Represents s ns
    → (s' : SingleLinkedList) × (get_element i s ≡ some (get_or (elements ns) i 0, s'))
      × Represents s' ns
unfolding get_element
get_element-Represents i s ns r = elim (dec_lt i (length ns)) [
  | no past ↦
      let test : leb s.size i ≡ true = ground (arith, r.count) in
      (s, rw (test, get_or-past (elements ns) i (omega (arith, length-elements ns))) refl, r)
  | yes inside ↦
      let test : leb s.size i ≡ false = ground (arith, r.count) in
      elim (Bool-cases (not (s.last == 0) && (i == s.lasti + 1))) [
        | inl is_next ↦
            let (set, at) = cursor_test s.last i (s.lasti + 1) is_next in
            (
              at_index s ns r i inside,
              rw (test, is_next) (next_read s ns r i inside set at),
              at_index-Represents s ns r i inside,
            )
        | inr not_next ↦ elim (Bool-cases (not (s.last == 0) && (i == s.lasti))) [
          | inl is_same ↦
              let (set, at) = cursor_test s.last i s.lasti is_same in
              (s, rw (test, not_next, is_same) (same_read s ns r i inside set at), r)
          | inr not_same ↦ (
            at_index s ns r i inside,
            rw (test, not_next, not_same) (walk_read s ns r i inside),
            at_index-Represents s ns r i inside,
          )
        ]
      ]
]
