-- ===== src/LinkedList/Change.antt =====
-- How the chain changes when a node is put behind the last one, or taken out.
use empirical_zero_knowledge.Prelude.{
  ℕ, zero, suc, ◌<◌, ◌≡◌, ◌≢◌, refl, sym, ap, ◌∙◌, Option, none, some, [], ◌∷◌, ◌++◌, length, drop,
  false, true, get_or, ◌==◌, arith,
}
use empirical_zero_knowledge.LinkedList.{Node, update}
use empirical_zero_knowledge.LinkedList.Chain.{
  Cells, address, last_address, elements, Avoids, IsChain, IsChain-update, Avoids-drop, Avoids-last,
}

Avoids-append : (p : ℕ) (ns : Cells) (a e : ℕ) → Avoids p ns → p ≢ a → Avoids p (ns ++ (a, e) ∷ [])
Avoids-append p [] a e off other = (other, tt)
Avoids-append p ((b, y) ∷ ns) a e off other = (off.0, Avoids-append p ns a e off.1 other)

module _ (cell : ℕ → Option Node) (a e x : ℕ) (pos : 0 < a) where
  -- The last node, whose element is `x`, points to the new one.
  abbrev pub linked : ℕ → ℕ → Option Node
  linked l =
      update (update cell a (some (record { element = e; next = 0 }))) l
        (some (record { element = x; next = a }))

  pub IsChain-append :
      (ns : Cells)
      → 0 < length ns
      → IsChain cell ns
      → Avoids a ns
      → cell (last_address ns) ≡ some (record { element = x; next = 0 })
      → IsChain (linked (last_address ns)) (ns ++ (a, e) ∷ [])
  unfolding update
  IsChain-append [] some_nodes c off at = absurd (omega arith)
  IsChain-append ((l, y) ∷ []) some_nodes c off at =
      let other : (l == a) ≡ false = ground (arith, off.0) in
      let self : (l == l) ≡ true = ground arith in
      let new : (a == a) ≡ true = ground arith in
      (
        c.0,
        rw self (ground (arith, at, c.1)),
        ((λ h. off.0 (sym h)), tt),
        (pos, rw (other, new) refl, tt, tt),
      )
  IsChain-append ((b, z) ∷ n ∷ ns) some_nodes c off at =
      let last = last_address (n ∷ ns) in
      let not_last : (last == b) ≡ false =
        ground (arith, Avoids-last b (n ∷ ns) (omega arith) c.2) in
      let not_new : (a == b) ≡ false = ground (arith, off.0) in
      (
        c.0,
        rw (not_last, not_new) (c.1),
        Avoids-append b (n ∷ ns) a e c.2 (λ h. off.0 (sym h)),
        IsChain-append (n ∷ ns) (omega arith) c.3 off.1 at,
      )

unfoldable pub remove_at : ℕ → Cells → Cells
remove_at i [] = []
remove_at zero (n ∷ ns) = ns
remove_at (suc i) (n ∷ ns) = n ∷ remove_at i ns

pub address-remove_at :
    (i : ℕ) (ns : Cells) → 0 < length ns → address (remove_at (suc i) ns) ≡ address ns
unfolding remove_at
address-remove_at i [] h = absurd (omega arith)
address-remove_at i (n ∷ ns) h = refl

Avoids-remove_at : (p i : ℕ) (ns : Cells) → Avoids p ns → Avoids p (remove_at i ns)
unfolding remove_at
Avoids-remove_at p i [] off = tt
Avoids-remove_at p zero ((a, x) ∷ ns) off = off.1
Avoids-remove_at p (suc i) ((a, x) ∷ ns) off = (off.0, Avoids-remove_at p i ns off.1)

-- The node before the one of an index points to the one behind it.
abbrev pub unlinked : (ℕ → Option Node) → Cells → ℕ → ℕ → Option Node
unlinked cell ns j =
    update
      (update cell (address (drop j ns)) (
        some
          (record { element = get_or (elements ns) j 0; next = address (drop (suc (suc j)) ns) })))
      (address (drop (suc j) ns)) none

pub IsChain-remove_at :
    (cell : ℕ → Option Node) (ns : Cells) (j : ℕ)
    → suc j < length ns
    → IsChain cell ns
    → IsChain (unlinked cell ns j) (remove_at (suc j) ns)
unfolding remove_at update
IsChain-remove_at cell [] j h c = absurd (omega arith)
IsChain-remove_at cell ((b, z) ∷ []) zero h c = absurd (omega arith)
IsChain-remove_at cell ((b, z) ∷ (d, w) ∷ ns) zero h c =
    let other : (d == b) ≡ false = ground (arith, c.2.0) in
    let self : (b == b) ≡ true = ground arith in
    (
      c.0,
      rw (other, self) refl,
      c.2.1,
      IsChain-update _ d none ns c.3.2 (IsChain-update cell b _ ns c.2.1 c.3.3),
    )
IsChain-remove_at cell ((b, z) ∷ ns) (suc j) h c =
    let before : (address (drop j ns) == b) ≡ false =
      ground (arith, Avoids-drop b ns j (omega arith) c.2) in
    let here : (address (drop (suc j) ns) == b) ≡ false =
      ground (arith, Avoids-drop b ns (suc j) (omega arith) c.2) in
    (
      c.0,
      rw (before, here)
          (c.1
            ∙ ap (λ q. some (record { element = z; next = q }))
                (sym (address-remove_at j ns (omega arith)))),
      Avoids-remove_at b (suc j) ns c.2,
      IsChain-remove_at cell ns j (omega arith) c.3,
    )
