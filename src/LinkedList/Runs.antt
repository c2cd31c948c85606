-- ===== src/LinkedList/Runs.antt =====
-- Runs of operations on a list, against the same operations on a list of elements.
use empirical_zero_knowledge.Prelude.{
  ℕ, zero, suc, ◌≡◌, refl, sym, ap, ◌∙◌, Option, some, ◌>>=◌, List, [], ◌∷◌, ◌++◌, length, get_or,
}
use empirical_zero_knowledge.LinkedList.{
  SingleLinkedList, new, add_element, get_element, rem_element,
}
use empirical_zero_knowledge.LinkedList.Chain.{Cells, elements}
use empirical_zero_knowledge.LinkedList.Change.{remove_at}
use empirical_zero_knowledge.LinkedList.Refines.{
  Represents, new-Represents, add_element-Represents, get_element-Represents, length-elements,
}
use empirical_zero_knowledge.LinkedList.Removal.{rem_element-Represents}

pub data Call : Type 0 where
  add : ℕ → Call
  get : ℕ → Call
  rem : ℕ → Call
  size : Call

-- What a call returns, an addition the number 0, and the list after it.
unfoldable pub call : Call → SingleLinkedList → Option (ℕ × SingleLinkedList)
call (add e) s = add_element e s >>= λ s'. some (0, s')
call (get i) s = get_element i s
call (rem i) s = rem_element i s
call size s = some (s.size, s)

-- The results of some calls, one after the other.
unfoldable pub results : List Call → SingleLinkedList → Option (List ℕ)
results [] s = some []
results (c ∷ cs) s = call c s >>= λ r. results cs (r.1) >>= λ rs. some (r.0 ∷ rs)

unfoldable pub without : ℕ → List ℕ → List ℕ
without i [] = []
without zero (x ∷ xs) = xs
without (suc i) (x ∷ xs) = x ∷ without i xs

-- The same on a list of elements.
unfoldable pub model_call : Call → List ℕ → ℕ × List ℕ
model_call (add e) xs = (0, xs ++ e ∷ [])
model_call (get i) xs = (get_or xs i 0, xs)
model_call (rem i) xs = (get_or xs i 0, without i xs)
model_call size xs = (length xs, xs)

unfoldable pub model_results : List Call → List ℕ → List ℕ
model_results [] xs = []
model_results (c ∷ cs) xs = (model_call c xs).0 ∷ model_results cs (model_call c xs).1

elements-append : (ns : Cells) (a e : ℕ) → elements (ns ++ (a, e) ∷ []) ≡ elements ns ++ e ∷ []
elements-append [] a e = refl
elements-append ((b, x) ∷ ns) a e = ap (λ r. x ∷ r) (elements-append ns a e)

elements-remove_at : (i : ℕ) (ns : Cells) → elements (remove_at i ns) ≡ without i (elements ns)
unfolding remove_at without
elements-remove_at i [] = refl
elements-remove_at zero ((a, x) ∷ ns) = refl
elements-remove_at (suc i) ((a, x) ∷ ns) = ap (λ r. x ∷ r) (elements-remove_at i ns)

-- One call keeps the correspondence.
call-Represents :
    (c : Call) (s : SingleLinkedList) (ns : Cells)
    → Represents s ns
    → (s' : SingleLinkedList) × (ns' : Cells) × (call c s
        ≡ some ((model_call c (elements ns)).0, s'))
      × (elements ns' ≡ (model_call c (elements ns)).1)
      × Represents s' ns'
unfolding call model_call
call-Represents (add e) s ns r =
    let (s', done, r') = add_element-Represents e s ns r in
    (s', ns ++ (s.fresh, e) ∷ [], rw done refl, elements-append ns s.fresh e, r')
call-Represents (get i) s ns r =
    let (s', done, r') = get_element-Represents i s ns r in (s', ns, done, refl, r')
call-Represents (rem i) s ns r =
    let (s', done, r') = rem_element-Represents i s ns r in
    (s', remove_at i ns, done, elements-remove_at i ns, r')
call-Represents size s ns r =
    (s, ns, ap (λ n. some (n, s)) (r.count ∙ sym (length-elements ns)), refl, r)

results-Represents :
    (cs : List Call) (s : SingleLinkedList) (ns : Cells)
    → Represents s ns
    → results cs s ≡ some (model_results cs (elements ns))
unfolding results model_results
results-Represents [] s ns r = refl
results-Represents (c ∷ cs) s ns r =
    let (s', ns', done, same, r') = call-Represents c s ns r in
    rw done (
      rw (results-Represents cs s' ns' r')
        (ap (λ xs. some ((model_call c (elements ns)).0 ∷ model_results cs xs)) same))

-- Whatever additions, reads, removals and questions for the size are made of a new list, in any order
-- and with any index, none goes through a pointer to no node, and each returns what it returns on a
-- list of elements.
pub results-new : (cs : List Call) → results cs new ≡ some (model_results cs [])
results-new cs = results-Represents cs new [] new-Represents
