-- ===== src/Tests/Lists.antt =====
-- Calls on a linked list.
use empirical_zero_knowledge.Prelude.{◌≡◌, some, List, [], ◌∷◌}
use empirical_zero_knowledge.LinkedList.{new}
use empirical_zero_knowledge.LinkedList.Runs.{
  Call, add, get, rem, size, results, model_call, model_results, without, results-new,
}

-- Two reads by the cursor, and an addition to the list that has been emptied.
abbrev calls : List Call
calls = add 5 ∷ add 7 ∷ get 0 ∷ get 1 ∷ get 1 ∷ rem 0 ∷ rem 0 ∷ size ∷ add 9 ∷ get 0 ∷ rem 4 ∷ []

results-new_example : results calls new ≡ some (0 ∷ 0 ∷ 5 ∷ 7 ∷ 7 ∷ 5 ∷ 7 ∷ 0 ∷ 0 ∷ 9 ∷ 0 ∷ [])
unfolding model_results model_call without
results-new_example = results-new calls
