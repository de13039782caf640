-- ===== src/Tests/EvalRuns.antt =====
-- The scores of a small evaluation run.
use fiqhmind_ai_backend.Prelude.{true, false, String, List, [], ◌∷◌, Bool}
use fiqhmind_ai_backend.Eval.Refusals.{refusal_confusion, Sorts, refusal_confusion-Sorts}

abbrev retrieved : List String
retrieved = "c9" ∷ "c2" ∷ "c1" ∷ []

abbrev expected : List String
expected = "c1" ∷ "c2" ∷ []

abbrev pairs : List (Bool × Bool)
pairs = (true, true) ∷ (false, true) ∷ (true, false) ∷ (false, false) ∷ []

refusal_confusion-Sorts_example : Sorts pairs (refusal_confusion pairs)
refusal_confusion-Sorts_example = refusal_confusion-Sorts pairs
