-- ===== src/Chunking/Ranges.antt =====
-- `_ranges` of app/services/chunking.py: consecutive half-open ranges between cut points.
pub mod Tiling
use fiqhmind_ai_backend.Prelude.{ℕ, List, [], ◌∷◌, ◌++◌, ltb, ◌==◌, if◌then◌else◌}

-- one step of `sorted(set(…))`
unfoldable pub insert_sorted : ℕ → List ℕ → List ℕ
insert_sorted n [] = n ∷ []
insert_sorted n (x ∷ xs) =
    let later = insert_sorted n xs in
    if ltb n x then n ∷ x ∷ xs else if n == x then x ∷ xs else x ∷ later

-- `sorted(set(starts))`
unfoldable pub sorted_set : List ℕ → List ℕ
unfolding insert_sorted
sorted_set [] = []
sorted_set (n ∷ ns) = insert_sorted n (sorted_set ns)

-- the loop that builds `deduped`, behind its last element
unfoldable pub dedupe_after : ℕ → List ℕ → List ℕ
dedupe_after last [] = []
dedupe_after last (bound ∷ bounds) =
    let other = bound ∷ dedupe_after bound bounds in
    let same = dedupe_after last bounds in if bound == last then same else other

-- `[(deduped[i], deduped[i + 1]) for i in range(len(deduped) - 1)]`, behind `deduped[0]`
unfoldable pub pairs_after : ℕ → List ℕ → List (ℕ × ℕ)
pairs_after first [] = []
pairs_after first (next ∷ rest) = (first, next) ∷ pairs_after next rest

-- `_ranges`: the bounds are `start`, the cut points in order, and `length`.
unfoldable pub ranges : List ℕ → ℕ → ℕ → List (ℕ × ℕ)
unfolding sorted_set dedupe_after pairs_after
ranges starts length start =
    pairs_after start (dedupe_after start (sorted_set starts ++ length ∷ []))
