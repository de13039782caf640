-- ===== src/Retrieval/Merge.antt =====
-- `_merge_hits` and `_remaining_candidates` of app/services/retrieval.py.
pub mod Entries
pub mod Best
pub mod Candidates
use text.Mathlib.Text.{◌==◌ as str_eq}
use fiqhmind_ai_backend.Prelude.{
  ℕ, Bool, true, false, ◌||◌, String, Option, none, some, List, [], ◌∷◌, map, if◌then◌else◌, take,
  any,
}
use fiqhmind_ai_backend.Retrieval.Scores.{Floats}
use fiqhmind_ai_backend.Retrieval.Order.{sort_desc}
use fiqhmind_ai_backend.Retrieval.Dict.{get, put}
use fiqhmind_ai_backend.Retrieval.Types.{SearchHit}

module _ (fl : Floats) where
  -- `existing is None or hit.score > existing.score`
  abbrev pub is_better : Option (SearchHit fl) → SearchHit fl → Bool
  is_better none hit = true
  is_better (some existing) hit = fl.lt existing.score hit.score

  -- the body of the inner loop
  unfoldable pub note_hit :
      SearchHit fl → List (String × SearchHit fl) → List (String × SearchHit fl)
  note_hit hit best =
      if is_better (get hit.chunk_id best) hit then put hit.chunk_id hit best else best

  unfoldable pub note_hits :
      List (SearchHit fl) → List (String × SearchHit fl) → List (String × SearchHit fl)
  unfolding note_hit
  note_hits [] best = best
  note_hits (hit ∷ hits) best = note_hits hits (note_hit hit best)

  -- the outer loop; `None` and the empty list are skipped
  unfoldable pub note_lists :
      List (Option (List (SearchHit fl)))
      → List (String × SearchHit fl)
      → List (String × SearchHit fl)
  unfolding note_hits
  note_lists [] best = best
  note_lists (none ∷ lists) best = note_lists lists best
  note_lists (some hits ∷ lists) best = note_lists lists (note_hits hits best)

  abbrev pub value_of : String × SearchHit fl → SearchHit fl
  value_of entry = entry.1

  -- `hit.score`
  abbrev pub score_of_hit : SearchHit fl → fl.F
  score_of_hit hit = hit.score

  -- `_merge_hits`
  unfoldable pub merge_hits : List (Option (List (SearchHit fl))) → ℕ → List (SearchHit fl)
  unfolding note_lists sort_desc
  merge_hits hit_lists limit =
      take limit (sort_desc fl score_of_hit (map value_of (note_lists hit_lists [])))

-- `CandidateQuery`
pub record CandidateQuery : Type 0 where
  pub text : String
  pub kind : String

-- `text in seen`, of a set in the order of its insertions
abbrev pub is_in : String → List String → Bool
is_in text seen = any (λ other. str_eq other text) seen

-- the loop of `_remaining_candidates`
unfoldable pub remaining_from : String → List String → List CandidateQuery → List CandidateQuery
remaining_from original seen [] = []
remaining_from original seen (c ∷ cs) =
    let covered = str_eq c.text original || is_in c.text seen in
    let rest = remaining_from original (if covered then seen else c.text ∷ seen) cs in
    if covered then rest else c ∷ rest

-- `_remaining_candidates`
unfoldable pub remaining_candidates : List CandidateQuery → String → List CandidateQuery
unfolding remaining_from
remaining_candidates candidates original = remaining_from original [] candidates
