-- ===== src/Retrieval/Search/Outage.antt =====
-- When the retrieval of app/services/retrieval.py raises, for a query that was prepared.
use fiqhmind_ai_backend.Retrieval.Merge.{CandidateQuery}
use fiqhmind_ai_backend.Prelude.{ℕ, Bool, ◌≡◌, refl, String, Option, List, [], ◌∷◌, arith, All}
use fiqhmind_ai_backend.Retrieval.Scores.{Floats}
use fiqhmind_ai_backend.Retrieval.Types.{SearchHit}
use fiqhmind_ai_backend.Retrieval.Fusion.{
  Answer, returned, raised, SearchError, Engine, PayloadFilter,
}
use fiqhmind_ai_backend.Retrieval.Compress.{Runner}
use fiqhmind_ai_backend.Retrieval.Search.{
  PreparedQuery, Services, translate, or_passthrough, successes, gather_evidence, hybrid,
  candidate_results, map_answer, retrieve_prepared, result_of, search_expanded,
}

-- the call raised an error
abbrev pub IsRaised : {A : Type 0} → Answer A → Type 0
IsRaised {A} answer = (error : SearchError) × (answer ≡ raised error)

successes-none :
    {A : Type 0} (results : List (Answer A)) → successes results ≡ [] → All IsRaised results
successes-none [] h = tt
successes-none (returned x ∷ results) h = absurd (ground arith)
successes-none (raised error ∷ results) h = ((error, refl), successes-none results h)

map_answer-raised :
    {A B : Type 0} (f : A → B) (answer : Answer A) (error : SearchError)
    → map_answer f answer ≡ raised error
    → answer ≡ raised error
map_answer-raised f (returned x) error h = absurd (ground arith)
map_answer-raised f (raised e) error h = ground arith

module _ (fl : Floats) where
  gather_evidence-raised :
      (r : Runner fl) (prepared : PreparedQuery) (canonical_arabic : String) (top_n : Option ℕ)
      (original : Answer (List (SearchHit fl))) (results : List (List (SearchHit fl)))
      (error : SearchError)
      → gather_evidence fl r prepared canonical_arabic top_n original results ≡ raised error
      → (original ≡ raised error) × (results ≡ [])
  unfolding gather_evidence
  gather_evidence-raised r prepared canonical_arabic top_n (raised e) [] error h =
      (ground arith, refl)
  gather_evidence-raised r prepared canonical_arabic top_n (raised e) (x ∷ xs) error h =
      absurd (ground arith)
  gather_evidence-raised r prepared canonical_arabic top_n (returned x) results error h =
      absurd (ground arith)

  -- Every search failed: that for the original query with the error, and that of each remaining
  -- candidate query.
  abbrev pub AllFailed :
      Runner fl
      → Engine fl
      → fl.F
      → Option PayloadFilter
      → PreparedQuery
      → SearchError
      → List CandidateQuery
      → Type 0
  AllFailed r e half filters prepared error candidates =
      (hybrid fl r e half filters prepared.display ≡ raised error)
      × All IsRaised (candidate_results fl r e half filters candidates prepared.display)

  -- why the search raises, by what the expansion answers
  abbrev pub Causes :
      Runner fl
      → Engine fl
      → fl.F
      → Option PayloadFilter
      → PreparedQuery
      → SearchError
      → Answer (List CandidateQuery)
      → Type 0
  Causes r e half filters prepared error (raised other) = other ≡ error
  Causes r e half filters prepared error (returned candidates) =
      AllFailed r e half filters prepared error candidates

  search_expanded-Causes :
      (r : Runner fl) (e : Engine fl) (half : fl.F) (filters : Option PayloadFilter)
      (top_n : Option ℕ) (prepared : PreparedQuery) (language : String) (translated : Bool)
      (canonical_arabic : String) (expanded : Answer (List CandidateQuery)) (error : SearchError)
      → search_expanded fl r e half filters top_n prepared language translated canonical_arabic
          expanded
        ≡ raised error
      → Causes r e half filters prepared error expanded
  unfolding search_expanded
  search_expanded-Causes r e half filters top_n prepared language translated canonical_arabic
        (raised other) error h =
      ground arith
  search_expanded-Causes r e half filters top_n prepared language translated canonical_arabic
        (returned candidates) error h =
      let results = candidate_results fl r e half filters candidates prepared.display in
      let both =
        gather_evidence-raised r prepared canonical_arabic top_n
          (hybrid fl r e half filters prepared.display) (successes results) error
          (map_answer-raised (result_of fl prepared language canonical_arabic translated candidates)
            _ error h) in
      (both.0, successes-none results both.1)

  -- Where the retrieval of a prepared query raises an error, it is either the error of the expansion,
  -- or the expansion returned candidates, the error is that of the search for the original query,
  -- and the search of every remaining candidate failed too: one search that succeeds, or a failing
  -- translation, does not make it raise.
  pub retrieve_prepared_outage :
      (r : Runner fl) (e : Engine fl) (half : fl.F) (services : Services)
      (filters : Option PayloadFilter) (top_n : Option ℕ) (prepared : PreparedQuery)
      (language : String) (error : SearchError)
      → retrieve_prepared fl r e half services filters top_n prepared language ≡ raised error
      → Causes r e half filters prepared error (
          services.expand prepared.display (
            services.normalize
              (or_passthrough prepared.display
                (translate services prepared.display language)).text))
  unfolding retrieve_prepared
  retrieve_prepared_outage r e half services filters top_n prepared language error h =
      let translation =
        or_passthrough prepared.display (translate services prepared.display language) in
      let canonical_arabic = services.normalize translation.text in
      search_expanded-Causes r e half filters top_n prepared language translation.translated
        canonical_arabic (services.expand prepared.display canonical_arabic) error h
