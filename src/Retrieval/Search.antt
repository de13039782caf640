-- ===== src/Retrieval/Search.antt =====
-- `RetrievalRunner._search_async` of app/services/retrieval.py. The preparation of the query, its
-- language, the translator and the expansion are parameters; the searches are those of
-- app/services/hybrid_search.py. The searches run concurrently and do not depend on each other.
pub mod Outage
use text.Mathlib.Text.{◌==◌ as str_eq}
use fiqhmind_ai_backend.Prelude.{
  ℕ, max, Bool, true, false, not, String, Option, none, some, List, [], ◌∷◌, map, if◌then◌else◌,
  is_empty,
}
use fiqhmind_ai_backend.Retrieval.Scores.{Floats}
use fiqhmind_ai_backend.Retrieval.Types.{SearchHit, RetrievedChunk}
use fiqhmind_ai_backend.Retrieval.Fusion.{
  Answer, returned, raised, Engine, PayloadFilter, search_async,
}
use fiqhmind_ai_backend.Retrieval.Merge.{CandidateQuery, merge_hits, remaining_candidates}
use fiqhmind_ai_backend.Retrieval.Compress.{Runner, rerank, compress}

-- `PreparedQuery`
pub record PreparedQuery : Type 0 where
  pub display : String
  pub canonical : String

-- `TranslationResult`
pub record TranslationResult : Type 0 where
  pub text : String
  pub translated : Bool

-- the result of `PassthroughTranslator.translate`
abbrev pub passthrough : String → TranslationResult
passthrough text = record { text = text; translated = false }

-- what the other services answer
pub record Services : Type 0 where
  pub prepare : String → Answer PreparedQuery
  -- the code of `require_language`
  pub language : String → Answer String
  -- `self._translator.translate(text, source_lang=…)`
  pub translate : String → String → Answer TranslationResult
  -- the candidates of `self._expansion.expand(original=…, canonical_arabic=…)`, which raises where
  -- the paraphraser or the database does
  pub expand : String → String → Answer (List CandidateQuery)
  pub normalize : String → String

-- `_translate`
abbrev pub translate : Services → String → String → Answer TranslationResult
translate services text source_lang =
    if str_eq source_lang "ar"
    then returned (passthrough text)
    else services.translate text source_lang

-- `_translate_with_fallback`, of the awaited result
abbrev pub or_passthrough : String → Answer TranslationResult → TranslationResult
or_passthrough text (returned translation) = translation
or_passthrough text (raised error) = passthrough text

-- `_await_candidates`: the results of the searches that did not fail
abbrev pub successes : {A : Type 0} → List (Answer A) → List A
successes [] = []
successes (returned hits ∷ results) = hits ∷ successes results
successes (raised error ∷ results) = successes results

-- the rest of the code, where a call does not raise
abbrev pub map_answer : {A B : Type 0} → (A → B) → Answer A → Answer B
map_answer f (returned x) = returned (f x)
map_answer f (raised error) = raised error

module _ (fl : Floats) where
  -- `RetrievalResult`
  pub record RetrievalResult : Type 0 where
    pub query : String
    pub canonical_arabic_query : String
    pub language : String
    pub translated : Bool
    pub candidates : List String
    pub evidence_sufficient : Bool
    pub chunks : List (RetrievedChunk fl)

  -- the result for the chunks
  abbrev pub result_of :
      PreparedQuery
      → String
      → String
      → Bool
      → List CandidateQuery
      → List (RetrievedChunk fl)
      → RetrievalResult
  result_of prepared language canonical_arabic translated candidates chunks = record {
    query = prepared.display;
    canonical_arabic_query = canonical_arabic;
    language = language;
    translated = translated;
    candidates = map (λ c. c.text) candidates;
    evidence_sufficient = not (is_empty chunks);
    chunks = chunks;
  }

  -- `merged`, `ranked` and `chunks`
  abbrev pub chunks_of :
      Runner fl
      → PreparedQuery
      → String
      → Option ℕ
      → Option (List (SearchHit fl))
      → List (List (SearchHit fl))
      → List (RetrievedChunk fl)
  unfolding compress rerank merge_hits
  chunks_of r prepared canonical_arabic top_n original_hits results =
      compress fl r
        (rerank fl r (merge_hits fl (original_hits ∷ map some results) (max r.candidates 1))
          canonical_arabic prepared.canonical)
        top_n

  -- the evidence of the awaited searches: the error of the original search, when no search succeeded
  unfoldable pub gather_evidence :
      Runner fl
      → PreparedQuery
      → String
      → Option ℕ
      → Answer (List (SearchHit fl))
      → List (List (SearchHit fl))
      → Answer (List (RetrievedChunk fl))
  unfolding chunks_of
  gather_evidence r prepared canonical_arabic top_n (raised error) [] = raised error
  gather_evidence r prepared canonical_arabic top_n (raised error) (hits ∷ results) =
      returned (chunks_of r prepared canonical_arabic top_n none (hits ∷ results))
  gather_evidence r prepared canonical_arabic top_n (returned hits) results =
      returned (chunks_of r prepared canonical_arabic top_n (some hits) results)

  -- a search of `self._hybrid`, with the default `alpha`
  abbrev pub hybrid :
      Runner fl → Engine fl → fl.F → Option PayloadFilter → String → Answer (List (SearchHit fl))
  unfolding search_async
  hybrid r e half filters text = search_async fl e text (max r.candidates 1) half filters

  -- the searches of the remaining candidates
  abbrev pub candidate_results :
      Runner fl
      → Engine fl
      → fl.F
      → Option PayloadFilter
      → List CandidateQuery
      → String
      → List (Answer (List (SearchHit fl)))
  unfolding hybrid remaining_candidates
  candidate_results r e half filters candidates original =
      map (λ c. hybrid r e half filters c.text) (remaining_candidates candidates original)

  -- the rest of `_search_async`, with what the expansion answers; nothing catches its error
  unfoldable pub search_expanded :
      Runner fl
      → Engine fl
      → fl.F
      → Option PayloadFilter
      → Option ℕ
      → PreparedQuery
      → String
      → Bool
      → String
      → Answer (List CandidateQuery)
      → Answer RetrievalResult
  unfolding gather_evidence candidate_results hybrid
  search_expanded r e half filters top_n prepared language translated canonical_arabic
        (raised error) =
      raised error
  search_expanded r e half filters top_n prepared language translated canonical_arabic
        (returned candidates) =
      map_answer (result_of prepared language canonical_arabic translated candidates) (
        gather_evidence r prepared canonical_arabic top_n (hybrid r e half filters prepared.display)
          (successes (candidate_results r e half filters candidates prepared.display)))

  -- `_search_async` after the preparation and the detection of the language
  unfoldable pub retrieve_prepared :
      Runner fl
      → Engine fl
      → fl.F
      → Services
      → Option PayloadFilter
      → Option ℕ
      → PreparedQuery
      → String
      → Answer RetrievalResult
  unfolding search_expanded
  retrieve_prepared r e half services filters top_n prepared language =
      let translation =
        or_passthrough prepared.display (translate services prepared.display language) in
      let canonical_arabic = services.normalize translation.text in
      search_expanded r e half filters top_n prepared language translation.translated
        canonical_arabic (services.expand prepared.display canonical_arabic)

  -- `_search_async`
  unfoldable pub retrieve :
      Runner fl
      → Engine fl
      → fl.F
      → Services
      → Option PayloadFilter
      → Option ℕ
      → String
      → Answer RetrievalResult
  unfolding retrieve_prepared
  retrieve r e half services filters top_n query = elim (services.prepare query) [
    | raised error ↦ raised error
    | returned prepared ↦ elim (services.language prepared.display) [
      | raised error ↦ raised error
      | returned language ↦ retrieve_prepared r e half services filters top_n prepared language
    ]
  ]
