-- ===== src/Tests/RetrievalRuns.antt =====
-- Two searches that share a chunk, fused, merged, reranked and compressed; scores are thousandths.
use fiqhmind_ai_backend.Prelude.{
  ℕ, ◌+◌, ◌-◌, ◌/◌, max, ◌≡◌, refl, true, not, String, Option, none, some, List, [], ◌∷◌, map,
  arith, ltb, take, select, All, Among,
}
use fiqhmind_ai_backend.Text.{Text}
use fiqhmind_ai_backend.Retrieval.Scores.{Floats, IsOrdered}
use fiqhmind_ai_backend.Retrieval.Order.{sort_desc}
use fiqhmind_ai_backend.Retrieval.Types.{Payload, ScoredPoint, SearchHit, RankedHit}
use fiqhmind_ai_backend.Retrieval.Fusion.{
  returned, raised, outside, SearchError, Engine, rrf_fuse, search_async, tally, ordered_hits,
  filter_of,
}
use fiqhmind_ai_backend.Retrieval.Fusion.Ranking.{search_async_outage}
use fiqhmind_ai_backend.Retrieval.Fusion.Credit.{IsFused, rrf_fuse-IsFused}
use fiqhmind_ai_backend.Retrieval.Merge.{CandidateQuery, merge_hits}
use fiqhmind_ai_backend.Retrieval.Merge.Entries.{all_hits}
use fiqhmind_ai_backend.Retrieval.Merge.Best.{IsBest, merge_hits-IsBest}
use fiqhmind_ai_backend.Retrieval.Compress.{
  Runner, rerank, compress, chunk_of, text_of_hit, top_n_of, is_below,
}
use fiqhmind_ai_backend.Retrieval.Compress.Evidence.{first_signed, compress-rerank}
use fiqhmind_ai_backend.Retrieval.Compress.Ranked.{IsMaximum, rerank-IsMaximum}
use fiqhmind_ai_backend.Retrieval.Search.{PreparedQuery, Services, retrieve_prepared}
use fiqhmind_ai_backend.Retrieval.Search.Outage.{Causes, retrieve_prepared_outage}

-- thousandths
abbrev pub thousandths : Floats
thousandths = record {
  F = ℕ;
  zero = 0;
  one = 1000;
  add = λ a b. a + b;
  sub = λ a b. a - b;
  over = λ a n. a / n;
  lt = λ a b. ltb a b;
}

thousandths-IsOrdered : IsOrdered thousandths
thousandths-IsOrdered = record {
  irrefl = λ a. ground arith;
  asym = λ a b below. ground arith;
  cotrans = λ a b c first second. ground arith;
}

abbrev payload : String → String → Payload
payload id text = record {
  chunk_id = some id;
  text = some text;
  book_id = some "b1";
  book_name = none;
  volume = none;
  printed_page_start = none;
  printed_page_end = none;
  kitab = none;
  bab = none;
  fasl = none;
  topic = none;
  region = none;
  lang = none;
  verified = true;
}

abbrev point : String → String → ℕ → ScoredPoint thousandths
point id text score = record { id = "point"; score = score; payload = some (payload id text) }

abbrev dense : List (ScoredPoint thousandths)
dense = point "c1" "water" 800 ∷ point "c2" "snow" 600 ∷ []

abbrev sparse : List (ScoredPoint thousandths)
sparse = point "c2" "snow" 5 ∷ point "c3" "prayer" 4 ∷ []

abbrev fused : List (SearchHit thousandths)
unfolding sort_desc tally
fused = ordered_hits thousandths (tally thousandths 500 60 dense sparse) (some 2)

rrf_fuse-IsFused_example : All (IsFused thousandths 500 60 dense sparse) fused
unfolding rrf_fuse
rrf_fuse-IsFused_example = rrf_fuse-IsFused thousandths dense sparse 60 500 (some 2) fused refl

-- a store that is down, but for the sparse search when it is asked so
abbrev broken_engine : Engine thousandths
broken_engine = record {
  Vector = ℕ;
  Sparse = ℕ;
  embed = λ query. returned (1, 2);
  search_dense = λ v limit filter. raised (outside "dense");
  search_sparse = λ v limit filter. raised (outside "sparse");
  k = 60;
}

search_async_outage_example :
    (broken_engine.search_dense 1 40 (filter_of none) ≡ raised (outside "dense"))
    × ((other : SearchError) × (broken_engine.search_sparse 2 40 (filter_of none) ≡ raised other))
unfolding search_async
search_async_outage_example =
    search_async_outage thousandths broken_engine "water" 40 500 none (1, 2) (outside "dense") refl
      refl refl refl refl

abbrev hit : String → String → ℕ → SearchHit thousandths
hit id text score = record {
  chunk_id = id;
  score = score;
  payload = some (payload id text);
  dense_score = some score;
}

abbrev found : List (Option (List (SearchHit thousandths)))
found =
    some (hit "c1" "water" 3 ∷ hit "c2" "snow" 2 ∷ []) ∷ none ∷ some (hit "c2" "snow" 5 ∷ []) ∷ []

merge_hits-IsBest_example :
    All
      (λ h. Among h (all_hits found) × IsBest thousandths (all_hits found) h)
      (merge_hits thousandths found 8)
merge_hits-IsBest_example = merge_hits-IsBest thousandths thousandths-IsOrdered found 8

abbrev candidates : List CandidateQuery
candidates =
    record { text = "water"; kind = "original" }
    ∷ record { text = "rain"; kind = "synonym" }
    ∷ record { text = "rain"; kind = "kg" }
    ∷ []

abbrev score_all : List String → List ℕ
score_all [] = []
score_all (t ∷ ts) = 100 ∷ score_all ts

abbrev runner : Runner thousandths
runner = record {
  reranking_enabled = true;
  evidence_floor = 50;
  default_top_n = 8;
  candidates = 40;
  score = λ query texts. score_all texts;
  nfc = λ t. t;
  sha256 = λ t. "digest";
}

abbrev merged : List (SearchHit thousandths)
unfolding merge_hits
merged = merge_hits thousandths found 8

abbrev ranked : List (RankedHit thousandths)
unfolding rerank
ranked = rerank thousandths runner merged "ma" "water"

rerank-IsMaximum_example :
    let texts = map (text_of_hit thousandths) merged in
    All
      (IsMaximum thousandths thousandths-IsOrdered merged
        (runner.score "ma" texts)
        (runner.score "water" texts))
      (rerank thousandths runner merged "ma" "water")
rerank-IsMaximum_example =
    rerank-IsMaximum thousandths thousandths-IsOrdered runner merged "ma" "water" refl

compress-rerank_example :
    compress thousandths runner (rerank thousandths runner merged "ma" "water") none
    ≡ map (chunk_of thousandths) (
        take (max 1 (top_n_of thousandths runner none)) (
          first_signed thousandths runner [] (
            select
              (λ x. not (is_below thousandths runner x))
              (rerank thousandths runner merged "ma" "water"))))
compress-rerank_example =
    compress-rerank thousandths thousandths-IsOrdered runner merged "ma" "water" none refl

abbrev services : Services
services = record {
  prepare = λ query. returned (record { display = query; canonical = query });
  language = λ text. returned "ar";
  translate = λ text lang. raised (outside "translator");
  expand = λ original canonical. returned candidates;
  normalize = λ text. text;
}

abbrev prepared : PreparedQuery
prepared = record { display = "water"; canonical = "water" }

retrieve_prepared_outage_example :
    Causes thousandths runner broken_engine 500 none prepared
      (outside "dense")
      (returned candidates)
unfolding retrieve_prepared
retrieve_prepared_outage_example =
    retrieve_prepared_outage thousandths runner broken_engine 500 services none none prepared "ar"
      (outside "dense") refl

-- alef with hamza, a letter and a vowel mark
abbrev letters : Text
letters = 0x623 ∷ 0x628 ∷ 0x64E ∷ []

abbrev same_form : Text → Text
same_form t = t
