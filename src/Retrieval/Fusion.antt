-- ===== src/Retrieval/Fusion.antt =====
-- `rrf_fuse`, `_chunk_id_of`, `build_payload_filter` and `HybridSearchService._search_async` of
-- app/services/hybrid_search.py. The embedder and the vector store are parameters.
pub mod Ranking
pub mod Credit
use text.Mathlib.Text.{◌==◌ as str_eq}
use fiqhmind_ai_backend.Prelude.{
  ℕ, suc, ◌+◌, Bool, true, false, not, ◌||◌, String, Option, none, some, List, [], ◌∷◌, ◌++◌, map,
  ◌==◌, if◌then◌else◌, take,
}
use fiqhmind_ai_backend.Retrieval.Scores.{Floats}
use fiqhmind_ai_backend.Retrieval.Order.{sort_desc}
use fiqhmind_ai_backend.Retrieval.Dict.{get, put, set_default}
use fiqhmind_ai_backend.Retrieval.Types.{Payload, ScoredPoint, SearchHit}

-- `text or fallback`: the empty string is false
abbrev pub or_text : Option String → String → String
or_text none fallback = fallback
or_text (some text) fallback = if str_eq text "" then fallback else text

-- `PayloadFilter`
pub record PayloadFilter : Type 0 where
  pub book_id : Option String
  pub volume : Option String
  pub region : Option String
  pub verified : Option Bool

-- a `models.FieldCondition`
pub data Condition : Type 0 where
  text_is : String → String → Condition
  flag_is : String → Bool → Condition

abbrev pub text_condition : String → Option String → List Condition
text_condition key none = []
text_condition key (some value) = text_is key value ∷ []

abbrev pub flag_condition : String → Option Bool → List Condition
flag_condition key none = []
flag_condition key (some value) = flag_is key value ∷ []

-- `if not conditions: return None`
abbrev pub must : List Condition → Option (List Condition)
must [] = none
must (c ∷ cs) = some (c ∷ cs)

-- `build_payload_filter`
abbrev pub build_payload_filter : PayloadFilter → Option (List Condition)
build_payload_filter filters = must (
    text_condition "book_id" filters.book_id
    ++ text_condition "volume" filters.volume
    ++ text_condition "region" filters.region
    ++ flag_condition "verified" filters.verified)

-- `filters.__dict__ if filters is not None else {}`
abbrev pub filter_of : Option PayloadFilter → Option (List Condition)
filter_of none = none
filter_of (some filters) = build_payload_filter filters

-- the `ValueError` of `rrf_fuse`, or an error of the embedder, the store or the expansion
pub data SearchError : Type 0 where
  bad_alpha : SearchError
  bad_k : SearchError
  outside : String → SearchError

-- what a call returns or raises
pub data Answer (A : Type 0) : Type 0 where
  returned : A → Answer A
  raised : SearchError → Answer A

module _ (fl : Floats) where
  -- `_chunk_id_of`
  abbrev pub chunk_id_of : ScoredPoint fl → String
  chunk_id_of point = elim point.payload [
    | none ↦ point.id
    | some payload ↦ or_text payload.chunk_id point.id
  ]

  -- a value of a `defaultdict(float)`
  abbrev pub or_zero : Option fl.F → fl.F
  or_zero none = fl.zero
  or_zero (some x) = x

  -- `scores[chunk_id] += amount`
  abbrev pub bump : String → fl.F → List (String × fl.F) → List (String × fl.F)
  bump id amount scores = put id (fl.add (or_zero (get id scores)) amount) scores

  -- the dictionaries of `rrf_fuse`
  pub record Tally : Type 0 where
    pub scores : List (String × fl.F)
    pub payloads : List (String × Payload)
    pub dense_scores : List (String × fl.F)

  -- `if point.payload: payloads.setdefault(chunk_id, point.payload)`
  abbrev pub note_payload :
      String → Option Payload → List (String × Payload) → List (String × Payload)
  note_payload id none payloads = payloads
  note_payload id (some payload) payloads = set_default id payload payloads

  -- the body of the loop over `dense`
  abbrev pub note_dense : fl.F → ℕ → ℕ → ScoredPoint fl → Tally → Tally
  note_dense alpha k rank point t = record {
    scores = bump (chunk_id_of point) (fl.over alpha (k + rank)) t.scores;
    payloads = note_payload (chunk_id_of point) point.payload t.payloads;
    dense_scores = set_default (chunk_id_of point) point.score t.dense_scores;
  }

  -- the body of the loop over `sparse`
  abbrev pub note_sparse : fl.F → ℕ → ℕ → ScoredPoint fl → Tally → Tally
  note_sparse alpha k rank point t = record t {
    scores = bump (chunk_id_of point) (fl.over (fl.sub fl.one alpha) (k + rank)) t.scores;
    payloads = note_payload (chunk_id_of point) point.payload t.payloads;
  }

  -- `enumerate(dense, start=rank)`
  unfoldable pub tally_dense : fl.F → ℕ → ℕ → List (ScoredPoint fl) → Tally → Tally
  tally_dense alpha k rank [] t = t
  tally_dense alpha k rank (p ∷ ps) t =
      tally_dense alpha k (suc rank) ps (note_dense alpha k rank p t)

  unfoldable pub tally_sparse : fl.F → ℕ → ℕ → List (ScoredPoint fl) → Tally → Tally
  tally_sparse alpha k rank [] t = t
  tally_sparse alpha k rank (p ∷ ps) t =
      tally_sparse alpha k (suc rank) ps (note_sparse alpha k rank p t)

  -- the dictionaries after both loops
  unfoldable pub tally : fl.F → ℕ → List (ScoredPoint fl) → List (ScoredPoint fl) → Tally
  unfolding tally_dense tally_sparse
  tally alpha k dense sparse =
      tally_sparse alpha k 1 sparse
        (tally_dense alpha k 1 dense (record { scores = []; payloads = []; dense_scores = [] }))

  -- `SearchHit(…)` of an item of `ordered`
  abbrev pub hit_of : Tally → String × fl.F → SearchHit fl
  hit_of t entry = record {
    chunk_id = entry.0;
    score = entry.1;
    payload = get entry.0 t.payloads;
    dense_score = get entry.0 t.dense_scores;
  }

  -- `if limit is not None: ordered = ordered[:limit]`
  abbrev pub up_to {ℓ} : {A : Type ℓ} → Option ℕ → List A → List A
  up_to none xs = xs
  up_to (some n) xs = take n xs

  -- the score of an item
  abbrev pub score_of : String × fl.F → fl.F
  score_of entry = entry.1

  abbrev pub ordered_hits : Tally → Option ℕ → List (SearchHit fl)
  unfolding sort_desc
  ordered_hits t limit = map (hit_of t) (up_to limit (sort_desc fl score_of t.scores))

  -- `rrf_fuse`; of an `alpha` that is no NaN, `0.0 <= alpha` is the negation of `alpha < 0.0`
  unfoldable pub rrf_fuse :
      List (ScoredPoint fl)
      → List (ScoredPoint fl)
      → ℕ
      → fl.F
      → Option ℕ
      → Answer (List (SearchHit fl))
  unfolding tally ordered_hits
  rrf_fuse dense sparse k alpha limit =
      if fl.lt alpha fl.zero || fl.lt fl.one alpha
      then raised bad_alpha
      else if k == 0
      then raised bad_k
      else returned (ordered_hits (tally alpha k dense sparse) limit)

  -- the two awaited results of `asyncio.gather(…, return_exceptions=True)`
  unfoldable pub fuse_results :
      Answer (List (ScoredPoint fl))
      → Answer (List (ScoredPoint fl))
      → ℕ
      → fl.F
      → ℕ
      → Answer (List (SearchHit fl))
  unfolding rrf_fuse
  fuse_results (raised error) (raised _) k alpha limit = raised error
  fuse_results (raised _) (returned sparse) k alpha limit = rrf_fuse [] sparse k alpha (some limit)
  fuse_results (returned dense) (raised _) k alpha limit = rrf_fuse dense [] k alpha (some limit)
  fuse_results (returned dense) (returned sparse) k alpha limit =
      rrf_fuse dense sparse k alpha (some limit)

  -- the embedder and the store: an embedding of the query, and the two searches of the store
  pub record Engine : Type 1 where
    pub Vector : Type 0
    pub Sparse : Type 0
    pub embed : String → Answer (Vector × Sparse)
    pub search_dense : Vector → ℕ → Option (List Condition) → Answer (List (ScoredPoint fl))
    pub search_sparse : Sparse → ℕ → Option (List Condition) → Answer (List (ScoredPoint fl))
    -- `self._k`
    pub k : ℕ

  -- `HybridSearchService._search_async` after the embedding
  unfoldable pub search_embedded :
      (e : Engine)
      → ℕ
      → fl.F
      → Option PayloadFilter
      → Answer (e.Vector × e.Sparse)
      → Answer (List (SearchHit fl))
  unfolding fuse_results
  search_embedded e limit alpha filters (raised error) = raised error
  search_embedded e limit alpha filters (returned v) =
      fuse_results (e.search_dense v.0 limit (filter_of filters))
        (e.search_sparse v.1 limit (filter_of filters)) e.k alpha limit

  -- `HybridSearchService._search_async`
  unfoldable pub search_async :
      Engine → String → ℕ → fl.F → Option PayloadFilter → Answer (List (SearchHit fl))
  unfolding search_embedded
  search_async e query limit alpha filters = search_embedded e limit alpha filters (e.embed query)
