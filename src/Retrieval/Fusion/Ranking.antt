-- ===== src/Retrieval/Fusion/Ranking.antt =====
-- The shape of the result of `rrf_fuse`, and the failures of `_search_async`, in
-- app/services/hybrid_search.py.
use fiqhmind_ai_backend.Prelude.{
  ℕ, suc, ◌≤◌, ◌≡◌, refl, sym, ap, ◌∙◌, false, String, Option, none, some, List, [], ◌∷◌, map,
  arith, ◌==◌, length, take, length-take, All-map,
}
use fiqhmind_ai_backend.Retrieval.Scores.{Floats, IsOrdered}
use fiqhmind_ai_backend.Retrieval.Order.{
  sort_desc, Descends, NotAbove, sort_desc-Descends, take-Descends,
}
use fiqhmind_ai_backend.Retrieval.Dict.{
  Distinct, OtherName, key_of, put-Distinct, sort_desc-Distinct, take-Distinct,
}
use fiqhmind_ai_backend.Retrieval.Types.{ScoredPoint, SearchHit}
use fiqhmind_ai_backend.Retrieval.Fusion.{
  Tally, Answer, returned, raised, SearchError, Engine, PayloadFilter, chunk_id_of, note_dense,
  note_sparse, tally_dense, tally_sparse, tally, hit_of, up_to, score_of, ordered_hits, rrf_fuse,
  fuse_results, search_async, search_embedded, filter_of,
}

-- at most `limit`, where there is one
abbrev pub AtMost {ℓ} : {A : Type ℓ} → Option ℕ → List A → Type 0
AtMost none xs = Unit
AtMost (some n) xs = length xs ≤ n

module _ (fl : Floats) where
  -- the identifier and the score of a hit
  abbrev pub hit_id : SearchHit fl → String
  hit_id hit = hit.chunk_id

  abbrev pub hit_score : SearchHit fl → fl.F
  hit_score hit = hit.score

  -- Distinct chunks, the scores descending, at most `limit` of them.
  abbrev pub IsRanking : Option ℕ → List (SearchHit fl) → Type 0
  IsRanking limit hits = Distinct hit_id hits × Descends fl hit_score hits × AtMost limit hits

  tally_dense-Distinct :
      (alpha : fl.F) (k rank : ℕ) (ps : List (ScoredPoint fl)) (t : Tally fl)
      → Distinct key_of t.scores
      → Distinct key_of (tally_dense fl alpha k rank ps t).scores
  unfolding tally_dense
  tally_dense-Distinct alpha k rank [] t h = h
  tally_dense-Distinct alpha k rank (p ∷ ps) t h =
      tally_dense-Distinct alpha k (suc rank) ps (note_dense fl alpha k rank p t)
        (put-Distinct (chunk_id_of fl p) _ t.scores h)

  tally_sparse-Distinct :
      (alpha : fl.F) (k rank : ℕ) (ps : List (ScoredPoint fl)) (t : Tally fl)
      → Distinct key_of t.scores
      → Distinct key_of (tally_sparse fl alpha k rank ps t).scores
  unfolding tally_sparse
  tally_sparse-Distinct alpha k rank [] t h = h
  tally_sparse-Distinct alpha k rank (p ∷ ps) t h =
      tally_sparse-Distinct alpha k (suc rank) ps (note_sparse fl alpha k rank p t)
        (put-Distinct (chunk_id_of fl p) _ t.scores h)

  pub tally-Distinct :
      (alpha : fl.F) (k : ℕ) (dense sparse : List (ScoredPoint fl))
      → Distinct key_of (tally fl alpha k dense sparse).scores
  unfolding tally
  tally-Distinct alpha k dense sparse =
      tally_sparse-Distinct alpha k 1 sparse _ (tally_dense-Distinct alpha k 1 dense _ tt)

  map-Distinct :
      (t : Tally fl) (xs : List (String × fl.F))
      → Distinct key_of xs
      → Distinct hit_id (map (hit_of fl t) xs)
  map-Distinct t [] h = tt
  map-Distinct t (x ∷ xs) h =
      (All-map (hit_of fl t) (OtherName hit_id x.0) xs h.0, map-Distinct t xs h.1)

  map-Descends :
      (t : Tally fl) (xs : List (String × fl.F))
      → Descends fl (score_of fl) xs
      → Descends fl hit_score (map (hit_of fl t) xs)
  map-Descends t [] h = tt
  map-Descends t (x ∷ xs) h =
      (All-map (hit_of fl t) (NotAbove fl hit_score (hit_of fl t x)) xs h.0, map-Descends t xs h.1)

  length-map :
      (t : Tally fl) (xs : List (String × fl.F)) → length (map (hit_of fl t) xs) ≡ length xs
  length-map t [] = refl
  length-map t (x ∷ xs) = ap suc (length-map t xs)

  map-AtMost :
      (t : Tally fl) (limit : Option ℕ) (xs : List (String × fl.F))
      → AtMost limit (map (hit_of fl t) (up_to fl limit xs))
  map-AtMost t none xs = tt
  map-AtMost t (some n) xs = omega (arith, length-map t (take n xs), length-take n xs)

  -- Where `rrf_fuse` returns, its arguments were valid and the hits are those of the tally.
  pub rrf_fuse-returned :
      (dense sparse : List (ScoredPoint fl)) (k : ℕ) (alpha : fl.F) (limit : Option ℕ)
      (hits : List (SearchHit fl))
      → rrf_fuse fl dense sparse k alpha limit ≡ returned hits
      → hits ≡ ordered_hits fl (tally fl alpha k dense sparse) limit
  unfolding rrf_fuse
  rrf_fuse-returned dense sparse k alpha limit hits = ground arith

  up_to-Distinct :
      (limit : Option ℕ) (xs : List (String × fl.F))
      → Distinct key_of xs
      → Distinct key_of (up_to fl limit xs)
  up_to-Distinct none xs h = h
  up_to-Distinct (some n) xs h = take-Distinct key_of n xs h

module _ (fl : Floats) (ordered : IsOrdered fl) where
  up_to-Descends :
      (limit : Option ℕ) (xs : List (String × fl.F))
      → Descends fl (score_of fl) xs
      → Descends fl (score_of fl) (up_to fl limit xs)
  up_to-Descends none xs h = h
  up_to-Descends (some n) xs h = take-Descends fl ordered (score_of fl) n xs h

  ordered_hits-IsRanking :
      (t : Tally fl) (limit : Option ℕ)
      → Distinct key_of t.scores
      → IsRanking fl limit (ordered_hits fl t limit)
  unfolding ordered_hits
  ordered_hits-IsRanking t limit h =
      let sorted = sort_desc fl (score_of fl) t.scores in
      (
        map-Distinct fl t (up_to fl limit sorted) (
            up_to-Distinct fl limit sorted (sort_desc-Distinct fl (score_of fl) key_of t.scores h)),
        map-Descends fl t (up_to fl limit sorted)
            (up_to-Descends limit sorted (sort_desc-Descends fl ordered (score_of fl) t.scores)),
        map-AtMost fl t limit sorted,
      )

  -- When the order of the scores is that of floats that are no NaN and `rrf_fuse` returns, no two of
  -- its hits have the same chunk, the scores descend, and there are at most `limit` hits.
  pub rrf_fuse-IsRanking :
      (dense sparse : List (ScoredPoint fl)) (k : ℕ) (alpha : fl.F) (limit : Option ℕ)
      (hits : List (SearchHit fl))
      → rrf_fuse fl dense sparse k alpha limit ≡ returned hits
      → IsRanking fl limit hits
  rrf_fuse-IsRanking dense sparse k alpha limit hits h =
      rw (rrf_fuse-returned fl dense sparse k alpha limit hits h) (
        ordered_hits-IsRanking (tally fl alpha k dense sparse) limit
          (tally-Distinct fl alpha k dense sparse))

module _ (fl : Floats) where
  rrf_fuse-raised :
      (dense sparse : List (ScoredPoint fl)) (k : ℕ) (alpha : fl.F) (limit : Option ℕ)
      (error : SearchError)
      → fl.lt alpha fl.zero ≡ false
      → fl.lt fl.one alpha ≡ false
      → (k == 0) ≡ false
      → ¬ (rrf_fuse fl dense sparse k alpha limit ≡ raised error)
  unfolding rrf_fuse
  rrf_fuse-raised dense sparse k alpha limit error below above positive h = ground arith

  fuse_results-raised :
      (d s : Answer (List (ScoredPoint fl))) (k : ℕ) (alpha : fl.F) (limit : ℕ)
      (error : SearchError)
      → fl.lt alpha fl.zero ≡ false
      → fl.lt fl.one alpha ≡ false
      → (k == 0) ≡ false
      → fuse_results fl d s k alpha limit ≡ raised error
      → (d ≡ raised error) × ((other : SearchError) × (s ≡ raised other))
  unfolding fuse_results
  fuse_results-raised (raised e) (raised other) k alpha limit error below above positive h =
      (ground arith, (other, refl))
  fuse_results-raised (raised e) (returned s) k alpha limit error below above positive h =
      absurd (rrf_fuse-raised [] s k alpha (some limit) error below above positive h)
  fuse_results-raised (returned d) (raised other) k alpha limit error below above positive h =
      absurd (rrf_fuse-raised d [] k alpha (some limit) error below above positive h)
  fuse_results-raised (returned d) (returned s) k alpha limit error below above positive h =
      absurd (rrf_fuse-raised d s k alpha (some limit) error below above positive h)

  -- With `alpha` in its range, a positive `k` and an embedding of the query, the search raises an
  -- error only where both sides failed, and it is the error of the dense side.
  pub search_async_outage :
      (e : Engine fl) (query : String) (limit : ℕ) (alpha : fl.F) (filters : Option PayloadFilter)
      (v : e.Vector × e.Sparse) (error : SearchError)
      → fl.lt alpha fl.zero ≡ false
      → fl.lt fl.one alpha ≡ false
      → (e.k == 0) ≡ false
      → e.embed query ≡ returned v
      → search_async fl e query limit alpha filters ≡ raised error
      → (e.search_dense v.0 limit (filter_of filters) ≡ raised error)
        × ((other : SearchError) × (e.search_sparse v.1 limit (filter_of filters) ≡ raised other))
  unfolding search_async search_embedded
  search_async_outage e query limit alpha filters v error below above positive embedded h =
      fuse_results-raised (e.search_dense v.0 limit (filter_of filters))
        (e.search_sparse v.1 limit (filter_of filters)) e.k alpha limit error below above positive
        (sym (ap (search_embedded fl e limit alpha filters) embedded) ∙ h)
