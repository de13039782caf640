-- ===== src/Retrieval/Fusion/Credit.antt =====
-- The scores of `rrf_fuse` of app/services/hybrid_search.py: each hit has the sum of what the ranks
-- of its chunk are worth in the two lists.
use text.Mathlib.Text.{◌==◌ as str_eq}
use text.Mathlib.TextEquality.{eq_iff}
use fiqhmind_ai_backend.Prelude.{
  ℕ, suc, ◌+◌, ◌≡◌, refl, sym, ap, ◌∙◌, Bool, true, false, String, Option, none, some, List, [],
  ◌∷◌, map, arith, if◌then◌else◌, All,
}
use fiqhmind_ai_backend.Retrieval.Scores.{Floats}
use fiqhmind_ai_backend.Retrieval.Order.{sort_desc, sort_desc-All, take-All}
use fiqhmind_ai_backend.Retrieval.Dict.{get, get-put, Distinct, OtherName, key_of}
use fiqhmind_ai_backend.Retrieval.Types.{ScoredPoint, SearchHit}
use fiqhmind_ai_backend.Retrieval.Fusion.{
  Tally, returned, chunk_id_of, or_zero, bump, note_dense, note_sparse, tally_dense, tally_sparse,
  tally, hit_of, up_to, score_of, ordered_hits, rrf_fuse,
}
use fiqhmind_ai_backend.Retrieval.Fusion.Ranking.{rrf_fuse-returned, tally-Distinct}

module _ (fl : Floats) where
  -- the ranks, from `rank` on, at which a list has a chunk
  abbrev pub ranks_of : String → ℕ → List (ScoredPoint fl) → List ℕ
  ranks_of id rank [] = []
  ranks_of id rank (p ∷ ps) =
      let later = ranks_of id (suc rank) ps in
      if str_eq (chunk_id_of fl p) id then rank ∷ later else later

  -- `total`, and for each of the ranks `weight / (k + rank)` more
  abbrev pub add_ranks : fl.F → ℕ → fl.F → List ℕ → fl.F
  add_ranks weight k total [] = total
  add_ranks weight k total (rank ∷ ranks) =
      add_ranks weight k (fl.add total (fl.over weight (k + rank))) ranks

  -- The sum of reciprocal ranks of a chunk: `alpha` for the dense list, the rest for the sparse one.
  abbrev pub fused_score : fl.F → ℕ → List (ScoredPoint fl) → List (ScoredPoint fl) → String → fl.F
  fused_score alpha k dense sparse id =
      add_ranks (fl.sub fl.one alpha) k (add_ranks alpha k fl.zero (ranks_of id 1 dense))
        (ranks_of id 1 sparse)

  -- the score of a chunk so far
  abbrev score_at : String → Tally fl → fl.F
  score_at id t = or_zero fl (get id t.scores)

  bump_score :
      (id j : String) (amount : fl.F) (scores : List (String × fl.F))
      → or_zero fl (get j (bump fl id amount scores)) ≡ (
          if str_eq id j
          then fl.add (or_zero fl (get j scores)) amount
          else or_zero fl (get j scores))
  bump_score id j amount scores =
      ground (arith, get-put id j (fl.add (or_zero fl (get id scores)) amount) scores, eq_iff id j)

  add_ranks_step :
      (same : Bool) (weight : fl.F) (k rank : ℕ) (total next : fl.F) (ranks : List ℕ)
      → next ≡ (if same then fl.add total (fl.over weight (k + rank)) else total)
      → add_ranks weight k next ranks
        ≡ add_ranks weight k total (if same then rank ∷ ranks else ranks)
  add_ranks_step true weight k rank total next ranks h = ap (λ x. add_ranks weight k x ranks) h
  add_ranks_step false weight k rank total next ranks h = ap (λ x. add_ranks weight k x ranks) h

  tally_dense-score :
      (alpha : fl.F) (k rank : ℕ) (ps : List (ScoredPoint fl)) (t : Tally fl) (id : String)
      → score_at id (tally_dense fl alpha k rank ps t)
        ≡ add_ranks alpha k (score_at id t) (ranks_of id rank ps)
  unfolding tally_dense
  tally_dense-score alpha k rank [] t id = refl
  tally_dense-score alpha k rank (p ∷ ps) t id =
      tally_dense-score alpha k (suc rank) ps (note_dense fl alpha k rank p t) id
      ∙ add_ranks_step (str_eq (chunk_id_of fl p) id) alpha k rank (score_at id t)
          (score_at id (note_dense fl alpha k rank p t)) (ranks_of id (suc rank) ps)
          (bump_score (chunk_id_of fl p) id (fl.over alpha (k + rank)) t.scores)

  tally_sparse-score :
      (alpha : fl.F) (k rank : ℕ) (ps : List (ScoredPoint fl)) (t : Tally fl) (id : String)
      → score_at id (tally_sparse fl alpha k rank ps t)
        ≡ add_ranks (fl.sub fl.one alpha) k (score_at id t) (ranks_of id rank ps)
  unfolding tally_sparse
  tally_sparse-score alpha k rank [] t id = refl
  tally_sparse-score alpha k rank (p ∷ ps) t id =
      tally_sparse-score alpha k (suc rank) ps (note_sparse fl alpha k rank p t) id
      ∙ add_ranks_step (str_eq (chunk_id_of fl p) id) (fl.sub fl.one alpha) k rank (score_at id t)
          (score_at id (note_sparse fl alpha k rank p t)) (ranks_of id (suc rank) ps)
          (bump_score (chunk_id_of fl p) id (fl.over (fl.sub fl.one alpha) (k + rank)) t.scores)

  tally-score :
      (alpha : fl.F) (k : ℕ) (dense sparse : List (ScoredPoint fl)) (id : String)
      → score_at id (tally fl alpha k dense sparse) ≡ fused_score alpha k dense sparse id
  unfolding tally
  tally-score alpha k dense sparse id =
      tally_sparse-score alpha k 1 sparse _ id
      ∙ ap (λ x. add_ranks (fl.sub fl.one alpha) k x (ranks_of id 1 sparse))
          (tally_dense-score alpha k 1 dense _ id)

  -- an item has the score that its key has in the dictionary
  abbrev Found : List (String × fl.F) → String × fl.F → Type 0
  Found scores entry = or_zero fl (get entry.0 scores) ≡ entry.1

  Found-later :
      (e : String × fl.F) (scores rest : List (String × fl.F))
      → All (OtherName key_of e.0) rest
      → All (Found scores) rest
      → All (Found (e ∷ scores)) rest
  Found-later e scores [] other h = tt
  Found-later e scores (x ∷ rest) other h =
      (ground (arith, eq_iff e.0 x.0), Found-later e scores rest other.1 h.1)

  Found-entries :
      (scores : List (String × fl.F)) → Distinct key_of scores → All (Found scores) scores
  Found-entries [] h = tt
  Found-entries (e ∷ scores) h =
      (ground (arith, eq_iff e.0 e.0), Found-later e scores scores h.0 (Found-entries scores h.1))

  up_to-All :
      (P : String × fl.F → Type 0) (limit : Option ℕ) (xs : List (String × fl.F))
      → All P xs
      → All P (up_to fl limit xs)
  up_to-All P none xs h = h
  up_to-All P (some n) xs h = take-All P n xs h

  -- a hit has the sum of reciprocal ranks of its chunk
  abbrev pub IsFused :
      fl.F → ℕ → List (ScoredPoint fl) → List (ScoredPoint fl) → SearchHit fl → Type 0
  IsFused alpha k dense sparse hit = hit.score ≡ fused_score alpha k dense sparse hit.chunk_id

  IsFused-entries :
      (alpha : fl.F) (k : ℕ) (dense sparse : List (ScoredPoint fl)) (t : Tally fl)
      (xs : List (String × fl.F))
      → t ≡ tally fl alpha k dense sparse
      → All (Found t.scores) xs
      → All (IsFused alpha k dense sparse) (map (hit_of fl t) xs)
  IsFused-entries alpha k dense sparse t [] same h = tt
  IsFused-entries alpha k dense sparse t (x ∷ xs) same h = (
    sym h.0 ∙ ap (score_at x.0) same ∙ tally-score alpha k dense sparse x.0,
    IsFused-entries alpha k dense sparse t xs same h.1,
  )

  -- Where `rrf_fuse` returns, the score of each hit is the sum, over the ranks of its chunk counted
  -- from 1, of `alpha / (k + rank)` in the dense list and `(1 - alpha) / (k + rank)` in the sparse one.
  pub rrf_fuse-IsFused :
      (dense sparse : List (ScoredPoint fl)) (k : ℕ) (alpha : fl.F) (limit : Option ℕ)
      (hits : List (SearchHit fl))
      → rrf_fuse fl dense sparse k alpha limit ≡ returned hits
      → All (IsFused alpha k dense sparse) hits
  unfolding ordered_hits
  rrf_fuse-IsFused dense sparse k alpha limit hits h =
      let t = tally fl alpha k dense sparse in
      rw (rrf_fuse-returned fl dense sparse k alpha limit hits h) (
        IsFused-entries alpha k dense sparse t
          (up_to fl limit (sort_desc fl (score_of fl) t.scores)) refl
          (up_to-All (Found t.scores) limit (sort_desc fl (score_of fl) t.scores) (
            sort_desc-All fl (score_of fl) (Found t.scores) t.scores
              (Found-entries t.scores (tally-Distinct fl alpha k dense sparse)))))
