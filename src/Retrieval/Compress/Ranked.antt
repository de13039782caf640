-- ===== src/Retrieval/Compress/Ranked.antt =====
-- The scores that `_rerank` of app/services/retrieval.py gives.
use fiqhmind_ai_backend.Prelude.{
  ℕ, suc, ◌≡◌, ◌∙◌, ◌⊎◌, get_elem?, All-step, refl, inl, inr, true, false, String, some, List, [],
  ◌∷◌, map, Bool-cases, All,
}
use fiqhmind_ai_backend.Retrieval.Scores.{Floats, IsOrdered}
use fiqhmind_ai_backend.Retrieval.Order.{sort_desc-All}
use fiqhmind_ai_backend.Retrieval.Types.{SearchHit, RankedHit}
use fiqhmind_ai_backend.Retrieval.Fusion.{or_zero}
use fiqhmind_ai_backend.Retrieval.Compress.{
  Runner, rerank, ranked_hits, max_of, text_of_hit, max_score_of, ranked_hit,
}

module _ (fl : Floats) (ordered : IsOrdered fl) where
  max_of-left : (a b : fl.F) → fl.lt (max_of fl a b) a ≡ false
  max_of-left a b = elim (Bool-cases (fl.lt a b)) [
    | inl below ↦ rw below (ordered.asym a b below)
    | inr above ↦ rw above (ordered.irrefl a)
  ]

  max_of-right : (a b : fl.F) → fl.lt (max_of fl a b) b ≡ false
  max_of-right a b = elim (Bool-cases (fl.lt a b)) [
    | inl below ↦ rw below (ordered.irrefl b)
    | inr above ↦ rw above above
  ]

  -- An item has the two scores of the reranker for its hit, `arabic` and `original` being the lists
  -- of them in the order of the hits; its score is one of these two or that of the dense search, and
  -- no lower than any of the three.
  pub record IsMaximum (hits : List (SearchHit fl)) (arabic original : List fl.F)
      (item : RankedHit fl) : Type 0 where
    pub position : ℕ
    pub a : fl.F
    pub o : fl.F
    pub of_hit : get_elem? hits position ≡ some item.hit
    pub of_arabic : get_elem? arabic position ≡ some a
    pub of_original : get_elem? original position ≡ some o
    pub keeps_arabic : item.arabic_score ≡ some a
    pub keeps_original : item.original_score ≡ some o
    pub above_arabic : fl.lt item.max_score a ≡ false
    pub above_original : fl.lt item.max_score o ≡ false
    pub above_dense : fl.lt item.max_score (or_zero fl item.hit.dense_score) ≡ false
    pub attained :
        (item.max_score ≡ a)
        ⊎ (item.max_score ≡ o)
        ⊎ (item.max_score ≡ or_zero fl item.hit.dense_score)

  max_of-attained : (a b : fl.F) → (max_of fl a b ≡ a) ⊎ (max_of fl a b ≡ b)
  max_of-attained a b = elim (Bool-cases (fl.lt a b)) [
    | inl below ↦ inr (rw below refl)
    | inr above ↦ inl (rw above refl)
  ]

  max_of_both-attained :
      (a o d : fl.F)
      → (max_of fl (max_of fl a o) d ≡ a)
        ⊎ (max_of fl (max_of fl a o) d ≡ o)
        ⊎ (max_of fl (max_of fl a o) d ≡ d)
  max_of_both-attained a o d = elim (max_of-attained (max_of fl a o) d) [
    | inr dense ↦ inr (inr dense)
    | inl scored ↦ elim (max_of-attained a o) [
      | inl same ↦ inl (scored ∙ same)
      | inr same ↦ inr (inl (scored ∙ same))
    ]
  ]

  ranked_hit-IsMaximum :
      (hit : SearchHit fl) (a o : fl.F) (hits : List (SearchHit fl)) (arabic original : List fl.F)
      → IsMaximum (hit ∷ hits) (a ∷ arabic) (o ∷ original) (ranked_hit fl hit a o)
  ranked_hit-IsMaximum hit a o hits arabic original =
      let both = max_of fl a o in
      let dense = or_zero fl hit.dense_score in
      record {
        position = 0;
        a = a;
        o = o;
        of_hit = refl;
        of_arabic = refl;
        of_original = refl;
        keeps_arabic = refl;
        keeps_original = refl;
        above_arabic =
            ordered.cotrans (max_of fl both dense) both a (max_of-left both dense)
              (max_of-left a o);
        above_original =
            ordered.cotrans (max_of fl both dense) both o (max_of-left both dense)
              (max_of-right a o);
        above_dense = max_of-right both dense;
        attained = max_of_both-attained a o dense;
      }

  IsMaximum-later :
      (hit : SearchHit fl) (a o : fl.F) (hits : List (SearchHit fl)) (arabic original : List fl.F)
      (item : RankedHit fl)
      → IsMaximum hits arabic original item
      → IsMaximum (hit ∷ hits) (a ∷ arabic) (o ∷ original) item
  IsMaximum-later hit a o hits arabic original item m = record {
    position = suc m.position;
    a = m.a;
    o = m.o;
    of_hit = m.of_hit;
    of_arabic = m.of_arabic;
    of_original = m.of_original;
    keeps_arabic = m.keeps_arabic;
    keeps_original = m.keeps_original;
    above_arabic = m.above_arabic;
    above_original = m.above_original;
    above_dense = m.above_dense;
    attained = m.attained;
  }

  ranked_hits-IsMaximum :
      (hits : List (SearchHit fl)) (arabic original : List fl.F)
      → All (IsMaximum hits arabic original) (ranked_hits fl hits arabic original)
  unfolding ranked_hits
  ranked_hits-IsMaximum [] arabic original = tt
  ranked_hits-IsMaximum (hit ∷ hits) [] original = tt
  ranked_hits-IsMaximum (hit ∷ hits) (a ∷ arabic) [] = tt
  ranked_hits-IsMaximum (hit ∷ hits) (a ∷ arabic) (o ∷ original) = (
    ranked_hit-IsMaximum hit a o hits arabic original,
    All-step (IsMaximum hits arabic original) (IsMaximum (hit ∷ hits) (a ∷ arabic) (o ∷ original))
        (ranked_hits fl hits arabic original) (IsMaximum-later hit a o hits arabic original)
        (ranked_hits-IsMaximum hits arabic original),
  )

  -- When reranking is enabled and the order of the scores is that of floats that are no NaN, each
  -- reranked hit is one of the merged hits and has the score that the reranker gives its text for the
  -- Arabic query and that for the original query; its own score is one of these two or that of the
  -- dense search, zero without one, and no lower than any of the three.
  pub rerank-IsMaximum :
      (r : Runner fl) (merged : List (SearchHit fl)) (canonical_arabic original_query : String)
      → r.reranking_enabled ≡ true
      → let texts = map (text_of_hit fl) merged in
        All
          (IsMaximum merged (r.score canonical_arabic texts) (r.score original_query texts))
          (rerank fl r merged canonical_arabic original_query)
  unfolding rerank
  rerank-IsMaximum r merged canonical_arabic original_query enabled =
      let arabic = r.score canonical_arabic (map (text_of_hit fl) merged) in
      let original = r.score original_query (map (text_of_hit fl) merged) in
      rw enabled (
        sort_desc-All fl (max_score_of fl) (IsMaximum merged arabic original)
          (ranked_hits fl merged arabic original) (ranked_hits-IsMaximum merged arabic original))
