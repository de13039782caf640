-- ===== src/Retrieval/Merge/Best.antt =====
-- The merge of the results of the candidate queries keeps, of each chunk, a hit with the best score
-- (`_merge_hits` of app/services/retrieval.py).
use text.Mathlib.Text.{◌==◌ as str_eq}
use text.Mathlib.TextEquality.{eq_iff}
use fiqhmind_ai_backend.Prelude.{
  ℕ, ◌≡◌, sym, ap, ◌∙◌, inl, inr, true, false, String, Option, some, List, [], ◌∷◌, map, arith,
  Bool-cases, All, All-map, All-both, Among, All-Among, length-take,
}
use fiqhmind_ai_backend.Retrieval.Scores.{Floats, IsOrdered}
use fiqhmind_ai_backend.Retrieval.Order.{
  sort_desc, sort_desc-All, take-All, sort_desc-Descends, take-Descends,
}
use fiqhmind_ai_backend.Retrieval.Dict.{
  get, put, Distinct, OtherName, key_of, sort_desc-Distinct, take-Distinct,
}
use fiqhmind_ai_backend.Retrieval.Types.{SearchHit}
use fiqhmind_ai_backend.Retrieval.Fusion.Ranking.{hit_id, IsRanking}
use fiqhmind_ai_backend.Retrieval.Merge.{
  is_better, note_hit, note_hits, note_lists, value_of, score_of_hit, merge_hits,
}
use fiqhmind_ai_backend.Retrieval.Merge.Entries.{
  all_hits, Keyed, Kept, note_hits-Kept, note_lists_flat, note_hits-Keyed, note_hits-Distinct,
  values-Distinct,
}

module _ (fl : Floats) where
  -- no hit of the same chunk in a list has a higher score
  abbrev pub IsBest : List (SearchHit fl) → SearchHit fl → Type 0
  IsBest hits best =
      All (λ h. str_eq h.chunk_id best.chunk_id ≡ true → fl.lt best.score h.score ≡ false) hits

  -- an entry is the one that its key finds
  abbrev FindsItself : List (String × SearchHit fl) → String × SearchHit fl → Type 0
  FindsItself d e = get e.0 d ≡ some e.1

  FindsItself-later :
      (e : String × SearchHit fl) (d rest : List (String × SearchHit fl))
      → All (OtherName key_of e.0) rest
      → All (FindsItself d) rest
      → All (FindsItself (e ∷ d)) rest
  FindsItself-later e d [] other h = tt
  FindsItself-later e d (x ∷ rest) other h =
      (ground (arith, eq_iff e.0 x.0), FindsItself-later e d rest other.1 h.1)

  FindsItself-entries :
      (d : List (String × SearchHit fl)) → Distinct key_of d → All (FindsItself d) d
  FindsItself-entries [] h = tt
  FindsItself-entries (e ∷ d) h =
      (ground (arith, eq_iff e.0 e.0), FindsItself-later e d d h.0 (FindsItself-entries d h.1))

  Kept-IsBest :
      (d : List (String × SearchHit fl)) (e : String × SearchHit fl) (hits : List (SearchHit fl))
      → Keyed fl e
      → FindsItself d e
      → All (Kept fl d) hits
      → IsBest hits e.1
  Kept-IsBest d e [] keyed finds h = tt
  Kept-IsBest d e (x ∷ hits) keyed finds ((b, (found, above)), h) = (
    (λ same.
        sym (
          ap (λ o. is_better fl o x)
            (sym found
              ∙ ap (λ i. get i d) ((eq_iff x.chunk_id e.1.chunk_id).0 same ∙ sym keyed)
              ∙ finds))
        ∙ above),
    Kept-IsBest d e hits keyed finds h,
  )

  IsBest-entries :
      (d rest : List (String × SearchHit fl)) (hits : List (SearchHit fl))
      → All (Keyed fl) rest
      → All (FindsItself d) rest
      → All (Kept fl d) hits
      → All (IsBest hits) (map (value_of fl) rest)
  IsBest-entries d [] hits keyed finds h = tt
  IsBest-entries d (e ∷ rest) hits keyed finds h =
      (Kept-IsBest d e hits keyed.0 finds.0 h, IsBest-entries d rest hits keyed.1 finds.1 h)

  put-From :
      (P : SearchHit fl → Type 0) (k : String) (hit : SearchHit fl)
      (d : List (String × SearchHit fl))
      → P hit
      → All (λ e. P e.1) d
      → All (λ e. P e.1) (put k hit d)
  put-From P k hit [] p h = (p, tt)
  put-From P k hit ((j, w) ∷ d) p h = elim (Bool-cases (str_eq j k)) [
    | inl same ↦ rw same (p, h.1)
    | inr apart ↦ rw apart (h.0, put-From P k hit d p h.1)
  ]

  note_hit-From :
      (P : SearchHit fl → Type 0) (hit : SearchHit fl) (d : List (String × SearchHit fl))
      → P hit
      → All (λ e. P e.1) d
      → All (λ e. P e.1) (note_hit fl hit d)
  unfolding note_hit
  note_hit-From P hit d p h = elim (Bool-cases (is_better fl (get hit.chunk_id d) hit)) [
    | inl better ↦ rw better (put-From P hit.chunk_id hit d p h)
    | inr worse ↦ rw worse h
  ]

  note_hits-From :
      (P : SearchHit fl → Type 0) (hits : List (SearchHit fl)) (d : List (String × SearchHit fl))
      → All P hits
      → All (λ e. P e.1) d
      → All (λ e. P e.1) (note_hits fl hits d)
  unfolding note_hits
  note_hits-From P [] d p h = h
  note_hits-From P (hit ∷ hits) d p h =
      note_hits-From P hits (note_hit fl hit d) p.1 (note_hit-From P hit d p.0 h)

module _ (fl : Floats) (ordered : IsOrdered fl) where
  -- When the order of the scores is that of floats that are no NaN, the merged hits are of distinct
  -- chunks, their scores descend, and there are at most `limit` of them.
  pub merge_hits-IsRanking :
      (lists : List (Option (List (SearchHit fl)))) (limit : ℕ)
      → IsRanking fl (some limit) (merge_hits fl lists limit)
  unfolding merge_hits
  merge_hits-IsRanking lists limit =
      let best = note_lists fl lists [] in
      let flat : note_lists fl lists [] ≡ note_hits fl (all_hits lists) [] =
        note_lists_flat fl lists [] in
      let values = map (value_of fl) best in
      (
        take-Distinct (hit_id fl) limit (sort_desc fl (score_of_hit fl) values) (
            sort_desc-Distinct fl (score_of_hit fl) (hit_id fl) values (
              rw flat (
                values-Distinct fl (note_hits fl (all_hits lists) [])
                  (note_hits-Keyed fl (all_hits lists) [] tt)
                  (note_hits-Distinct fl (all_hits lists) [] tt)))),
        take-Descends fl ordered (score_of_hit fl) limit (sort_desc fl (score_of_hit fl) values)
            (sort_desc-Descends fl ordered (score_of_hit fl) values),
        omega (arith, length-take limit (sort_desc fl (score_of_hit fl) values)),
      )

  -- When the order of the scores is that of floats that are no NaN, each merged hit is one of the hits
  -- of the searches, and none of these for the same chunk has a higher score.
  pub merge_hits-IsBest :
      (lists : List (Option (List (SearchHit fl)))) (limit : ℕ)
      → All
          (λ hit. Among hit (all_hits lists) × IsBest fl (all_hits lists) hit)
          (merge_hits fl lists limit)
  unfolding merge_hits
  merge_hits-IsBest lists limit =
      let hits = all_hits lists in
      let d = note_hits fl hits [] in
      let flat : note_lists fl lists [] ≡ note_hits fl (all_hits lists) [] =
        note_lists_flat fl lists [] in
      rw flat (
        take-All _ limit (sort_desc fl (score_of_hit fl) (map (value_of fl) d)) (
          sort_desc-All fl (score_of_hit fl) _ (map (value_of fl) d) (
            All-both (λ hit. Among hit hits) (IsBest fl hits) (map (value_of fl) d)
              (All-map (value_of fl) (λ hit. Among hit hits) d
                (note_hits-From fl (λ hit. Among hit hits) hits [] (All-Among hits) tt))
              (IsBest-entries fl d d hits (note_hits-Keyed fl hits [] tt)
                (FindsItself-entries fl d (note_hits-Distinct fl hits [] tt))
                (note_hits-Kept fl ordered hits [])))))
