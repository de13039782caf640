-- ===== src/Retrieval/Compress/Evidence.antt =====
-- What evidence `_compress` of app/services/retrieval.py keeps.
use fiqhmind_ai_backend.Prelude.{
  ℕ, suc, ◌-◌, max, ◌≡◌, refl, sym, ap, ◌∙◌, inl, inr, Bool, true, false, not, String, Option, List,
  [], ◌∷◌, map, arith, leb, if◌then◌else◌, Bool-cases, All, take, select,
}
use fiqhmind_ai_backend.Retrieval.Scores.{Floats, IsOrdered}
use fiqhmind_ai_backend.Retrieval.Order.{Descends, NotAbove, sort_desc-Descends}
use fiqhmind_ai_backend.Retrieval.Types.{SearchHit, RankedHit, RetrievedChunk}
use fiqhmind_ai_backend.Retrieval.Merge.{is_in}
use fiqhmind_ai_backend.Retrieval.Compress.{
  Runner, rerank, ranked_hits, text_of_hit, signature, chunk_of, is_below, compress_from, top_n_of,
  compress, max_score_of,
}

module _ (fl : Floats) where
  -- the first of the items with each signature, of those not in `seen`
  abbrev pub first_signed : Runner fl → List String → List (RankedHit fl) → List (RankedHit fl)
  first_signed r seen [] = []
  first_signed r seen (item ∷ rest) =
      let sign = signature fl r item.hit in
      let old = is_in sign seen in
      let later = first_signed r (if old then seen else sign ∷ seen) rest in
      if old then later else item ∷ later

  -- the items before the first one below the floor
  abbrev pub leading : Runner fl → List (RankedHit fl) → List (RankedHit fl)
  leading r [] = []
  leading r (item ∷ rest) =
      let later = leading r rest in if is_below fl r item then [] else item ∷ later

  compress_rest :
      (top_n count : ℕ) (later : List (RetrievedChunk fl)) (firsts : List (RankedHit fl))
      → later ≡ map (chunk_of fl) (take (suc (top_n - suc (suc count))) firsts)
      → (if leb top_n (suc count) then [] else later)
        ≡ map (chunk_of fl) (take (top_n - suc count) firsts)
  compress_rest top_n count later firsts h = elim (Bool-cases (leb top_n (suc count))) [
    | inl full ↦ let none_left : top_n - suc count ≡ 0 = ground arith in rw full (rw none_left refl)
    | inr room ↦
        let one_more : top_n - suc count ≡ suc (top_n - suc (suc count)) = ground arith in
        rw room (rw one_more h)
  ]

  compress_step :
      (top_n count : ℕ) (item : RankedHit fl) (later : List (RetrievedChunk fl))
      (firsts : List (RankedHit fl)) (old : Bool)
      → later
        ≡ map (chunk_of fl) (take (suc (top_n - suc (if old then count else suc count))) firsts)
      → (if old then later else chunk_of fl item ∷ (if leb top_n (suc count) then [] else later))
        ≡ map (chunk_of fl) (take (suc (top_n - suc count)) (if old then firsts else item ∷ firsts))
  compress_step top_n count item later firsts true h = h
  compress_step top_n count item later firsts false h =
      ap (◌∷◌ (chunk_of fl item)) (compress_rest top_n count later firsts h)

  compress_from_lem :
      (r : Runner fl) (top_n : ℕ) (seen : List String) (count : ℕ) (items : List (RankedHit fl))
      → compress_from fl r top_n seen count items
        ≡ map (chunk_of fl) (take (suc (top_n - suc count)) (first_signed r seen (leading r items)))
  unfolding compress_from
  compress_from_lem r top_n seen count [] = refl
  compress_from_lem r top_n seen count (item ∷ rest) = elim (Bool-cases (is_below fl r item)) [
    | inl below ↦ rw below refl
    | inr above ↦ rw above (
        compress_step top_n count item _ _ (is_in (signature fl r item.hit) seen) (
          compress_from_lem r top_n
            (if is_in (signature fl r item.hit) seen then seen else signature fl r item.hit ∷ seen)
            (if is_in (signature fl r item.hit) seen then count else suc count) rest))
  ]

  -- With or without reranking, the chunks are those of the items before the first one below the floor,
  -- one for each signature (the first), and of these the first `top_n`, and at least one.
  pub compress_lem :
      (r : Runner fl) (ranked : List (RankedHit fl)) (top_n : Option ℕ)
      → compress fl r ranked top_n
        ≡ map
            (chunk_of fl)
            (take (max 1 (top_n_of fl r top_n)) (first_signed r [] (leading r ranked)))
  unfolding compress
  compress_lem r ranked top_n =
      let count : suc (top_n_of fl r top_n - 1) ≡ max 1 (top_n_of fl r top_n) = omega arith in
      compress_from_lem r (top_n_of fl r top_n) [] 0 ranked
      ∙ ap (λ n. map (chunk_of fl) (take n (first_signed r [] (leading r ranked)))) count

module _ (fl : Floats) (ordered : IsOrdered fl) where
  rerank-Descends :
      (r : Runner fl) (merged : List (SearchHit fl)) (canonical_arabic original_query : String)
      → r.reranking_enabled ≡ true
      → Descends fl (max_score_of fl) (rerank fl r merged canonical_arabic original_query)
  unfolding rerank
  rerank-Descends r merged canonical_arabic original_query enabled = rw enabled (
      sort_desc-Descends fl ordered (max_score_of fl) (
        ranked_hits fl merged (r.score canonical_arabic (map (text_of_hit fl) merged))
          (r.score original_query (map (text_of_hit fl) merged))))

  none_above :
      (r : Runner fl) (item : RankedHit fl) (rest : List (RankedHit fl))
      → is_below fl r item ≡ true
      → All (NotAbove fl (max_score_of fl) item) rest
      → select (λ x. not (is_below fl r x)) rest ≡ []
  none_above r item [] below h = refl
  none_above r item (x ∷ rest) below h = ground (
    arith,
    ordered.cotrans item.max_score x.max_score r.evidence_floor h.0,
    none_above r item rest,
  )

  leading-select :
      (r : Runner fl) (ranked : List (RankedHit fl))
      → Descends fl (max_score_of fl) ranked
      → leading fl r ranked ≡ select (λ x. not (is_below fl r x)) ranked
  leading-select r [] h = refl
  leading-select r (item ∷ rest) h = elim (Bool-cases (is_below fl r item)) [
    | inl below ↦ rw below (sym (none_above r item rest below h.0))
    | inr above ↦ rw above (ap (◌∷◌ item) (leading-select r rest h.1))
  ]

  -- When reranking is enabled and the order of the scores is that of floats that are no NaN, the break
  -- at the first item below the floor loses nothing: the chunks are those of all reranked items that are not
  -- below it, one for each signature (the first), and of these the first `top_n`, and at least one.
  pub compress-rerank :
      (r : Runner fl) (merged : List (SearchHit fl)) (canonical_arabic original_query : String)
      (top_n : Option ℕ)
      → r.reranking_enabled ≡ true
      → compress fl r (rerank fl r merged canonical_arabic original_query) top_n
        ≡ map (chunk_of fl) (
            take (max 1 (top_n_of fl r top_n)) (
              first_signed fl r [] (
                select
                  (λ x. not (is_below fl r x))
                  (rerank fl r merged canonical_arabic original_query))))
  compress-rerank r merged canonical_arabic original_query top_n enabled =
      let ranked = rerank fl r merged canonical_arabic original_query in
      compress_lem fl r ranked top_n
      ∙ ap
          (λ items.
            map (chunk_of fl) (take (max 1 (top_n_of fl r top_n)) (first_signed fl r [] items)))
          (leading-select r ranked
            (rerank-Descends r merged canonical_arabic original_query enabled))
