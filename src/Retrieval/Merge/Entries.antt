-- ===== src/Retrieval/Merge/Entries.antt =====
-- The dictionary that `_merge_hits` of app/services/retrieval.py fills: its keys are distinct, each is that
-- of its hit, and it has, for each hit seen, one with no lower score.
use text.Mathlib.Text.{◌==◌ as str_eq}
use text.Mathlib.TextEquality.{eq_iff}
use fiqhmind_ai_backend.Prelude.{
  ◌≡◌, refl, sym, ap, ◌∙◌, inl, inr, true, false, String, Option, none, some, List, [], ◌∷◌, ◌++◌,
  map, arith, Bool-cases, Option-cases, All,
}
use fiqhmind_ai_backend.Retrieval.Scores.{Floats, IsOrdered}
use fiqhmind_ai_backend.Retrieval.Dict.{
  get, put, get-put, Distinct, OtherName, key_of, put-Distinct,
}
use fiqhmind_ai_backend.Retrieval.Types.{SearchHit}
use fiqhmind_ai_backend.Retrieval.Fusion.Ranking.{hit_id}
use fiqhmind_ai_backend.Retrieval.Merge.{is_better, note_hit, note_hits, note_lists, value_of}

-- the hits of the searches that succeeded
abbrev pub all_hits {ℓ} : {A : Type ℓ} → List (Option (List A)) → List A
all_hits [] = []
all_hits (none ∷ lists) = all_hits lists
all_hits (some hits ∷ lists) = hits ++ all_hits lists

module _ (fl : Floats) where
  -- an entry stands under the identifier of its hit
  abbrev pub Keyed : String × SearchHit fl → Type 0
  Keyed entry = entry.0 ≡ hit_id fl entry.1

  put-Keyed :
      (hit : SearchHit fl) (d : List (String × SearchHit fl))
      → All Keyed d
      → All Keyed (put hit.chunk_id hit d)
  put-Keyed hit [] h = (refl, tt)
  put-Keyed hit ((j, w) ∷ d) h = ground (arith, eq_iff j hit.chunk_id, put-Keyed hit d)

  get_same :
      (k j : String) (d : List (String × SearchHit fl)) → str_eq k j ≡ true → get j d ≡ get k d
  get_same k j d h = ap (λ i. get i d) (sym ((eq_iff k j).0 h))

  -- the dictionary has a hit for the chunk of a hit, with no lower score
  abbrev pub Kept : List (String × SearchHit fl) → SearchHit fl → Type 0
  Kept d h = (b : SearchHit fl) × ((get h.chunk_id d ≡ some b) × (fl.lt b.score h.score ≡ false))

  note_hit-Keyed :
      (hit : SearchHit fl) (d : List (String × SearchHit fl))
      → All Keyed d
      → All Keyed (note_hit fl hit d)
  unfolding note_hit
  note_hit-Keyed hit d h = elim (Bool-cases (is_better fl (get hit.chunk_id d) hit)) [
    | inl better ↦ rw better (put-Keyed hit d h)
    | inr worse ↦ rw worse h
  ]

  note_hit-Distinct :
      (hit : SearchHit fl) (d : List (String × SearchHit fl))
      → Distinct key_of d
      → Distinct key_of (note_hit fl hit d)
  unfolding note_hit
  note_hit-Distinct hit d h = elim (Bool-cases (is_better fl (get hit.chunk_id d) hit)) [
    | inl better ↦ rw better (put-Distinct hit.chunk_id hit d h)
    | inr worse ↦ rw worse h
  ]

module _ (fl : Floats) (ordered : IsOrdered fl) where
  note_hit_self :
      (hit : SearchHit fl) (d : List (String × SearchHit fl)) → Kept fl (note_hit fl hit d) hit
  unfolding note_hit
  note_hit_self hit d = elim (Bool-cases (is_better fl (get hit.chunk_id d) hit)) [
    | inl better ↦ rw better (
      hit,
      (
        ground (arith, get-put hit.chunk_id hit.chunk_id hit d, eq_iff hit.chunk_id hit.chunk_id),
        ordered.irrefl hit.score,
      ),
    )
    | inr worse ↦ elim (Option-cases (get hit.chunk_id d)) [
      | inl missing ↦ absurd (ground arith)
      | inr (b, found) ↦ rw worse (b, (found, ground arith))
    ]
  ]

  note_hit_keeps :
      (hit other : SearchHit fl) (d : List (String × SearchHit fl))
      → Kept fl d other
      → Kept fl (note_hit fl hit d) other
  unfolding note_hit
  note_hit_keeps hit other d (b, (found, above)) =
      elim (Bool-cases (is_better fl (get hit.chunk_id d) hit)) [
        | inl better ↦ elim (Bool-cases (str_eq hit.chunk_id other.chunk_id)) [
          | inl same ↦
              let old : get hit.chunk_id d ≡ some b =
                sym (get_same fl hit.chunk_id other.chunk_id d same) ∙ found in
              let below : fl.lt b.score hit.score ≡ true =
                ap (λ o. is_better fl o hit) (sym old) ∙ better in
              rw better (
                hit,
                (
                  ground (arith, get-put hit.chunk_id other.chunk_id hit d),
                  ordered.cotrans hit.score b.score other.score
                      (ordered.asym b.score hit.score below) above,
                ),
              )
          | inr apart ↦
              rw better (b, (ground (arith, get-put hit.chunk_id other.chunk_id hit d), above))
        ]
        | inr worse ↦ rw worse (b, (found, above))
      ]

  note_hits_keeps :
      (hits : List (SearchHit fl)) (other : SearchHit fl) (d : List (String × SearchHit fl))
      → Kept fl d other
      → Kept fl (note_hits fl hits d) other
  unfolding note_hits
  note_hits_keeps [] other d k = k
  note_hits_keeps (hit ∷ hits) other d k =
      note_hits_keeps hits other (note_hit fl hit d) (note_hit_keeps hit other d k)

  pub note_hits-Kept :
      (hits : List (SearchHit fl)) (d : List (String × SearchHit fl))
      → All (Kept fl (note_hits fl hits d)) hits
  unfolding note_hits
  note_hits-Kept [] d = tt
  note_hits-Kept (hit ∷ hits) d = (
    note_hits_keeps hits hit (note_hit fl hit d) (note_hit_self hit d),
    note_hits-Kept hits (note_hit fl hit d),
  )

module _ (fl : Floats) where
  note_hits-append :
      (xs ys : List (SearchHit fl)) (d : List (String × SearchHit fl))
      → note_hits fl (xs ++ ys) d ≡ note_hits fl ys (note_hits fl xs d)
  unfolding note_hits
  note_hits-append [] ys d = refl
  note_hits-append (x ∷ xs) ys d = note_hits-append xs ys (note_hit fl x d)

  pub note_lists_flat :
      (lists : List (Option (List (SearchHit fl)))) (d : List (String × SearchHit fl))
      → note_lists fl lists d ≡ note_hits fl (all_hits lists) d
  unfolding note_lists note_hits
  note_lists_flat [] d = refl
  note_lists_flat (none ∷ lists) d = note_lists_flat lists d
  note_lists_flat (some hits ∷ lists) d =
      note_lists_flat lists (note_hits fl hits d) ∙ sym (note_hits-append hits (all_hits lists) d)

  pub note_hits-Keyed :
      (hits : List (SearchHit fl)) (d : List (String × SearchHit fl))
      → All (Keyed fl) d
      → All (Keyed fl) (note_hits fl hits d)
  unfolding note_hits
  note_hits-Keyed [] d h = h
  note_hits-Keyed (hit ∷ hits) d h =
      note_hits-Keyed hits (note_hit fl hit d) (note_hit-Keyed fl hit d h)

  pub note_hits-Distinct :
      (hits : List (SearchHit fl)) (d : List (String × SearchHit fl))
      → Distinct key_of d
      → Distinct key_of (note_hits fl hits d)
  unfolding note_hits
  note_hits-Distinct [] d h = h
  note_hits-Distinct (hit ∷ hits) d h =
      note_hits-Distinct hits (note_hit fl hit d) (note_hit-Distinct fl hit d h)

  values-OtherName :
      (name : String) (d : List (String × SearchHit fl))
      → All (Keyed fl) d
      → All (OtherName key_of name) d
      → All (OtherName (hit_id fl) name) (map (value_of fl) d)
  values-OtherName name [] keyed h = tt
  values-OtherName name (e ∷ d) keyed h =
      (ap (λ i. str_eq i name) (sym keyed.0) ∙ h.0, values-OtherName name d keyed.1 h.1)

  pub values-Distinct :
      (d : List (String × SearchHit fl))
      → All (Keyed fl) d
      → Distinct key_of d
      → Distinct (hit_id fl) (map (value_of fl) d)
  values-Distinct [] keyed h = tt
  values-Distinct (e ∷ d) keyed h = (
    values-OtherName (hit_id fl e.1) d keyed.1 (rw (sym keyed.0) h.0),
    values-Distinct d keyed.1 h.1,
  )
