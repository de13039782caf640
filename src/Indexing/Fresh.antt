-- ===== src/Indexing/Fresh.antt =====
-- What a run of the indexing leaves in the store of what was there before.
use fiqhmind_ai_backend.Prelude.{
  ℕ, ◌≤◌, ◌<◌, ◌≡◌, refl, sym, subst, inl, inr, Bool, true, false, List, [], ◌∷◌, ◌==◌, Bool-cases,
  All, All-step, All-Among, Among, any, arith, length, ◌⊎◌,
}
use fiqhmind_ai_backend.Indexing.{
  Point, batches, Index, is_of_upload, delete_by_filter, index_batches, finish_index, run_indexing,
}
use fiqhmind_ai_backend.Indexing.Points.{concat-batches}
use fiqhmind_ai_backend.Indexing.Loop.{Completes-index_batches, All-index_batches, length-batches}

module _ {E : Type 0} (upload_id : ℕ) where
  -- A point of another upload, or one of a list.
  abbrev pub IsFresh : List (Point E) → Point E → Type 0
  IsFresh points q = (is_of_upload upload_id q ≡ false) ⊎ Among q points

  All-delete_by_filter :
      (made points : List (Point E)) → All (IsFresh made) (delete_by_filter upload_id points)
  All-delete_by_filter made [] = tt
  All-delete_by_filter made (x ∷ points) = elim (Bool-cases (is_of_upload upload_id x)) [
    | inl mine ↦ rw mine (All-delete_by_filter made points)
    | inr other ↦ rw other (inl other, All-delete_by_filter made points)
  ]

  -- What a run has done that returns: the progress is 100, the store has each point, and of the upload
  -- no others.
  abbrev pub IsIndexed : List (Point E) → Bool × Index E → Type 0
  IsIndexed points (true, s) =
      (s.progress_percent ≡ 100)
      × All (λ p. any (λ q. q.id == p.id) s.points ≡ true) points
      × All (IsFresh points) s.points
  IsIndexed points (false, s) = ⊥

  finish_index-IsIndexed :
      (points : List (Point E)) (r : Bool × Index E)
      → r.0 ≡ true
      → All (λ p. any (λ q. q.id == p.id) r.1.points ≡ true) points
      → All (IsFresh points) r.1.points
      → IsIndexed points (finish_index r)
  unfolding finish_index
  finish_index-IsIndexed points (true, s) ends there fresh = (refl, there, fresh)
  finish_index-IsIndexed points (false, s) ends there fresh = cc

  -- Indexing the points of an upload, of which there is one at least, returns if the store answers as
  -- many calls of upsert_points as there are points. The progress is then 100, the store has a point with the id of
  -- each point, and all its points are of other uploads or among these points: whatever was there of
  -- the upload before is gone.
  pub run_indexing-IsIndexed :
      (percent : ℕ → ℕ → ℕ) (answered batch_size : ℕ) (points : List (Point E)) (s : Index E)
      → 0 < length points
      → length points ≤ answered
      → IsIndexed points (run_indexing percent answered batch_size upload_id points s)
  unfolding run_indexing
  run_indexing-IsIndexed percent answered batch_size [] s some_points enough = absurd (omega arith)
  run_indexing-IsIndexed percent answered batch_size (p ∷ points) s some_points enough =
      let parts : List (List (Point E)) = batches batch_size (p ∷ points) in
      let start : Index E = record {
        points = delete_by_filter upload_id s.points;
        progress_percent = 0;
      } in
      let ends =
        Completes-index_batches percent answered (length (p ∷ points)) 0 parts start
          (omega (arith, length-batches batch_size (p ∷ points))) in
      finish_index-IsIndexed (p ∷ points)
        (index_batches percent answered (length (p ∷ points)) 0 parts start) ends.0
        (subst (All _) (concat-batches batch_size (p ∷ points)) ends.1)
        (All-index_batches (IsFresh (p ∷ points)) percent answered (length (p ∷ points)) 0 parts
          start
          (subst (All (IsFresh (p ∷ points))) (sym (concat-batches batch_size (p ∷ points))) (
            All-step (λ q. Among q (p ∷ points)) (IsFresh (p ∷ points)) (p ∷ points) (λ q. inr)
              (All-Among (p ∷ points))))
          (All-delete_by_filter (p ∷ points) s.points))
