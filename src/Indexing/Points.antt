-- ===== src/Indexing/Points.antt =====
-- What indexing puts in the store, for any sizes of its batches.
use mathlib.Core.List.{map-append}
use fiqhmind_ai_backend.Prelude.{
  ℕ, zero, suc, ◌≤◌, ◌<◌, ◌≡◌, ◌∙◌, refl, ap, sym, String, Option, List, [], ◌∷◌, ◌++◌, arith, map,
  concat, length, take, drop, take-append-drop, length-drop, max,
}
use fiqhmind_ai_backend.Text.{Text}
use fiqhmind_ai_backend.Metadata.Types.{MetadataField}
use fiqhmind_ai_backend.Indexing.{
  ChunkRow, Point, to_point, zip_points, text_of_chunk, batches_from, batches, points_of_batches,
  build_points,
}

module _ {A : Type 0} where
  concat-batches_from :
      (fuel size : ℕ) (xs : List A)
      → 0 < size
      → length xs ≤ fuel
      → concat (batches_from fuel size xs) ≡ xs
  unfolding batches_from
  concat-batches_from zero size [] positive enough = refl
  concat-batches_from zero size (x ∷ xs) positive enough = absurd (omega arith)
  concat-batches_from (suc fuel) size [] positive enough = refl
  concat-batches_from (suc fuel) size (x ∷ xs) positive enough =
      ap (take size (x ∷ xs) ++◌) (
        concat-batches_from fuel size (drop size (x ∷ xs)) positive
          (omega (arith, length-drop size (x ∷ xs))))
      ∙ take-append-drop size (x ∷ xs)

  -- The batches are the elements in their order.
  pub concat-batches : (size : ℕ) (xs : List A) → concat (batches size xs) ≡ xs
  unfolding batches
  concat-batches size xs =
      concat-batches_from (length xs) (max 1 size) xs (ground arith) (omega arith)

module _ {E F : Type 0} (point_id : String → ℕ) (embed_batch : List Text → List E) (upload_id : ℕ)
    (job_id : Option ℕ) (fields : List (MetadataField F)) where
  -- the point of a chunk that is embedded alone
  abbrev pub point_of : (Text → E) → ChunkRow → Point E
  point_of embed chunk = to_point point_id upload_id job_id fields chunk (embed chunk.raw_text)

  zip-map :
      (embed : Text → E) (chunks : List ChunkRow)
      → zip_points point_id upload_id job_id fields chunks (map embed (map text_of_chunk chunks))
        ≡ map (point_of embed) chunks
  zip-map embed [] = refl
  zip-map embed (chunk ∷ chunks) = ap (◌∷◌ (point_of embed chunk)) (zip-map embed chunks)

  points-map :
      (embed : Text → E) (parts : List (List ChunkRow))
      → ((texts : List Text) → embed_batch texts ≡ map embed texts)
      → points_of_batches point_id embed_batch upload_id job_id fields parts
        ≡ map (point_of embed) (concat parts)
  points-map embed [] one_each = refl
  points-map embed (part ∷ parts) one_each =
      ap
        (λ es.
          zip_points point_id upload_id job_id fields part es
          ++ points_of_batches point_id embed_batch upload_id job_id fields parts)
        (one_each (map text_of_chunk part))
      ∙ ap (λ ps. ps ++ points_of_batches point_id embed_batch upload_id job_id fields parts)
          (zip-map embed part)
      ∙ ap (map (point_of embed) part ++◌) (points-map embed parts one_each)
      ∙ sym (map-append (point_of embed) part (concat parts))

  -- Whatever the size of the batches, the points are those of the chunks, one for each and in their
  -- order, with the embedding of its own text, where the embedder returns one embedding for each
  -- text of a batch in its order.
  pub build_points-map :
      (embed : Text → E) (size : ℕ) (chunks : List ChunkRow)
      → ((texts : List Text) → embed_batch texts ≡ map embed texts)
      → build_points point_id embed_batch upload_id job_id fields size chunks
        ≡ map (point_of embed) chunks
  unfolding build_points
  build_points-map embed size chunks one_each =
      points-map embed (batches size chunks) one_each
      ∙ ap (map (point_of embed)) (concat-batches size chunks)
