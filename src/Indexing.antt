-- ===== src/Indexing.antt =====
-- app/services/indexing.py: the chunks of a job become points of the vector store. The store is the
-- points that it holds; the embedder is a parameter, and so is the id that app/core/qdrant.py gives
-- the point of a chunk, and `int(done / total * 100)`.
pub mod Points
pub mod Loop
pub mod Fresh
use fiqhmind_ai_backend.Prelude.{
  ℕ, zero, suc, ◌+◌, max, min, Bool, true, false, not, String, Option, none, some, List, [], ◌∷◌,
  ◌++◌, ◌==◌, map, if◌then◌else◌, length, select, take, drop,
}
use fiqhmind_ai_backend.Text.{Text}
use fiqhmind_ai_backend.Metadata.Types.{
  Field, title, author, volume, edition, publisher, publication_year, field_eq, MetadataField,
}

-- the columns of `Chunk` that indexing reads
pub record ChunkRow : Type 0 where
  pub chunk_id : String
  pub raw_text : Text
  pub book_id : Option String
  pub printed_page_start : Option ℕ
  pub printed_page_end : Option ℕ
  pub pdf_page_start : Option ℕ
  pub pdf_page_end : Option ℕ
  pub kitab : Option String
  pub bab : Option String
  pub fasl : Option String
  pub topic : Option String
  pub region : String
  pub lang : String
  pub edition_id : Option String
  pub verified : Bool

-- the payload of `build_chunk_payload`: the chunk, and what it has of the book and the job
pub record ChunkPayload : Type 0 where
  pub chunk : ChunkRow
  pub book_name : Option Text
  pub author : Option Text
  pub volume : Option Text
  pub edition : Option Text
  pub publisher : Option Text
  pub year : Option Text
  pub upload_id : ℕ
  pub job_id : Option ℕ

-- `PointStruct`; `E` are the embeddings
pub record Point (E : Type 0) : Type 0 where
  pub id : ℕ
  pub vector : E
  pub payload : ChunkPayload

-- `meta.get(name)`: the last field of a name
abbrev pub meta_get : {F : Type 0} → Field → Option Text → List (MetadataField F) → Option Text
meta_get name found [] = found
meta_get name found (f ∷ fields) =
    meta_get name (if field_eq f.field name then some f.value else found) fields

abbrev pub text_of_chunk : ChunkRow → Text
text_of_chunk chunk = chunk.raw_text

module _ {F : Type 0} (upload_id : ℕ) (job_id : Option ℕ) (fields : List (MetadataField F)) where
  -- `build_chunk_payload`, with the values of `_payload_meta`
  unfoldable pub build_payload : ChunkRow → ChunkPayload
  build_payload chunk = record {
    chunk = chunk;
    book_name = meta_get title none fields;
    author = meta_get author none fields;
    volume = meta_get volume none fields;
    edition = meta_get edition none fields;
    publisher = meta_get publisher none fields;
    year = meta_get publication_year none fields;
    upload_id = upload_id;
    job_id = job_id;
  }

module _ {E F : Type 0} (point_id : String → ℕ) (upload_id : ℕ) (job_id : Option ℕ)
    (fields : List (MetadataField F)) where
  -- `_to_point`
  unfoldable pub to_point : ChunkRow → E → Point E
  unfolding build_payload
  to_point chunk embedding = record {
    id = point_id chunk.chunk_id;
    vector = embedding;
    payload = build_payload upload_id job_id fields chunk;
  }

  -- `zip(batch_chunks, embeddings)`
  abbrev pub zip_points : List ChunkRow → List E → List (Point E)
  zip_points [] embeddings = []
  zip_points (chunk ∷ chunks) [] = []
  zip_points (chunk ∷ chunks) (e ∷ es) = to_point chunk e ∷ zip_points chunks es

-- `xs[start : start + size]` for `start` in `range(0, len(xs), size)`. Each round takes one element
-- at least, so as many rounds as there are elements are enough.
unfoldable pub batches_from : {A : Type 0} → ℕ → ℕ → List A → List (List A)
batches_from zero size xs = []
batches_from (suc fuel) size [] = []
batches_from (suc fuel) size (x ∷ xs) =
    take size (x ∷ xs) ∷ batches_from fuel size (drop size (x ∷ xs))

unfoldable pub batches : {A : Type 0} → ℕ → List A → List (List A)
unfolding batches_from
batches size xs = batches_from (length xs) (max 1 size) xs

module _ {E F : Type 0} (point_id : String → ℕ) (embed_batch : List Text → List E) (upload_id : ℕ)
    (job_id : Option ℕ) (fields : List (MetadataField F)) where
  abbrev pub points_of_batches : List (List ChunkRow) → List (Point E)
  points_of_batches [] = []
  points_of_batches (batch ∷ rest) =
      zip_points point_id upload_id job_id fields batch (embed_batch (map text_of_chunk batch))
      ++ points_of_batches rest

  -- `_build_points`
  unfoldable pub build_points : ℕ → List ChunkRow → List (Point E)
  unfolding batches
  build_points embedding_batch_size chunks = points_of_batches (batches embedding_batch_size chunks)

-- the points of the store, and the progress of the job
pub record Index (E : Type 0) : Type 0 where
  pub points : List (Point E)
  pub progress_percent : ℕ

module _ {E : Type 0} where
  -- `_upload_filter`
  abbrev pub is_of_upload : ℕ → Point E → Bool
  is_of_upload upload_id point = point.payload.upload_id == upload_id

  -- `delete_by_filter`
  abbrev pub delete_by_filter : ℕ → List (Point E) → List (Point E)
  delete_by_filter upload_id points = select (λ p. not (is_of_upload upload_id p)) points

  -- one point of `upsert_points`: it replaces the point with its id
  unfoldable pub upsert_point : Point E → List (Point E) → List (Point E)
  upsert_point point points = select (λ p. not (p.id == point.id)) points ++ point ∷ []

  -- `upsert_points`
  unfoldable pub upsert_points : List (Point E) → List (Point E) → List (Point E)
  unfolding upsert_point
  upsert_points [] points = points
  upsert_points (point ∷ batch) points = upsert_points batch (upsert_point point points)

  -- the loop of `run`; the store answers a number of the calls of `upsert_points` and is then away
  unfoldable pub index_batches :
      (ℕ → ℕ → ℕ) → ℕ → ℕ → ℕ → List (List (Point E)) → Index E → Bool × Index E
  unfolding upsert_points
  index_batches percent answered total done [] s = (true, s)
  index_batches percent zero total done (batch ∷ rest) s = (false, s)
  index_batches percent (suc answered) total done (batch ∷ rest) s =
      index_batches percent answered total (done + length batch) rest (record {
        points = upsert_points batch s.points;
        progress_percent = min 99 (percent (done + length batch) total);
      })

  -- the end of `run`: whether it returns, and the index
  unfoldable pub finish_index : Bool × Index E → Bool × Index E
  finish_index (true, s) = (true, record s { progress_percent = 100 })
  finish_index (false, s) = (false, s)

  -- `run`, with the points that it has built of the chunks: without chunks it raises
  unfoldable pub run_indexing : (ℕ → ℕ → ℕ) → ℕ → ℕ → ℕ → List (Point E) → Index E → Bool × Index E
  unfolding batches index_batches finish_index
  run_indexing percent answered batch_size upload_id [] s = (false, s)
  run_indexing percent answered batch_size upload_id (point ∷ points) s = finish_index (
      index_batches percent answered (length (point ∷ points)) 0
        (batches batch_size (point ∷ points))
        (record { points = delete_by_filter upload_id s.points; progress_percent = 0 }))
