-- ===== src/Jobs/Book/Pipeline.antt =====
-- `start_ingestion_pipeline_task` makes the stage jobs that are missing, and no second ones.
use fiqhmind_ai_backend.Prelude.{
  ℕ, ◌∙◌, ◌≡◌, refl, ap, sym, Bool, true, false, Option, none, some, List, [], ◌∷◌, ◌++◌, arith,
  if◌then◌else◌, is_some, select,
}
use fiqhmind_ai_backend.Jobs.Types.{Kind, Job, Session}
use fiqhmind_ai_backend.Jobs.Repository.{
  commit, is_for_upload, kind_eq, most_recent, find_for_upload, find_pipeline_job, create_job,
}
use fiqhmind_ai_backend.Jobs.Book.Reuse.{ensure-Found, ensure-other, ensure-pipeline, ensure-reuse}
use fiqhmind_ai_backend.Jobs.Book.{
  build_book_graph, queued_job, reuse_or_create, ensure_stage_job, start_from,
  start_ingestion_pipeline,
}

abbrev matches : ℕ → Kind → Job → Bool
matches upload_id kind job = if is_for_upload upload_id job then kind_eq job.kind kind else false

-- a list with one more row has a most recent row if it had one, or if the new row counts
most_recent-snoc :
    (p : Job → Bool) (jobs : List Job) (job : Job)
    → is_some (most_recent (select p (jobs ++ job ∷ [])))
      ≡ (if is_some (most_recent (select p jobs)) then true else p job)
unfolding most_recent
most_recent-snoc p [] job = ground arith
most_recent-snoc p (j ∷ jobs) job = ground (arith, most_recent-snoc p jobs job)

queued_job-matches :
    (id now upload_id : ℕ) (kind : Kind)
    → matches upload_id kind (queued_job id now upload_id kind) ≡ true
queued_job-matches id now upload_id Kind.initial = ground arith
queued_job-matches id now upload_id kind = ground arith

-- there is a job of the kind
abbrev pub has_job : ℕ → Kind → Session → Bool
has_job upload_id kind s = is_some (find_for_upload upload_id kind s)

has_job-create_job :
    (upload_id : ℕ) (kind : Kind) (job : Job) (s : Session)
    → has_job upload_id kind (create_job job s)
      ≡ (if has_job upload_id kind s then true else matches upload_id kind job)
unfolding find_for_upload create_job
has_job-create_job upload_id kind job s = most_recent-snoc (matches upload_id kind) s.db.jobs job

module _ (id now upload_id : ℕ) (kind : Kind) where
  reuse_found :
      (found : Option Job) (s : Session)
      → find_for_upload upload_id kind s ≡ found
      → has_job upload_id kind (reuse_or_create found id now upload_id kind s).1 ≡ true
  reuse_found none s e =
      rw (has_job-create_job upload_id kind (queued_job id now upload_id kind) s, e)
        (queued_job-matches id now upload_id kind)
  reuse_found (some job) s e = ap is_some e

  reuse_keeps :
      (other : Kind) (found : Option Job) (s : Session)
      → has_job upload_id other s ≡ true
      → has_job upload_id other (reuse_or_create found id now upload_id kind s).1 ≡ true
  reuse_keeps other none s h =
      rw (has_job-create_job upload_id other (queued_job id now upload_id kind) s, h)
  reuse_keeps other (some job) s h = h

  -- After `find_for_upload`, and `create` if needed, there is a job of the kind.
  ensure_found :
      (s : Session) → has_job upload_id kind (ensure_stage_job id now upload_id kind s).1 ≡ true
  unfolding ensure_stage_job
  ensure_found s = reuse_found (find_for_upload upload_id kind s) s refl

  ensure_keeps :
      (other : Kind) (s : Session)
      → has_job upload_id other s ≡ true
      → has_job upload_id other (ensure_stage_job id now upload_id kind s).1 ≡ true
  unfolding ensure_stage_job
  ensure_keeps other s h = reuse_keeps other (find_for_upload upload_id kind s) s h

-- The three stage jobs of an upload are there, and the session has no open change.
pub record IsStarted (upload_id : ℕ) (s : Session) : Type 0 where
  pub metadata : has_job upload_id Kind.metadata s ≡ true
  pub chunking : has_job upload_id Kind.chunking s ≡ true
  pub indexing : has_job upload_id Kind.indexing s ≡ true
  pub all_saved : s.committed ≡ s.db

module _ (id₁ id₂ id₃ now upload_id : ℕ) where
  start_from-IsStarted :
      (initial : Job) (s : Session)
      → IsStarted upload_id (start_from (some initial) id₁ id₂ id₃ now upload_id s).1
  unfolding start_from find_for_upload
  start_from-IsStarted initial s =
      let s₁ = (ensure_stage_job id₁ now upload_id Kind.metadata s).1 in
      let s₂ = (ensure_stage_job id₂ now upload_id Kind.chunking s₁).1 in
      record {
        metadata = ensure_keeps id₃ now upload_id Kind.indexing Kind.metadata s₂ (
            ensure_keeps id₂ now upload_id Kind.chunking Kind.metadata s₁
              (ensure_found id₁ now upload_id Kind.metadata s));
        chunking =
            ensure_keeps id₃ now upload_id Kind.indexing Kind.chunking s₂
              (ensure_found id₂ now upload_id Kind.chunking s₁);
        indexing = ensure_found id₃ now upload_id Kind.indexing s₂;
        all_saved = refl;
      }

-- The jobs that a call returned are found in its session, and it is committed.
record Ready (upload_id : ℕ) (initial : Job) (metadata chunking indexing : ℕ) (s : Session)
    : Type 0 where
  extraction : find_pipeline_job upload_id s ≡ some initial
  metadata_job : Job
  finds_metadata : find_for_upload upload_id Kind.metadata s ≡ some metadata_job
  metadata_id : metadata_job.id ≡ metadata
  chunking_job : Job
  finds_chunking : find_for_upload upload_id Kind.chunking s ≡ some chunking_job
  chunking_id : chunking_job.id ≡ chunking
  indexing_job : Job
  finds_indexing : find_for_upload upload_id Kind.indexing s ≡ some indexing_job
  indexing_id : indexing_job.id ≡ indexing
  saved : s.committed ≡ s.db

module _ (id₁ id₂ id₃ now upload_id : ℕ) where
  start_from-Ready :
      (initial : Job) (s : Session)
      → find_pipeline_job upload_id s ≡ some initial
      → let (metadata, s₁) = ensure_stage_job id₁ now upload_id Kind.metadata s in
        let (chunking, s₂) = ensure_stage_job id₂ now upload_id Kind.chunking s₁ in
        let (indexing, s₃) = ensure_stage_job id₃ now upload_id Kind.indexing s₂ in
        Ready upload_id initial metadata chunking indexing (commit s₃)
  unfolding find_for_upload find_pipeline_job
  start_from-Ready initial s e =
      let (metadata, s₁) = ensure_stage_job id₁ now upload_id Kind.metadata s in
      let (chunking, s₂) = ensure_stage_job id₂ now upload_id Kind.chunking s₁ in
      let (m, finds_m, id_m) = ensure-Found id₁ now upload_id Kind.metadata s in
      let (c, finds_c, id_c) = ensure-Found id₂ now upload_id Kind.chunking s₁ in
      let (i, finds_i, id_i) = ensure-Found id₃ now upload_id Kind.indexing s₂ in
      record {
        extraction =
            ensure-pipeline id₃ now upload_id Kind.indexing s₂ refl
            ∙ ensure-pipeline id₂ now upload_id Kind.chunking s₁ refl
            ∙ ensure-pipeline id₁ now upload_id Kind.metadata s refl
            ∙ e;
        metadata_job = m;
        finds_metadata =
            ensure-other id₃ now upload_id Kind.indexing Kind.metadata s₂ refl
            ∙ ensure-other id₂ now upload_id Kind.chunking Kind.metadata s₁ refl
            ∙ finds_m;
        metadata_id = id_m;
        chunking_job = c;
        finds_chunking =
            ensure-other id₃ now upload_id Kind.indexing Kind.chunking s₂ refl ∙ finds_c;
        chunking_id = id_c;
        indexing_job = i;
        finds_indexing = finds_i;
        indexing_id = id_i;
        saved = refl;
      }

  -- where the jobs are there already
  start-Ready :
      (initial : Job) (metadata chunking indexing : ℕ) (s : Session)
      → Ready upload_id initial metadata chunking indexing s
      → start_ingestion_pipeline id₁ id₂ id₃ now upload_id s
        ≡ (some (build_book_graph initial.id chunking indexing metadata), s)
  unfolding start_ingestion_pipeline start_from
  start-Ready initial metadata chunking indexing s r =
      rw
        (
          r.extraction,
          ensure-reuse id₁ now upload_id Kind.metadata r.metadata_job s r.finds_metadata,
          ensure-reuse id₂ now upload_id Kind.chunking r.chunking_job s r.finds_chunking,
          ensure-reuse id₃ now upload_id Kind.indexing r.indexing_job s r.finds_indexing,
          r.metadata_id,
          r.chunking_id,
          r.indexing_id,
        )
        (ap
          (λ c. (
            some (build_book_graph initial.id chunking indexing metadata),
            record s { committed = c },
          ))
          (sym r.saved))

start-none :
    (id₁ id₂ id₃ now upload_id : ℕ) (s : Session)
    → find_pipeline_job upload_id s ≡ none
    → start_ingestion_pipeline id₁ id₂ id₃ now upload_id s ≡ (none, s)
unfolding start_ingestion_pipeline start_from
start-none id₁ id₂ id₃ now upload_id s e = rw e refl

-- one more call behind a first one, by what the first one found
start_again :
    (id₁ id₂ id₃ id₄ id₅ id₆ now later upload_id : ℕ) (found : Option Job) (s : Session)
    → find_pipeline_job upload_id s ≡ found
    → start_ingestion_pipeline id₄ id₅ id₆ later upload_id
        (start_from found id₁ id₂ id₃ now upload_id s).1
      ≡ start_from found id₁ id₂ id₃ now upload_id s
unfolding start_from
start_again id₁ id₂ id₃ id₄ id₅ id₆ now later upload_id none s e =
    start-none id₄ id₅ id₆ later upload_id s e
start_again id₁ id₂ id₃ id₄ id₅ id₆ now later upload_id (some initial) s e =
    start-Ready id₄ id₅ id₆ later upload_id initial _ _ _ _
      (start_from-Ready id₁ id₂ id₃ now upload_id initial s e)

-- To start the pipeline of an upload once more changes no row and dispatches the same graph, or none
-- again: the jobs that the first call found or made are used again, whatever identifiers and time
-- the database has for new ones.
pub start_ingestion_pipeline_idem :
    (id₁ id₂ id₃ id₄ id₅ id₆ now later upload_id : ℕ) (s : Session)
    → let first = start_ingestion_pipeline id₁ id₂ id₃ now upload_id s in
      start_ingestion_pipeline id₄ id₅ id₆ later upload_id first.1 ≡ first
unfolding start_ingestion_pipeline
start_ingestion_pipeline_idem id₁ id₂ id₃ id₄ id₅ id₆ now later upload_id s =
    start_again id₁ id₂ id₃ id₄ id₅ id₆ now later upload_id (find_pipeline_job upload_id s) s refl

-- Once an upload has a job to extract its pages, starting the pipeline leaves it with a metadata,
-- a chunking and an indexing job, all committed.
pub start_ingestion_pipeline-IsStarted :
    (id₁ id₂ id₃ now upload_id : ℕ) (s : Session) (initial : Job)
    → find_pipeline_job upload_id s ≡ some initial
    → IsStarted upload_id (start_ingestion_pipeline id₁ id₂ id₃ now upload_id s).1
unfolding start_ingestion_pipeline
start_ingestion_pipeline-IsStarted id₁ id₂ id₃ now upload_id s initial e =
    rw e (start_from-IsStarted id₁ id₂ id₃ now upload_id initial s)
