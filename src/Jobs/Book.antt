-- ===== src/Jobs/Book.antt =====
-- The per-book graph of app/tasks/book.py: its stages as data, the error hook, and the task that
-- creates the stage jobs of an upload and dispatches the graph.
pub mod Failure
pub mod Reuse
pub mod Pipeline
use text.Mathlib.Text.{◌==◌ as str_eq}
use fiqhmind_ai_backend.Prelude.{
  ℕ, ◌+◌, Bool, true, false, String, Option, none, some, List, [], ◌∷◌, ◌++◌, if◌then◌else◌,
}
use fiqhmind_ai_backend.Jobs.Types.{Status, UploadStatus, Kind, Job, UploadRow, Db, Session}
use fiqhmind_ai_backend.Jobs.Repository.{
  commit, get_upload, modify_upload, update_status, list_active_for_upload, find_for_upload,
  find_pipeline_job, create_job,
}
use fiqhmind_ai_backend.Jobs.Tasks.{fail_upload}

-- A signature of a leaf task in a graph, with its arguments; each has `fail_book_jobs` as its
-- `link_error`, with the upload and the job that the second field names.
pub data Leaf : Type 0 where
  extract_pdf : ℕ → Leaf
  run_metadata : ℕ → Leaf
  run_chunking : ℕ → Option ℕ → Leaf
  embed_chunks : Option ℕ → Leaf
  run_indexing : ℕ → Option ℕ → Leaf

pub record Step : Type 0 where
  pub leaf : Leaf
  pub on_error : ℕ

-- `chain(…)` of steps or groups, each a list of steps that run side by side
abbrev pub Graph : Type 0
Graph = List (List Step)

abbrev pub alone : Leaf → ℕ → List Step
alone leaf job = record { leaf = leaf; on_error = job } ∷ []

-- `build_extraction_stage`
abbrev pub build_extraction_stage : ℕ → Graph
build_extraction_stage job_id = alone (extract_pdf job_id) job_id ∷ []

-- `build_chunking_stage`
abbrev pub build_chunking_stage : ℕ → Option ℕ → Graph
build_chunking_stage job_id metadata_job_id =
    alone (run_chunking job_id metadata_job_id) job_id ∷ []

-- `build_indexing_stage`
abbrev pub build_indexing_stage : ℕ → Option ℕ → Graph
build_indexing_stage job_id chunking_job_id =
    (record { leaf = embed_chunks chunking_job_id; on_error = job_id }
      ∷ record { leaf = run_indexing job_id chunking_job_id; on_error = job_id }
      ∷ [])
    ∷ []

-- `build_book_graph`
unfoldable pub build_book_graph : ℕ → ℕ → ℕ → ℕ → Graph
build_book_graph extraction_job_id chunking_job_id indexing_job_id metadata_job_id =
    alone (extract_pdf extraction_job_id) extraction_job_id
    ∷ alone (run_metadata metadata_job_id) metadata_job_id
    ∷ alone (run_chunking chunking_job_id (some metadata_job_id)) chunking_job_id
    ∷ build_indexing_stage indexing_job_id (some chunking_job_id)

-- `build_stage_graph`; an unknown stage is a `ValueError`
unfoldable pub build_stage_graph : String → ℕ → Option ℕ → Option ℕ → Option Graph
build_stage_graph stage job_id metadata_job_id chunking_job_id =
    if str_eq stage "extraction"
    then some (build_extraction_stage job_id)
    else if str_eq stage "chunking"
    then some (build_chunking_stage job_id metadata_job_id)
    else if str_eq stage "indexing"
    then some (build_indexing_stage job_id chunking_job_id)
    else none

-- the loop of `fail_book_jobs`; the status "failed" is valid
unfoldable pub fail_each : String → ℕ → List Job → Session → Session
unfolding update_status
fail_each message now [] s = s
fail_each message now (job ∷ jobs) s =
    fail_each message now jobs (update_status job.id Status.failed none none (some message) now s).1

abbrev pub fail_found : ℕ → String → Option UploadRow → Session → Session
fail_found upload_id message none s = s
fail_found upload_id message (some upload) s = modify_upload upload_id (fail_upload message) s

-- `fail_book_jobs`; `message` is the text with the failed job's identifier
unfoldable pub fail_book_jobs : ℕ → String → ℕ → Session → Session
unfolding fail_each list_active_for_upload
fail_book_jobs upload_id message now s =
    let s' = fail_each message now (list_active_for_upload upload_id s) s in
    commit (fail_found upload_id message (get_upload upload_id s') s')

-- a job row as `start_ingestion_pipeline_task` makes it; the identifier and the time are the
-- database's
abbrev pub queued_job : ℕ → ℕ → ℕ → Kind → Job
queued_job id now upload_id kind = record {
  id = id;
  upload_id = some upload_id;
  kind = kind;
  status = Status.queued;
  current_step = none;
  progress_percent = 0;
  error_message = none;
  started_at = none;
  finished_at = none;
  created_at = now;
}

-- `find_for_upload`, and `create` if there is none: the job's identifier and the new session
abbrev pub reuse_or_create : Option Job → ℕ → ℕ → ℕ → Kind → Session → ℕ × Session
reuse_or_create (some job) id now upload_id kind s = (job.id, s)
reuse_or_create none id now upload_id kind s = (id, create_job (queued_job id now upload_id kind) s)

unfoldable pub ensure_stage_job : ℕ → ℕ → ℕ → Kind → Session → ℕ × Session
unfolding find_for_upload create_job
ensure_stage_job id now upload_id kind s =
    reuse_or_create (find_for_upload upload_id kind s) id now upload_id kind s

-- `start_ingestion_pipeline_task` from the extraction job on, with three fresh identifiers
abbrev pub start_from : Option Job → ℕ → ℕ → ℕ → ℕ → ℕ → Session → Option Graph × Session
unfolding ensure_stage_job
start_from none id₁ id₂ id₃ now upload_id s = (none, s)
start_from (some initial) id₁ id₂ id₃ now upload_id s =
    let (metadata, s₁) = ensure_stage_job id₁ now upload_id Kind.metadata s in
    let (chunking, s₂) = ensure_stage_job id₂ now upload_id Kind.chunking s₁ in
    let (indexing, s₃) = ensure_stage_job id₃ now upload_id Kind.indexing s₂ in
    (some (build_book_graph initial.id chunking indexing metadata), commit s₃)

-- `start_ingestion_pipeline_task`: the graph that is dispatched, if any
unfoldable pub start_ingestion_pipeline : ℕ → ℕ → ℕ → ℕ → ℕ → Session → Option Graph × Session
unfolding start_from find_pipeline_job build_book_graph
start_ingestion_pipeline id₁ id₂ id₃ now upload_id s =
    start_from (find_pipeline_job upload_id s) id₁ id₂ id₃ now upload_id s

-- the body of `process_book_task`: without the upload nothing is dispatched, and an unknown stage
-- raises
pub data Dispatch : Type 0 where
  missing : Dispatch
  unknown_stage : Dispatch
  dispatched : Graph → Dispatch

abbrev pub dispatch : Option Graph → Dispatch
dispatch none = unknown_stage
dispatch (some graph) = dispatched graph

-- `process_book_task`, which changes no row
unfoldable pub process_book : ℕ → String → ℕ → Option ℕ → Option ℕ → Session → Dispatch
unfolding build_stage_graph
process_book upload_id stage job_id metadata_job_id chunking_job_id s =
    elim (get_upload upload_id s) [
      | none ↦ missing
      | some upload ↦ dispatch (build_stage_graph stage job_id metadata_job_id chunking_job_id)
    ]
