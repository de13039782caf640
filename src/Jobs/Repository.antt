-- ===== src/Jobs/Repository.antt =====
-- app/db/repositories/base.py and app/db/repositories/ingestion_jobs.py over a `Session`. The
-- database answers every statement here; a step that can fail is the runner of a task.
pub mod Laws
use fiqhmind_ai_backend.Prelude.{
  ℕ, Bool, true, false, not, ◌&&◌, String, Option, none, some, List, [], ◌∷◌, ◌++◌, ltb, leb, ◌==◌,
  if◌then◌else◌, select, take,
}
use fiqhmind_ai_backend.Jobs.Types.{
  Status, Kind, Job, UploadRow, ErrorRow, Db, Session, is_valid_status, is_finished,
}

-- a call that can raise `ValueError`
pub data Call : Type 0 where
  returned : Call
  value_error : Status → Call

-- `session.commit()`
abbrev pub commit : Session → Session
commit s = record s { committed = s.db }

-- `session.rollback()`
abbrev pub rollback : Session → Session
rollback s = record s { db = s.committed }

-- the row with an identifier
abbrev pub find_job : ℕ → List Job → Option Job
find_job id [] = none
find_job id (job ∷ jobs) = if job.id == id then some job else find_job id jobs

abbrev pub find_upload : ℕ → List UploadRow → Option UploadRow
find_upload id [] = none
find_upload id (upload ∷ uploads) = if upload.id == id then some upload else find_upload id uploads

-- `IngestionJobRepository.get`, `UploadRepository.get`
abbrev pub get_job : ℕ → Session → Option Job
get_job id s = find_job id s.db.jobs

abbrev pub get_upload : ℕ → Session → Option UploadRow
get_upload id s = find_upload id s.db.uploads

-- assignments to the attributes of the row with an identifier
abbrev pub map_job : ℕ → (Job → Job) → List Job → List Job
map_job id f [] = []
map_job id f (job ∷ jobs) =
    let rest = map_job id f jobs in if job.id == id then f job ∷ rest else job ∷ rest

abbrev pub map_upload : ℕ → (UploadRow → UploadRow) → List UploadRow → List UploadRow
map_upload id f [] = []
map_upload id f (upload ∷ uploads) =
    let rest = map_upload id f uploads in if upload.id == id then f upload ∷ rest else upload ∷ rest

abbrev pub modify_job : ℕ → (Job → Job) → Session → Session
modify_job id f s = record s { db = record s.db { jobs = map_job id f s.db.jobs } }

abbrev pub modify_upload : ℕ → (UploadRow → UploadRow) → Session → Session
modify_upload id f s = record s { db = record s.db { uploads = map_upload id f s.db.uploads } }

-- `RepositoryBase.create` of a job
unfoldable pub create_job : Job → Session → Session
create_job job s = commit (record s { db = record s.db { jobs = s.db.jobs ++ job ∷ [] } })

-- `create_for_upload`; the identifier and the time are the database's
unfoldable pub create_for_upload : ℕ → ℕ → ℕ → Kind → Session → Session
unfolding create_job
create_for_upload id now upload_id kind = create_job (record {
  id = id;
  upload_id = some upload_id;
  kind = kind;
  status = Status.uploaded;
  current_step = none;
  progress_percent = 0;
  error_message = none;
  started_at = none;
  finished_at = none;
  created_at = now;
})

-- `add_error`
unfoldable pub add_error : ℕ → String → String → Session → Session
add_error job_id step message s =
    let row : ErrorRow = record { job_id = job_id; step = step; message = message } in
    commit (record s { db = record s.db { errors = s.db.errors ++ row ∷ [] } })

-- `value if value is not None else old`
abbrev pub or_keep {ℓ} : {A : Type ℓ} → Option A → A → A
or_keep none old = old
or_keep (some new) old = new

abbrev pub or_keep_some {ℓ} : {A : Type ℓ} → Option A → Option A → Option A
or_keep_some none old = old
or_keep_some (some new) old = some new

-- the assignments of `update_status`, at the time `now`
abbrev pub with_status : Status → Option ℕ → Option String → Option String → ℕ → Job → Job
with_status status progress_percent current_step error_message now job = record job {
  status = status;
  progress_percent = or_keep progress_percent job.progress_percent;
  current_step = or_keep_some current_step job.current_step;
  error_message = or_keep_some error_message job.error_message;
  finished_at = if is_finished status then some now else job.finished_at;
}

-- `update_status`
unfoldable pub update_status :
    ℕ → Status → Option ℕ → Option String → Option String → ℕ → Session → Call × Session
update_status job_id status progress_percent current_step error_message now s =
    if is_valid_status status
    then (
      returned,
      commit (
          modify_job job_id (with_status status progress_percent current_step error_message now) s),
    )
    else (value_error status, s)

abbrev pub is_for_upload : ℕ → Job → Bool
is_for_upload upload_id job = elim job.upload_id [ none ↦ false | some u ↦ u == upload_id ]

abbrev pub kind_index : Kind → ℕ
kind_index Kind.initial = 0
kind_index Kind.reindex = 1
kind_index Kind.ocr = 2
kind_index Kind.extraction = 3
kind_index Kind.layout = 4
kind_index Kind.metadata = 5
kind_index Kind.chunking = 6
kind_index Kind.indexing = 7

abbrev pub kind_eq : Kind → Kind → Bool
kind_eq a b = kind_index a == kind_index b

-- `kind NOT IN ('layout', 'metadata', 'chunking', 'indexing')`
abbrev pub is_pipeline_kind : Kind → Bool
is_pipeline_kind Kind.layout = false
is_pipeline_kind Kind.metadata = false
is_pipeline_kind Kind.chunking = false
is_pipeline_kind Kind.indexing = false
is_pipeline_kind _ = true

-- `ORDER BY created_at DESC LIMIT 1`
unfoldable pub most_recent : List Job → Option Job
most_recent [] = none
most_recent (job ∷ jobs) = elim (most_recent jobs) [
  | none ↦ some job
  | some other ↦ if ltb job.created_at other.created_at then some other else some job
]

-- `find_for_upload`
unfoldable pub find_for_upload : ℕ → Kind → Session → Option Job
unfolding most_recent
find_for_upload upload_id kind s =
    most_recent (
      select (λ job. if is_for_upload upload_id job then kind_eq job.kind kind else false)
        s.db.jobs)

-- `find_pipeline_job`
unfoldable pub find_pipeline_job : ℕ → Session → Option Job
unfolding most_recent
find_pipeline_job upload_id s = most_recent (
    select (λ job. if is_for_upload upload_id job then is_pipeline_kind job.kind else false)
      s.db.jobs)

-- `status NOT IN ('indexed', 'failed')`
abbrev pub is_listed_status : Status → Bool
is_listed_status Status.indexed = false
is_listed_status Status.failed = false
is_listed_status _ = true

abbrev pub is_listed_active : Job → Bool
is_listed_active job = is_listed_status job.status

-- the statuses of `list_active_for_upload`
abbrev pub is_in_flight : Status → Bool
is_in_flight Status.indexed = false
is_in_flight Status.completed = false
is_in_flight Status.failed = false
is_in_flight (Status.unknown _) = false
is_in_flight _ = true

-- one step of `ORDER BY created_at DESC`
unfoldable pub insert_newest : Job → List Job → List Job
insert_newest job [] = job ∷ []
insert_newest job (other ∷ jobs) =
    let later = insert_newest job jobs in
    if ltb job.created_at other.created_at then other ∷ later else job ∷ other ∷ jobs

unfoldable pub newest_first : List Job → List Job
unfolding insert_newest
newest_first [] = []
newest_first (job ∷ jobs) = insert_newest job (newest_first jobs)

-- `list_active`
unfoldable pub list_active : ℕ → Session → List Job
unfolding newest_first
list_active limit s = take limit (newest_first (select is_listed_active s.db.jobs))

-- `list_active_for_upload`
unfoldable pub list_active_for_upload : ℕ → Session → List Job
unfolding newest_first
list_active_for_upload upload_id s = newest_first (
    select (λ job. if is_for_upload upload_id job then is_in_flight job.status else false)
      s.db.jobs)
