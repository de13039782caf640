-- ===== src/Jobs/Tasks.antt =====
-- The Celery tasks of app/tasks/ingestion.py. Each leaf task runs one of the runners of
-- app/services on its job; what the runner does to the session, and how it ends, is an argument.
pub mod Settled
use fiqhmind_ai_backend.Prelude.{
  ℕ, zero, suc, ◌+◌, ◌*◌, ◌^◌, min, Bool, true, false, String, Option, none, some, ltb,
  if◌then◌else◌,
}
use fiqhmind_ai_backend.Jobs.Types.{Status, UploadStatus, Job, UploadRow, Session}
use fiqhmind_ai_backend.Jobs.Repository.{
  Call, returned, value_error, commit, rollback, get_job, get_upload, modify_upload, add_error,
  update_status,
}

abbrev pub max_retries : ℕ
max_retries = 3

-- how a runner ends: it returns, raises an error that the task takes as permanent, or raises any
-- other exception; with the message
pub data Outcome : Type 0 where
  done : Outcome
  permanent_error : String → Outcome
  other_error : String → Outcome

-- how a task ends: it returns, or it raises Celery's `Retry` with a countdown in seconds
pub data Ending : Type 0 where
  finished : Ending
  retry : ℕ → Ending

-- where the leaf tasks differ
pub record Leaf : Type 0 where
  -- the status and the step of `update_status` when the runner returns
  pub final_status : Status
  pub final_step : String
  -- the step of the error rows
  pub error_step : String
  -- an `except` clause for the permanent errors stands before `except Exception`
  pub has_permanent : Bool

abbrev pub extract_pdf : Leaf
extract_pdf = record {
  final_status = Status.completed;
  final_step = "extracting";
  error_step = "extracting";
  has_permanent = true;
}

abbrev pub run_layout : Leaf
run_layout = record {
  final_status = Status.completed;
  final_step = "layout";
  error_step = "layout";
  has_permanent = false;
}

abbrev pub run_metadata : Leaf
run_metadata = record {
  final_status = Status.completed;
  final_step = "metadata";
  error_step = "metadata";
  has_permanent = false;
}

abbrev pub run_chunking : Leaf
run_chunking = record {
  final_status = Status.completed;
  final_step = "chunking";
  error_step = "chunking";
  has_permanent = true;
}

abbrev pub index_book_chunks : Leaf
index_book_chunks = record {
  final_status = Status.indexed;
  final_step = "embedding";
  error_step = "indexing";
  has_permanent = true;
}

-- `_retry_countdown`
unfoldable pub retry_countdown : ℕ → ℕ
retry_countdown retries = min (2 ^ retries * 10) 120

abbrev pub set_upload_status : UploadStatus → UploadRow → UploadRow
set_upload_status status upload = record upload { status = status }

abbrev pub fail_upload : String → UploadRow → UploadRow
fail_upload message upload = record upload {
  status = UploadStatus.failed;
  error_message = some message;
}

-- `_record_error_and_fail`, on the part for the job
abbrev pub fail_job : Option ℕ → String → Bool → String → ℕ → Session → Session
fail_job none message permanent step now s = s
fail_job (some job_id) message permanent step now s =
    let recorded = add_error job_id step message s in
    if permanent
    then (update_status job_id Status.failed none none (some message) now recorded).1
    else recorded

-- `_record_error_and_fail`; the status "failed" is valid, so `update_status` does not raise
unfoldable pub record_error_and_fail :
    Option ℕ → Option ℕ → String → Bool → String → ℕ → Session → Session
unfolding add_error update_status
record_error_and_fail job none message permanent step now s =
    fail_job job message permanent step now s
record_error_and_fail job (some upload_id) message permanent step now s =
    let s' = fail_job job message permanent step now s in
    if permanent then commit (modify_upload upload_id (fail_upload message) s') else s'

-- `mark_queued`, on its part for the job and on its part for the upload
abbrev pub queue_job : Option Job → ℕ → Session → Session
queue_job none now s = s
queue_job (some job) now s = elim job.status [
  | Status.uploaded ↦ (update_status job.id Status.queued none none none now s).1
  | _ ↦ s
]

abbrev pub queue_upload : Option UploadRow → Session → Session
queue_upload none s = s
queue_upload (some upload) s = elim upload.status [
  | UploadStatus.uploaded ↦
      commit (modify_upload upload.id (set_upload_status UploadStatus.queued) s)
  | _ ↦ s
]

unfoldable pub mark_queued : ℕ → ℕ → ℕ → Session → Session
unfolding update_status
mark_queued job_id upload_id now s =
    let s' = queue_job (get_job job_id s) now s in queue_upload (get_upload upload_id s') s'

module _ (leaf : Leaf) (job_id upload_id : ℕ) (retries now : ℕ) where
  -- `except Exception as exc`
  abbrev pub on_exception : String → Session → Ending × Session
  on_exception message s =
      let s' = add_error job_id leaf.error_step message (rollback s) in
      if ltb retries max_retries then (retry (retry_countdown retries), s') else (
        finished,
        record_error_and_fail (some job_id) (some upload_id) message true leaf.error_step now s',
      )

  -- `except` of the permanent errors
  abbrev pub on_permanent : String → Session → Ending × Session
  on_permanent message s = (
    finished,
    record_error_and_fail (some job_id) (some upload_id) message true leaf.error_step now
        (rollback s),
  )

  -- the end of the `try` body, after `update_status`
  abbrev pub after_status : Call × Session → Ending × Session
  after_status (returned, s) =
      (finished, commit (modify_upload upload_id (set_upload_status UploadStatus.completed) s))
  after_status (value_error status, s) = on_exception "invalid ingestion status" s

  -- what the task does when its runner has ended
  abbrev pub after_run : Outcome × Session → Ending × Session
  after_run (done, s) =
      after_status
        (update_status job_id leaf.final_status (some 100) (some leaf.final_step) none now s)
  after_run (permanent_error message, s) =
      if leaf.has_permanent then on_permanent message s else on_exception message s
  after_run (other_error message, s) = on_exception message s

-- both rows are there
abbrev pub both_found : Option Job → Option UploadRow → Bool
both_found (some _) (some _) = true
both_found _ _ = false

-- A leaf task with a runner. `self.request.retries` counts the earlier deliveries.
unfoldable pub leaf_task :
    Leaf → ℕ → ℕ → ℕ → ℕ → (Session → Outcome × Session) → Session → Ending × Session
unfolding update_status add_error record_error_and_fail
leaf_task leaf job_id upload_id retries now runner s =
    if both_found (get_job job_id s) (get_upload upload_id s)
    then after_run leaf job_id upload_id retries now (runner s)
    else (finished, s)

-- Celery delivers the task again, to the session as it is then, after `Retry`.
abbrev pub redeliver : Ending × Session → (Session → Ending × Session) → Ending × Session
redeliver (finished, s) next = (finished, s)
redeliver (retry _, s) next = next s

-- The deliveries of a task, `fuel` at most. A runner may do something else each time.
unfoldable pub deliver :
    ℕ → Leaf → ℕ → ℕ → ℕ → ℕ → (ℕ → Session → Outcome × Session) → Session → Ending × Session
unfolding leaf_task
deliver zero leaf job_id upload_id retries now runner s = (retry 0, s)
deliver (suc fuel) leaf job_id upload_id retries now runner s =
    redeliver (leaf_task leaf job_id upload_id retries now (runner retries) s)
      (deliver fuel leaf job_id upload_id (retries + 1) now runner)
