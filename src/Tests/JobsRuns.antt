-- ===== src/Tests/JobsRuns.antt =====
-- An upload with its extraction job, whose task fails, is tried again and comes to an end.
use fiqhmind_ai_backend.Prelude.{ℕ, zero, suc, inl, inr, ◌≡◌, refl, none, some, [], ◌∷◌, arith}
use fiqhmind_ai_backend.Chunking.Ranges.Tiling.{OneOf}
use fiqhmind_ai_backend.Jobs.Types.{Status, UploadStatus, Kind, Job, UploadRow, Db, Session}
use fiqhmind_ai_backend.Jobs.Repository.{get_job, list_active_for_upload}
use fiqhmind_ai_backend.Jobs.Tasks.{Outcome, done, other_error, finished, extract_pdf, deliver}
use fiqhmind_ai_backend.Jobs.Tasks.Settled.{Known, Settled, KeepsRows, deliver-Settled}
use fiqhmind_ai_backend.Jobs.Book.{fail_book_jobs, start_ingestion_pipeline}
use fiqhmind_ai_backend.Jobs.Book.Failure.{ids, fail_book_jobs-active, fail_book_jobs-others}
use fiqhmind_ai_backend.Jobs.Book.Pipeline.{start_ingestion_pipeline_idem}

abbrev job : ℕ → ℕ → Kind → Status → Job
job id upload_id kind status = record {
  id = id;
  upload_id = some upload_id;
  kind = kind;
  status = status;
  current_step = none;
  progress_percent = 0;
  error_message = none;
  started_at = none;
  finished_at = none;
  created_at = id;
}

abbrev extraction_job : Job
extraction_job = job 1 7 Kind.initial Status.queued

abbrev upload : UploadRow
upload = record { id = 7; status = UploadStatus.uploaded; error_message = none }

abbrev rows : Db
rows = record {
  jobs = extraction_job ∷ job 2 8 Kind.initial Status.queued ∷ [];
  uploads = upload ∷ [];
  errors = [];
}

abbrev session : Session
session = record { db = rows; committed = rows }

-- it fails at the first delivery, and returns at the second
abbrev runner : ℕ → Session → Outcome × Session
runner zero s = (other_error "the file is locked", s)
runner (suc n) s = (done, s)

runner-KeepsRows : (n : ℕ) → KeepsRows extract_pdf refl 1 7 (runner n)
runner-KeepsRows zero = λ s k. k
runner-KeepsRows (suc n) = λ s k. k

not_listed : ¬ OneOf 2 (ids (list_active_for_upload 7 session))
unfolding list_active_for_upload
not_listed (inl same) = absurd (omega arith)
not_listed (inr later) = absurd later

abbrev session-Known : Known 1 7 session
session-Known = record {
  job = extraction_job;
  upload = upload;
  saved_job = extraction_job;
  saved_upload = upload;
  job_there = refl;
  upload_there = refl;
  job_saved = refl;
  upload_saved = refl;
}

deliver-Settled_example :
    ((deliver 4 extract_pdf 1 7 0 100 runner session).0 ≡ finished)
    × Settled extract_pdf 1 7 (deliver 4 extract_pdf 1 7 0 100 runner session).1
deliver-Settled_example =
    deliver-Settled extract_pdf refl 1 7 4 0 100 runner session (omega arith) (omega arith)
      runner-KeepsRows session-Known

fail_book_jobs-active_example :
    list_active_for_upload 7 (fail_book_jobs 7 "job 1 failed" 100 session) ≡ []
fail_book_jobs-active_example = fail_book_jobs-active 7 "job 1 failed" 100 session

fail_book_jobs-others_example :
    get_job 2 (fail_book_jobs 7 "job 1 failed" 100 session) ≡ get_job 2 session
fail_book_jobs-others_example = fail_book_jobs-others 7 "job 1 failed" 100 session 2 not_listed

start_ingestion_pipeline_idem_example :
    let first = start_ingestion_pipeline 3 4 5 100 7 session in
    start_ingestion_pipeline 13 14 15 200 7 first.1 ≡ first
start_ingestion_pipeline_idem_example =
    start_ingestion_pipeline_idem 3 4 5 13 14 15 100 200 7 session
