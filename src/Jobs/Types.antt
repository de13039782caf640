-- ===== src/Jobs/Types.antt =====
-- The rows of app/db/models.py that the ingestion tasks read and write, and the SQLAlchemy session.
-- Identifiers are only compared, so they are numbers; times are numbers too.
use fiqhmind_ai_backend.Prelude.{ℕ, Bool, true, false, String, Option, List}

-- `IngestionJob.status`: VALID_STATUSES, and any other string.
pub data Status : Type 0 where
  uploaded queued processing sanitizing extracting ocr ocr_correcting structuring chunking : Status
  embedding indexed completed failed : Status
  unknown : String → Status

-- `Upload.status`
pub data UploadStatus : Type 0 where
  uploading uploaded queued processing completed failed : UploadStatus

-- `IngestionJob.kind`
pub data Kind : Type 0 where
  initial reindex ocr extraction layout metadata chunking indexing : Kind

-- `IngestionJob`
pub record Job : Type 0 where
  pub id : ℕ
  pub upload_id : Option ℕ
  pub kind : Kind
  pub status : Status
  pub current_step : Option String
  pub progress_percent : ℕ
  pub error_message : Option String
  pub started_at : Option ℕ
  pub finished_at : Option ℕ
  pub created_at : ℕ

-- `Upload`, the columns that the tasks use
pub record UploadRow : Type 0 where
  pub id : ℕ
  pub status : UploadStatus
  pub error_message : Option String

-- `IngestionError`
pub record ErrorRow : Type 0 where
  pub job_id : ℕ
  pub step : String
  pub message : String

pub record Db : Type 0 where
  pub jobs : List Job
  pub uploads : List UploadRow
  pub errors : List ErrorRow

-- A session: what its objects hold, and what it has committed.
pub record Session : Type 0 where
  pub db : Db
  pub committed : Db

-- `status in VALID_STATUSES`
abbrev pub is_valid_status : Status → Bool
is_valid_status (Status.unknown _) = false
is_valid_status _ = true

-- `status in ("indexed", "completed", "failed")`
abbrev pub is_finished : Status → Bool
is_finished Status.indexed = true
is_finished Status.completed = true
is_finished Status.failed = true
is_finished _ = false
