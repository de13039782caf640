-- ===== src/Jobs/Repository/Laws.antt =====
-- What the repository's calls do to the rows.
use fiqhmind_ai_backend.Prelude.{ℕ, ◌≡◌, ◌≢◌, refl, some, List, [], ◌∷◌, arith}
use fiqhmind_ai_backend.Jobs.Types.{Job, UploadRow}
use fiqhmind_ai_backend.Jobs.Repository.{find_job, find_upload, map_job, map_upload}

-- An assignment that keeps the identifier is seen by the next look-up of the row.
pub find_job-map_job :
    (id : ℕ) (f : Job → Job) (jobs : List Job) (job : Job)
    → ((j : Job) → (f j).id ≡ j.id)
    → find_job id jobs ≡ some job
    → find_job id (map_job id f jobs) ≡ some (f job)
find_job-map_job id f [] job keep e = cc
find_job-map_job id f (j ∷ jobs) job keep e =
    ground (arith, keep j, find_job-map_job id f jobs job keep)

pub find_job-map_job_ne :
    (other id : ℕ) (f : Job → Job) (jobs : List Job)
    → ((j : Job) → (f j).id ≡ j.id)
    → other ≢ id
    → find_job other (map_job id f jobs) ≡ find_job other jobs
find_job-map_job_ne other id f [] keep ne = refl
find_job-map_job_ne other id f (j ∷ jobs) keep ne =
    ground (arith, keep j, find_job-map_job_ne other id f jobs keep ne)

pub find_upload-map_upload :
    (id : ℕ) (f : UploadRow → UploadRow) (uploads : List UploadRow) (upload : UploadRow)
    → ((u : UploadRow) → (f u).id ≡ u.id)
    → find_upload id uploads ≡ some upload
    → find_upload id (map_upload id f uploads) ≡ some (f upload)
find_upload-map_upload id f [] upload keep e = cc
find_upload-map_upload id f (u ∷ uploads) upload keep e =
    ground (arith, keep u, find_upload-map_upload id f uploads upload keep)
