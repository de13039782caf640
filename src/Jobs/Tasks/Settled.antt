-- ===== src/Jobs/Tasks/Settled.antt =====
-- How a leaf task leaves its job and its upload.
use fiqhmind_ai_backend.Prelude.{
  ℕ, zero, suc, ◌+◌, ◌≤◌, ◌<◌, ◌≡◌, refl, ◌⊎◌, inl, inr, true, String, none, some, arith, ltb,
  Bool-cases, ltb→lt,
}
use fiqhmind_ai_backend.Jobs.Types.{Status, UploadStatus, Job, UploadRow, Session, is_valid_status}
use fiqhmind_ai_backend.Jobs.Repository.{
  find_job, find_upload, with_status, add_error, update_status, rollback,
}
use fiqhmind_ai_backend.Jobs.Repository.Laws.{find_job-map_job, find_upload-map_upload}
use fiqhmind_ai_backend.Jobs.Tasks.{
  Leaf, Outcome, done, permanent_error, other_error, Ending, finished, retry, max_retries,
  set_upload_status, fail_upload, record_error_and_fail, on_exception, on_permanent, after_run,
  leaf_task, deliver, retry_countdown, redeliver,
}

-- The rows of a job and an upload are there, in the session and in what it has committed.
pub record Known (job_id upload_id : ℕ) (s : Session) : Type 0 where
  pub job : Job
  pub upload : UploadRow
  pub saved_job : Job
  pub saved_upload : UploadRow
  pub job_there : find_job job_id s.db.jobs ≡ some job
  pub upload_there : find_upload upload_id s.db.uploads ≡ some upload
  pub job_saved : find_job job_id s.committed.jobs ≡ some saved_job
  pub upload_saved : find_upload upload_id s.committed.uploads ≡ some saved_upload

-- The task has run to its end: its job and its upload have failed, or have been completed; and all
-- of it is committed.
pub record Settled (leaf : Leaf) (job_id upload_id : ℕ) (s : Session) : Type 0 where
  pub job : Job
  pub upload : UploadRow
  pub job_there : find_job job_id s.db.jobs ≡ some job
  pub upload_there : find_upload upload_id s.db.uploads ≡ some upload
  pub verdict :
      ((job.status ≡ Status.failed) × (upload.status ≡ UploadStatus.failed))
      ⊎ ((job.status ≡ leaf.final_status)
          × (job.progress_percent ≡ 100)
          × (upload.status ≡ UploadStatus.completed))
  pub all_saved : s.committed ≡ s.db

module _ (leaf : Leaf) (job_id upload_id : ℕ) where
  record_error_and_fail-Settled :
      (message step : String) (now : ℕ) (s : Session)
      → Known job_id upload_id s
      → Settled leaf job_id upload_id
          (record_error_and_fail (some job_id) (some upload_id) message true step now s)
  unfolding record_error_and_fail
  record_error_and_fail-Settled message step now s k = record {
    job = with_status Status.failed none none (some message) now k.job;
    upload = fail_upload message k.upload;
    job_there = find_job-map_job job_id _ s.db.jobs k.job (λ j. refl) k.job_there;
    upload_there =
        find_upload-map_upload upload_id _ s.db.uploads k.upload (λ u. refl) k.upload_there;
    verdict = inl (refl, refl);
    all_saved = refl;
  }

  rollback-Known : (s : Session) → Known job_id upload_id s → Known job_id upload_id (rollback s)
  rollback-Known s k = record {
    job = k.saved_job;
    upload = k.saved_upload;
    saved_job = k.saved_job;
    saved_upload = k.saved_upload;
    job_there = k.job_saved;
    upload_there = k.upload_saved;
    job_saved = k.job_saved;
    upload_saved = k.upload_saved;
  }

  add_error-Known :
      (step message : String) (s : Session)
      → Known job_id upload_id s
      → Known job_id upload_id (add_error job_id step message s)
  unfolding add_error
  add_error-Known step message s k = record {
    job = k.job;
    upload = k.upload;
    saved_job = k.job;
    saved_upload = k.upload;
    job_there = k.job_there;
    upload_there = k.upload_there;
    job_saved = k.job_there;
    upload_saved = k.upload_there;
  }

-- The final status of a leaf is one that `update_status` takes.
abbrev pub IsLeaf : Leaf → Type 0
IsLeaf leaf = is_valid_status leaf.final_status ≡ true

module _ (leaf : Leaf) (valid : IsLeaf leaf) (job_id upload_id : ℕ) where
  -- What one delivery comes to: it settles, or asks to be delivered again, with the rows still
  -- there, which it does three times at most.
  abbrev Ends : ℕ → Ending × Session → Type 0
  Ends retries (finished, s) = Settled leaf job_id upload_id s
  Ends retries (retry countdown, s) =
      Known job_id upload_id s × (retries < max_retries) × (countdown ≡ retry_countdown retries)

  on_exception-Ends :
      (retries now : ℕ) (message : String) (s : Session)
      → Known job_id upload_id s
      → Ends retries (on_exception leaf job_id upload_id retries now message s)
  on_exception-Ends retries now message s k =
      let recorded =
        add_error-Known leaf job_id upload_id leaf.error_step message (rollback s)
          (rollback-Known leaf job_id upload_id s k) in
      elim (Bool-cases (ltb retries max_retries)) [
        | inl again ↦ rw again (recorded, ltb→lt retries max_retries again, refl)
        | inr no_more ↦ rw no_more (
            record_error_and_fail-Settled leaf job_id upload_id message leaf.error_step now _
              recorded)
      ]

  on_permanent-Ends :
      (retries now : ℕ) (message : String) (s : Session)
      → Known job_id upload_id s
      → Ends retries (on_permanent leaf job_id upload_id retries now message s)
  on_permanent-Ends retries now message s k =
      record_error_and_fail-Settled leaf job_id upload_id message leaf.error_step now (rollback s)
        (rollback-Known leaf job_id upload_id s k)

  completed-Ends :
      (retries now : ℕ) (s : Session)
      → Known job_id upload_id s
      → Ends retries (after_run leaf job_id upload_id retries now (done, s))
  unfolding update_status
  completed-Ends retries now s k = rw valid (record {
    job = with_status leaf.final_status (some 100) (some leaf.final_step) none now k.job;
    upload = set_upload_status UploadStatus.completed k.upload;
    job_there = find_job-map_job job_id _ s.db.jobs k.job (λ j. refl) k.job_there;
    upload_there =
        find_upload-map_upload upload_id _ s.db.uploads k.upload (λ u. refl) k.upload_there;
    verdict = inr (refl, refl, refl);
    all_saved = refl;
  })

  after_run-Ends :
      (retries now : ℕ) (outcome : Outcome) (s : Session)
      → Known job_id upload_id s
      → Ends retries (after_run leaf job_id upload_id retries now (outcome, s))
  after_run-Ends retries now done s k = completed-Ends retries now s k
  after_run-Ends retries now (permanent_error message) s k = elim (Bool-cases leaf.has_permanent) [
    | inl caught ↦ simp caught (on_permanent-Ends retries now message s k)
    | inr passed ↦ simp passed (on_exception-Ends retries now message s k)
  ]
  after_run-Ends retries now (other_error message) s k = on_exception-Ends retries now message s k

  -- The runner leaves the two rows where they are.
  abbrev pub KeepsRows : (Session → Outcome × Session) → Type 0
  KeepsRows runner = (s : Session) → Known job_id upload_id s → Known job_id upload_id (runner s).1

  leaf_task-Ends :
      (retries now : ℕ) (runner : Session → Outcome × Session) (s : Session)
      → KeepsRows runner
      → Known job_id upload_id s
      → Ends retries (leaf_task leaf job_id upload_id retries now runner s)
  unfolding leaf_task
  leaf_task-Ends retries now runner s keeps k =
      rw (k.job_there, k.upload_there)
        (after_run-Ends retries now (runner s).0 (runner s).1 (keeps s k))

  redelivered :
      (fuel retries now : ℕ) (runner : ℕ → Session → Outcome × Session)
      → ((n : ℕ) → KeepsRows (runner n))
      → max_retries < retries + suc fuel
      → (r : Ending × Session) → Ends retries r
      → ((s : Session)
          → max_retries < (retries + 1) + fuel
          → retries + 1 ≤ max_retries
          → ((n : ℕ) → KeepsRows (runner n))
          → Known job_id upload_id s
          → ((deliver fuel leaf job_id upload_id (retries + 1) now runner s).0 ≡ finished)
            × Settled leaf job_id upload_id
                (deliver fuel leaf job_id upload_id (retries + 1) now runner s).1)
      → let r' = redeliver r (deliver fuel leaf job_id upload_id (retries + 1) now runner) in
        (r'.0 ≡ finished) × Settled leaf job_id upload_id r'.1
  redelivered fuel retries now runner keeps more (finished, s) ends next = (refl, ends)
  redelivered fuel retries now runner keeps more (retry countdown, s) ends next =
      next s (omega arith) (omega (arith, ends.1)) keeps ends.0

  -- Whatever its runner does each time, so long as it keeps the two rows, a leaf task comes to an
  -- end within the deliveries that its retries allow: its job has failed with its upload, or is at
  -- its final status with progress 100 and a completed upload, and all of it is committed.
  pub deliver-Settled :
      (fuel retries now : ℕ) (runner : ℕ → Session → Outcome × Session) (s : Session)
      → max_retries < retries + fuel
      → retries ≤ max_retries
      → ((n : ℕ) → KeepsRows (runner n))
      → Known job_id upload_id s
      → ((deliver fuel leaf job_id upload_id retries now runner s).0 ≡ finished)
        × Settled leaf job_id upload_id (deliver fuel leaf job_id upload_id retries now runner s).1
  unfolding deliver
  deliver-Settled zero retries now runner s more below keeps k = absurd (omega arith)
  deliver-Settled (suc fuel) retries now runner s more below keeps k =
      redelivered fuel retries now runner keeps more
        (leaf_task leaf job_id upload_id retries now (runner retries) s)
        (leaf_task-Ends retries now (runner retries) s (keeps retries) k)
        (deliver-Settled fuel (retries + 1) now runner)
