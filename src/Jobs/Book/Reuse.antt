-- ===== src/Jobs/Book/Reuse.antt =====
-- What `find_for_upload` and `find_pipeline_job` find once `start_ingestion_pipeline_task` has made a
-- stage job: the new job for its own kind, and what they found before for the others.
use fiqhmind_ai_backend.Prelude.{
  ℕ, ◌≡◌, refl, ap, inl, inr, Bool, true, false, Option, none, some, List, [], ◌∷◌, ◌++◌, arith,
  select, Bool-cases, Option-cases,
}
use fiqhmind_ai_backend.Jobs.Types.{Kind, Job, Session}
use fiqhmind_ai_backend.Jobs.Repository.{
  kind_eq, is_pipeline_kind, most_recent, find_for_upload, find_pipeline_job, create_job,
}
use fiqhmind_ai_backend.Jobs.Book.{queued_job, reuse_or_create, ensure_stage_job}

module _ (p : Job → Bool) (job : Job) where
  select-snoc_out : (jobs : List Job) → p job ≡ false → select p (jobs ++ job ∷ []) ≡ select p jobs
  select-snoc_out [] out = rw out refl
  select-snoc_out (j ∷ jobs) out = rw (select-snoc_out jobs out) refl

  select-snoc_in :
      (jobs : List Job) → p job ≡ true → select p (jobs ++ job ∷ []) ≡ select p jobs ++ job ∷ []
  select-snoc_in [] counts = rw counts refl
  select-snoc_in (j ∷ jobs) counts = elim (Bool-cases (p j)) [
    | inl here ↦ rw (here, select-snoc_in jobs counts) refl
    | inr away ↦ rw (away, select-snoc_in jobs counts) refl
  ]

most_recent-none : (jobs : List Job) → most_recent jobs ≡ none → jobs ≡ []
unfolding most_recent
most_recent-none [] h = refl
most_recent-none (job ∷ jobs) h = elim (Option-cases (most_recent jobs)) [
  | inl nothing ↦ absurd (ground arith)
  | inr (other, found) ↦ absurd (ground arith)
]

module _ (p : Job → Bool) (job : Job) (jobs : List Job) where
  -- The only job that counts is the most recent one.
  most_recent-snoc_in :
      p job ≡ true
      → most_recent (select p jobs) ≡ none
      → most_recent (select p (jobs ++ job ∷ [])) ≡ some job
  unfolding most_recent
  most_recent-snoc_in counts h =
      rw (select-snoc_in p job jobs counts, most_recent-none (select p jobs) h) refl

module _ (id now upload_id : ℕ) (kind : Kind) where
  find-create_other :
      (other : Kind) (s : Session)
      → kind_eq kind other ≡ false
      → find_for_upload upload_id other (create_job (queued_job id now upload_id kind) s)
        ≡ find_for_upload upload_id other s
  unfolding find_for_upload create_job
  find-create_other other s apart =
      ap most_recent (select-snoc_out _ (queued_job id now upload_id kind) s.db.jobs (ground arith))

  find_pipeline-create :
      (s : Session)
      → is_pipeline_kind kind ≡ false
      → find_pipeline_job upload_id (create_job (queued_job id now upload_id kind) s)
        ≡ find_pipeline_job upload_id s
  unfolding find_pipeline_job create_job
  find_pipeline-create s stage =
      ap most_recent (select-snoc_out _ (queued_job id now upload_id kind) s.db.jobs (ground arith))

  find-create :
      (s : Session)
      → find_for_upload upload_id kind s ≡ none
      → find_for_upload upload_id kind (create_job (queued_job id now upload_id kind) s)
        ≡ some (queued_job id now upload_id kind)
  unfolding find_for_upload create_job
  find-create s h =
      most_recent-snoc_in _ (queued_job id now upload_id kind) s.db.jobs (ground arith) h

  -- what `ensure_stage_job` returns: the identifier of the job of the kind, which is now found
  abbrev pub Found : ℕ × Session → Type 0
  Found r = (job : Job) × (find_for_upload upload_id kind r.1 ≡ some job) × (job.id ≡ r.0)

  reuse_or_create-Found :
      (found : Option Job) (s : Session)
      → find_for_upload upload_id kind s ≡ found
      → Found (reuse_or_create found id now upload_id kind s)
  reuse_or_create-Found none s h = (queued_job id now upload_id kind, find-create s h, refl)
  reuse_or_create-Found (some job) s h = (job, h, refl)

  pub ensure-Found : (s : Session) → Found (ensure_stage_job id now upload_id kind s)
  unfolding ensure_stage_job
  ensure-Found s = reuse_or_create-Found (find_for_upload upload_id kind s) s refl

  reuse-other :
      (other : Kind) (found : Option Job) (s : Session)
      → kind_eq kind other ≡ false
      → find_for_upload upload_id other (reuse_or_create found id now upload_id kind s).1
        ≡ find_for_upload upload_id other s
  reuse-other other none s apart = find-create_other other s apart
  reuse-other other (some job) s apart = refl

  -- A job that is found stays so when a job of another kind is looked for or made.
  pub ensure-other :
      (other : Kind) (s : Session)
      → kind_eq kind other ≡ false
      → find_for_upload upload_id other (ensure_stage_job id now upload_id kind s).1
        ≡ find_for_upload upload_id other s
  unfolding ensure_stage_job
  ensure-other other s apart = reuse-other other (find_for_upload upload_id kind s) s apart

  reuse-pipeline :
      (found : Option Job) (s : Session)
      → is_pipeline_kind kind ≡ false
      → find_pipeline_job upload_id (reuse_or_create found id now upload_id kind s).1
        ≡ find_pipeline_job upload_id s
  reuse-pipeline none s stage = find_pipeline-create s stage
  reuse-pipeline (some job) s stage = refl

  pub ensure-pipeline :
      (s : Session)
      → is_pipeline_kind kind ≡ false
      → find_pipeline_job upload_id (ensure_stage_job id now upload_id kind s).1
        ≡ find_pipeline_job upload_id s
  unfolding ensure_stage_job
  ensure-pipeline s stage = reuse-pipeline (find_for_upload upload_id kind s) s stage

-- A job that is found is reused: its identifier is returned, and nothing changes.
pub ensure-reuse :
    (id now upload_id : ℕ) (kind : Kind) (job : Job) (s : Session)
    → find_for_upload upload_id kind s ≡ some job
    → ensure_stage_job id now upload_id kind s ≡ (job.id, s)
unfolding ensure_stage_job
ensure-reuse id now upload_id kind job s h =
    ap (λ found. reuse_or_create found id now upload_id kind s) h
