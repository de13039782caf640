-- ===== src/Jobs/Book/Failure.antt =====
-- What `fail_book_jobs` leaves: no job of the book in flight, and all other jobs as they were.
use fiqhmind_ai_backend.Prelude.{
  ℕ, ◌≡◌, refl, ap, ◌∙◌, inl, inr, Bool, true, false, String, Option, none, some, List, [], ◌∷◌,
  map, arith, ◌==◌, if◌then◌else◌, Bool-cases, select, All,
}
use fiqhmind_ai_backend.Chunking.Ranges.Tiling.{OneOf}
use fiqhmind_ai_backend.Jobs.Types.{Status, Job, UploadRow, Session}
use fiqhmind_ai_backend.Jobs.Repository.{
  find_job, find_upload, map_job, with_status, get_job, get_upload, is_for_upload, is_in_flight,
  insert_newest, newest_first, list_active_for_upload,
}
use fiqhmind_ai_backend.Jobs.Repository.Laws.{find_job-map_job_ne, find_upload-map_upload}
use fiqhmind_ai_backend.Jobs.Tasks.{fail_upload}
use fiqhmind_ai_backend.Jobs.Book.{fail_each, fail_found, fail_book_jobs}

-- the condition of `list_active_for_upload`
abbrev is_active : ℕ → Job → Bool
is_active upload_id job = if is_for_upload upload_id job then is_in_flight job.status else false

abbrev pub ids : List Job → List ℕ
ids jobs = map (λ job. job.id) jobs

-- a row that is active is among the identifiers
abbrev Covered : ℕ → List ℕ → Job → Type 0
Covered upload_id ns job = is_active upload_id job ≡ true → OneOf job.id ns

insert_newest-OneOf_self :
    (job : Job) (jobs : List Job) → OneOf job.id (ids (insert_newest job jobs))
unfolding insert_newest
insert_newest-OneOf_self job [] = inl refl
insert_newest-OneOf_self job (other ∷ jobs) = ground (arith, insert_newest-OneOf_self job jobs)

insert_newest-OneOf :
    (n : ℕ) (job : Job) (jobs : List Job)
    → OneOf n (ids jobs)
    → OneOf n (ids (insert_newest job jobs))
unfolding insert_newest
insert_newest-OneOf n job [] h = absurd h
insert_newest-OneOf n job (other ∷ jobs) h = ground (arith, insert_newest-OneOf n job jobs)

newest_first-OneOf :
    (n : ℕ) (jobs : List Job) → OneOf n (ids jobs) → OneOf n (ids (newest_first jobs))
unfolding newest_first
newest_first-OneOf n [] h = absurd h
newest_first-OneOf n (job ∷ jobs) (inl here) =
    rw here (insert_newest-OneOf_self job (newest_first jobs))
newest_first-OneOf n (job ∷ jobs) (inr later) =
    insert_newest-OneOf n job (newest_first jobs) (newest_first-OneOf n jobs later)

select-Covered :
    (upload_id : ℕ) (ns : List ℕ) (jobs : List Job)
    → ((n : ℕ) → OneOf n (ids (select (is_active upload_id) jobs)) → OneOf n ns)
    → All (Covered upload_id ns) jobs
select-Covered upload_id ns [] listed = tt
select-Covered upload_id ns (job ∷ jobs) listed = elim (Bool-cases (is_active upload_id job)) [
  | inl active ↦ (
    λ a. listed job.id (rw active (inl refl)),
    select-Covered upload_id ns jobs (λ n h. listed n (rw active (inr h))),
  )
  | inr other ↦
      (λ a. cc (a, other), select-Covered upload_id ns jobs (λ n h. listed n (rw other h)))
]

OneOf-rest : (m n : ℕ) (ns : List ℕ) → (m == n) ≡ false → OneOf m (n ∷ ns) → OneOf m ns
OneOf-rest m n ns ne (inl here) = absurd (ground arith)
OneOf-rest m n ns ne (inr later) = later

failed_inactive :
    (upload_id : ℕ) (message : String) (now : ℕ) (job : Job)
    → is_active upload_id (with_status Status.failed none none (some message) now job) ≡ false
failed_inactive upload_id message now job = ground arith

-- to fail the rows of one identifier takes it off the list
fail_one-Covered :
    (upload_id n : ℕ) (ns : List ℕ) (message : String) (now : ℕ) (jobs : List Job)
    → All (Covered upload_id (n ∷ ns)) jobs
    → All
        (Covered upload_id ns)
        (map_job n (with_status Status.failed none none (some message) now) jobs)
fail_one-Covered upload_id n ns message now [] h = tt
fail_one-Covered upload_id n ns message now (job ∷ jobs) h =
    let rest = fail_one-Covered upload_id n ns message now jobs h.1 in
    elim (Bool-cases (job.id == n)) [
      | inl same ↦ simp same ((λ a. cc (a, failed_inactive upload_id message now job)), rest)
      | inr other ↦ simp other ((λ a. OneOf-rest job.id n ns other (h.0 a)), rest)
    ]

fail_each-Covered :
    (upload_id : ℕ) (message : String) (now : ℕ) (failing : List Job) (s : Session)
    → All (Covered upload_id (ids failing)) s.db.jobs
    → All (Covered upload_id []) (fail_each message now failing s).db.jobs
unfolding fail_each
fail_each-Covered upload_id message now [] s h = h
fail_each-Covered upload_id message now (job ∷ failing) s h =
    fail_each-Covered upload_id message now failing _
      (fail_one-Covered upload_id job.id (ids failing) message now s.db.jobs h)

select_of_Covered :
    (upload_id : ℕ) (jobs : List Job)
    → All (Covered upload_id []) jobs
    → select (is_active upload_id) jobs ≡ []
select_of_Covered upload_id [] h = refl
select_of_Covered upload_id (job ∷ jobs) h = elim (Bool-cases (is_active upload_id job)) [
  | inl active ↦ absurd (h.0 active)
  | inr other ↦ rw other (select_of_Covered upload_id jobs h.1)
]

fail_each-get_job :
    (message : String) (now n : ℕ) (failing : List Job) (s : Session)
    → ¬ OneOf n (ids failing)
    → get_job n (fail_each message now failing s) ≡ get_job n s
unfolding fail_each
fail_each-get_job message now n [] s h = refl
fail_each-get_job message now n (job ∷ failing) s h =
    fail_each-get_job message now n failing _ (λ later. h (inr later))
    ∙ find_job-map_job_ne n job.id _ s.db.jobs (λ j. refl) (λ here. h (inl here))

fail_found-jobs :
    (upload_id : ℕ) (message : String) (found : Option UploadRow) (s : Session)
    → (fail_found upload_id message found s).db.jobs ≡ s.db.jobs
fail_found-jobs upload_id message none s = refl
fail_found-jobs upload_id message (some upload) s = refl

fail_found-upload :
    (upload_id : ℕ) (message : String) (upload : UploadRow) (s : Session)
    → get_upload upload_id s ≡ some upload
    → get_upload upload_id (fail_found upload_id message (get_upload upload_id s) s)
      ≡ some (fail_upload message upload)
fail_found-upload upload_id message upload s e =
    rw e (find_upload-map_upload upload_id _ s.db.uploads upload (λ u. refl) e)

fail_each-uploads :
    (message : String) (now : ℕ) (failing : List Job) (s : Session)
    → (fail_each message now failing s).db.uploads ≡ s.db.uploads
unfolding fail_each
fail_each-uploads message now [] s = refl
fail_each-uploads message now (job ∷ failing) s = fail_each-uploads message now failing _

module _ (upload_id : ℕ) (message : String) (now : ℕ) (s : Session) where
  -- the session behind the loop
  abbrev after_loop : Session
  after_loop = fail_each message now (list_active_for_upload upload_id s) s

  -- After the error hook no job of the upload is in flight.
  pub fail_book_jobs-active :
      list_active_for_upload upload_id (fail_book_jobs upload_id message now s) ≡ []
  unfolding fail_book_jobs list_active_for_upload
  fail_book_jobs-active =
      let found = select (is_active upload_id) s.db.jobs in
      ap (λ jobs. newest_first (select (is_active upload_id) jobs))
        (fail_found-jobs upload_id message (get_upload upload_id after_loop) after_loop)
      ∙ ap newest_first (
          select_of_Covered upload_id after_loop.db.jobs (
            fail_each-Covered upload_id message now (newest_first found) s (
              select-Covered upload_id (ids (newest_first found)) s.db.jobs
                (λ n h. newest_first-OneOf n found h))))

  -- The error hook changes no job but those that were in flight for the upload.
  pub fail_book_jobs-others :
      (n : ℕ)
      → ¬ OneOf n (ids (list_active_for_upload upload_id s))
      → get_job n (fail_book_jobs upload_id message now s) ≡ get_job n s
  unfolding fail_book_jobs
  fail_book_jobs-others n h =
      ap (find_job n)
        (fail_found-jobs upload_id message (get_upload upload_id after_loop) after_loop)
      ∙ fail_each-get_job message now n (list_active_for_upload upload_id s) s h

  -- The error hook fails the upload, with the message, and commits.
  pub fail_book_jobs-upload :
      (upload : UploadRow)
      → get_upload upload_id s ≡ some upload
      → (get_upload upload_id (fail_book_jobs upload_id message now s)
          ≡ some (fail_upload message upload))
        × ((fail_book_jobs upload_id message now s).committed
            ≡ (fail_book_jobs upload_id message now s).db)
  unfolding fail_book_jobs
  fail_book_jobs-upload upload e = (
    fail_found-upload upload_id message upload after_loop (
        ap (find_upload upload_id)
          (fail_each-uploads message now (list_active_for_upload upload_id s) s)
        ∙ e),
    refl,
  )
