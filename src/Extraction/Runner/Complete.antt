-- ===== src/Extraction/Runner/Complete.antt =====
-- After a run of the extraction every page has one row, also where the run resumes another.
use fiqhmind_ai_backend.Extraction.Runner.Loads.{IsOk, run_pages-IsOk}
use fiqhmind_ai_backend.Prelude.{
  ◌<◌, ℕ, ◌+◌, ◌≤◌, ◌≡◌, ◌∙◌, refl, ap, false, Option, none, some, if◌then◌else◌, arith,
}
use fiqhmind_ai_backend.Extraction.Types.{Floating, PageInfo, PdfExtraction}
use fiqhmind_ai_backend.Extraction.Parse.{Page}
use fiqhmind_ai_backend.Extraction.Slices.{
  Attempt, ok, raised, and_then, Opened, open_pdf, guard_page_count, encrypted_pdf,
}
use fiqhmind_ai_backend.Extraction.Rows.{Work, list_pages}
use fiqhmind_ai_backend.Extraction.Runner.{set_page_count, after_open, run, begin}
use fiqhmind_ai_backend.Extraction.Runner.Counts.{copies, is_persisted-copies}
use fiqhmind_ai_backend.Extraction.Runner.Pages.{added, Ended, run_pages-Ended}
use fiqhmind_ai_backend.Extraction.Slices.{Document, document}

-- a job has one row of a page at most, both in the session and committed
abbrev pub AtMostOne : {A F : Type 0} → ℕ → ℕ → A × Work F → Type 0
AtMostOne job_id n r =
    (copies job_id n r.1.held.pages ≤ 1) × (copies job_id n r.1.committed.pages ≤ 1)

-- a run has returned with all pages, and has committed one row of a page
abbrev pub Completed : {F : Type 0} → ℕ → ℕ → ℕ → Attempt (PdfExtraction F) × Work F → Type 0
Completed job_id n total (raised _, w) = ⊥
Completed job_id n total (ok e, w) =
    (e.page_count ≡ total) × (copies job_id n w.committed.pages ≡ 1) × (w.held ≡ w.committed)

module _ (fl : Floating) (max_pages : Option ℕ) (max_workers checkpoint_pages : ℕ) where
  module _ (parse_fn : Page fl.F → ℕ → Attempt (PageInfo fl.F)) (now : ℕ) where
    -- The rows of a page after a run: those of before, and one if it was missing.
    added-AtMostOne :
        (n total job_id : ℕ) (w : Work fl.F)
        → copies job_id n w.held.pages ≤ 1
        → copies job_id n w.held.pages
            + added fl max_pages max_workers checkpoint_pages parse_fn now n
                (list_pages job_id w)
                total
          ≤ 1
    added-AtMostOne n total job_id w h = rw (is_persisted-copies job_id n w) (ground arith)

    added-one :
        (n total job_id : ℕ) (w : Work fl.F)
        → copies job_id n w.held.pages ≤ 1
        → 1 ≤ n
        → n ≤ total
        → copies job_id n w.held.pages
            + added fl max_pages max_workers checkpoint_pages parse_fn now n
                (list_pages job_id w)
                total
          ≡ 1
    added-one n total job_id w h first last = rw (is_persisted-copies job_id n w) (ground arith)

    Ended-AtMostOne :
        (job_id n bound total : ℕ) (r : Attempt (PdfExtraction fl.F) × Work fl.F)
        → bound ≤ 1
        → Ended fl max_pages max_workers checkpoint_pages parse_fn now job_id n bound total r
        → AtMostOne job_id n r
    Ended-AtMostOne job_id n bound total (raised _, w) h e = (omega arith, omega arith)
    Ended-AtMostOne job_id n bound total (ok _, w) h e = (rw e.1 (omega arith), omega arith)

    Ended-Completed :
        (job_id n bound total : ℕ) (r : Attempt (PdfExtraction fl.F) × Work fl.F)
        → bound ≡ 1
        → IsOk r.0
        → Ended fl max_pages max_workers checkpoint_pages parse_fn now job_id n bound total r
        → Completed job_id n total r
    Ended-Completed job_id n bound total (raised _, w) h k e = k
    Ended-Completed job_id n bound total (ok _, w) h k e = (e.2, e.0 ∙ h, e.1)

    after_open-AtMostOne :
        (opened : Opened fl.F) (n : ℕ) (w : Work fl.F) (total : Attempt ℕ)
        → copies w.held.job.id n w.held.pages ≤ 1
        → copies w.held.job.id n w.committed.pages ≤ 1
        → AtMostOne w.held.job.id n
            (after_open fl max_pages max_workers checkpoint_pages parse_fn now opened w total)
    after_open-AtMostOne opened n w (raised _) h k = (h, k)
    after_open-AtMostOne opened n w (ok total) h k =
        Ended-AtMostOne w.held.job.id n _ total _ (added-AtMostOne n total w.held.job.id w h) (
          run_pages-Ended fl max_pages max_workers checkpoint_pages parse_fn now opened total n
            (copies w.held.job.id n w.held.pages) (list_pages w.held.job.id w)
            (set_page_count total w) refl)

    -- However a run ends, whether it returns, raises, or is rolled back, the job has one row of a
    -- page at most, in the session and committed, if it had one at most before: no run writes a
    -- page again that another has written.
    pub run-AtMostOne :
        (file : Option (Opened fl.F)) (n : ℕ) (w : Work fl.F)
        → copies w.held.job.id n w.held.pages ≤ 1
        → copies w.held.job.id n w.committed.pages ≤ 1
        → AtMostOne w.held.job.id n
            (run fl max_pages max_workers checkpoint_pages parse_fn now file w)
    unfolding run begin
    run-AtMostOne none n w h k = (h, k)
    run-AtMostOne (some opened) n w h k = after_open-AtMostOne opened n (begin now w) _ h h

    opens :
        (d : Document fl.F)
        → d.needs_pass ≡ false
        → guard_page_count d.page_count max_pages ≡ ok d.page_count
        → and_then (open_pdf (document d)) (λ x. guard_page_count x.page_count max_pages)
          ≡ ok d.page_count
    unfolding open_pdf
    opens d unlocked within =
        let error = encrypted_pdf "pdf is password-protected" in
        ap
          (λ locked.
            and_then (if locked then raised error else ok d)
              (λ x. guard_page_count x.page_count max_pages))
          unlocked
        ∙ within

    -- A document that opens without a password, is within the page limit and whose pages load, of
    -- each index below its page count, is extracted: the run returns with its page count and with nothing left to commit, and each of its
    -- pages has exactly one committed row, whether an earlier run has written it, this run parses
    -- it, or its parsing fails. The job had one row of the page at most before.
    pub run-Completed :
        (d : Document fl.F) (n : ℕ) (w : Work fl.F)
        → d.needs_pass ≡ false
        → guard_page_count d.page_count max_pages ≡ ok d.page_count
        → ((i : ℕ) → i < d.page_count → IsOk (d.load_page i))
        → copies w.held.job.id n w.held.pages ≤ 1
        → 1 ≤ n
        → n ≤ d.page_count
        → Completed w.held.job.id n d.page_count
            (run fl max_pages max_workers checkpoint_pages parse_fn now (some (document d)) w)
    unfolding run begin
    run-Completed d n w unlocked within loads h first last =
        let total = d.page_count in
        let begun = begin now w in
        let job_id = w.held.job.id in
        rw (opens d unlocked within) (
          Ended-Completed job_id n _ total _ (added-one n total job_id begun h first last)
            (run_pages-IsOk fl max_pages max_workers checkpoint_pages parse_fn now d total
              (list_pages job_id begun) (set_page_count total begun) unlocked loads)
            (run_pages-Ended fl max_pages max_workers checkpoint_pages parse_fn now (document d)
              total n (copies job_id n w.held.pages) (list_pages job_id begun)
              (set_page_count total begun) refl))
