-- ===== src/Extraction/Runner/Pages.antt =====
-- What the loop of a run does to the number of rows of a page.
use mathlib.Core.List.{append-nil}
use fiqhmind_ai_backend.Prelude.{
  ℕ, zero, suc, ◌+◌, ◌≤◌, ◌≡◌, ◌∙◌, refl, ap, sym, Bool, not, Option, List, [], ◌∷◌, ◌++◌, leb, ltb,
  if◌then◌else◌, length, arith, map, concat, flat_map, flat_map-append, get_elem?, max, ◌&&◌,
}
use fiqhmind_ai_backend.Extraction.Types.{Floating, PageInfo, PdfExtraction}
use fiqhmind_ai_backend.Extraction.Parse.{Page}
use fiqhmind_ai_backend.Extraction.Slices.{
  range, Attempt, ok, raised, Opened, partition_pages, malformed_pdf, encrypted_pdf, pdf_page_limit,
  transient_extraction, other,
}
use fiqhmind_ai_backend.Extraction.Slices.Split.{partition_pages-IsPartition}
use fiqhmind_ai_backend.Extraction.Rows.{PageExtraction, Work}
use fiqhmind_ai_backend.Extraction.Runner.{
  is_persisted, missing_pages, at, futures_of, finish_run, start_loop, run_pages,
}
use fiqhmind_ai_backend.Extraction.Runner.Counts.{
  count, copies, count-range, count-select, suc-pred_range,
}
use fiqhmind_ai_backend.Extraction.Runner.Drain.{Matches, extract-Matches, Drained, drain-Drained}

-- an element by its position, and all of them from a position
at-suc :
    (x : ℕ) (xs : List ℕ) (a k : ℕ)
    → flat_map (λ i. at (get_elem? (x ∷ xs) i)) (range (suc a) k)
      ≡ flat_map (λ i. at (get_elem? xs i)) (range a k)
at-suc x xs a zero = refl
at-suc x xs a (suc k) = ap (at (get_elem? xs a) ++◌) (at-suc x xs (suc a) k)

at-all : (xs : List ℕ) → flat_map (λ i. at (get_elem? xs i)) (range 0 (length xs)) ≡ xs
at-all [] = refl
at-all (x ∷ xs) = ap (◌∷◌ x) (at-suc x xs 0 (length xs) ∙ at-all xs)

concat-flat_map :
    (f : ℕ → List ℕ) (slices : List (List ℕ))
    → concat (map (flat_map f) slices) ≡ flat_map f (concat slices)
concat-flat_map f [] = refl
concat-flat_map f (slice ∷ slices) =
    ap (flat_map f slice ++◌) (concat-flat_map f slices)
    ∙ sym (flat_map-append f slice (concat slices))

module _ (fl : Floating) (max_pages : Option ℕ) (max_workers checkpoint_pages : ℕ) where
  module _ (parse_fn : Page fl.F → ℕ → Attempt (PageInfo fl.F)) (now : ℕ) where
    -- The slices of the workers are the missing pages.
    futures_of-Matches :
        (opened : Opened fl.F) (missing : List ℕ)
        → (slices : List (List ℕ)) × Matches
            (futures_of fl max_pages max_workers checkpoint_pages parse_fn now opened missing)
            slices
          × (concat slices ≡ missing)
    unfolding futures_of
    futures_of-Matches opened missing =
        let pick : List ℕ → List ℕ = flat_map (λ index. at (get_elem? missing index)) in
        let slices = partition_pages (length missing) (max 1 max_workers) in
        (
          map pick slices,
          extract-Matches parse_fn opened pick slices,
          concat-flat_map (λ index. at (get_elem? missing index)) slices
              ∙ ap pick (partition_pages-IsPartition (length missing) (max 1 max_workers)).0
              ∙ at-all missing,
        )

    -- the rows of a page that a run adds
    abbrev pub added : ℕ → List (PageExtraction fl.F) → ℕ → ℕ
    added n rows total =
        if not (is_persisted rows n) then (if leb 1 n && ltb n (1 + total) then 1 else 0) else 0

    count-missing_pages :
        (n : ℕ) (rows : List (PageExtraction fl.F)) (total : ℕ)
        → count n (map suc (missing_pages rows total)) ≡ added n rows total
    unfolding missing_pages
    count-missing_pages n rows total =
        let p : ℕ → Bool = λ number. not (is_persisted rows number) in
        ap (count n) (suc-pred_range p 0 total)
        ∙ count-select p n (range 1 total)
        ∙ ap (λ c. if p n then c else 0) (count-range n 1 total)

    -- How a run ends, for the rows of a page.
    abbrev pub Ended : ℕ → ℕ → ℕ → ℕ → Attempt (PdfExtraction fl.F) × Work fl.F → Type 0
    Ended job_id n bound total (ok e, w) =
        (copies job_id n w.committed.pages ≡ bound)
        × (w.held ≡ w.committed)
        × (e.page_count ≡ total)
    Ended job_id n bound total (raised _, w) =
        (copies job_id n w.held.pages ≤ bound) × (copies job_id n w.committed.pages ≤ bound)

    finish_run-Ended :
        (job_id n base more total : ℕ) (rows : List (PageExtraction fl.F))
        (end : Attempt (List (PageInfo fl.F)) × Work fl.F)
        → Drained fl job_id total (max 1 checkpoint_pages) n base more end
        → Ended job_id n
            (base + more)
            total
            (finish_run fl max_pages max_workers checkpoint_pages parse_fn now total rows end)
    finish_run-Ended job_id n base more total rows (ok pages, w) d = (d.0, d.1, refl)
    finish_run-Ended job_id n base more total rows (raised (malformed_pdf m), w) d =
        (d.0, omega arith)
    finish_run-Ended job_id n base more total rows (raised (encrypted_pdf m), w) d =
        (d.0, omega arith)
    finish_run-Ended job_id n base more total rows (raised (pdf_page_limit pages most), w) d =
        (d.0, omega arith)
    finish_run-Ended job_id n base more total rows (raised (other m), w) d = (d.0, omega arith)
    finish_run-Ended job_id n base more total rows (raised (transient_extraction m), w) d =
        (omega arith, omega arith)

    pub run_pages-Ended :
        (opened : Opened fl.F) (total n base : ℕ) (rows : List (PageExtraction fl.F))
        (w : Work fl.F)
        → copies w.held.job.id n w.held.pages ≡ base
        → Ended w.held.job.id n
            (base + added n rows total)
            total
            (run_pages fl max_pages max_workers checkpoint_pages parse_fn now opened total rows w)
    unfolding run_pages start_loop
    run_pages-Ended opened total n base rows w before =
        let missing = missing_pages rows total in
        let matching = futures_of-Matches opened missing in
        let sum : count n (map suc (concat matching.0)) ≡ added n rows total =
          ap (λ pages. count n (map suc pages)) matching.2 ∙ count-missing_pages n rows total in
        finish_run-Ended w.held.job.id n base (added n rows total) total rows _ (
          drain-Drained fl w.held.job.id total (max 1 checkpoint_pages) n _ matching.0 _ base
            (added n rows total) (ground arith) matching.1
            (record {
              unsaved = [];
              split = sym (append-nil w.held.pages);
              counted = refl;
              below = ground arith;
            })
            (omega (arith, sum, before)))
