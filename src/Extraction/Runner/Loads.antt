-- ===== src/Extraction/Runner/Loads.antt =====
-- The workers of an extraction return, where the pages that they load do.
use fiqhmind_ai_backend.Prelude.{
  zero, suc, ◌-◌, ◌<◌, not, select, All-map, All-select, All-append, All-step, ℕ, ◌+◌, ◌≤◌, ◌≡◌,
  false, Option, List, [], ◌∷◌, length, arith, map, flat_map, get_elem?, max,
}
use fiqhmind_ai_backend.Extraction.Types.{Floating, PageInfo}
use fiqhmind_ai_backend.Extraction.Parse.{Page}
use fiqhmind_ai_backend.Extraction.Slices.{Attempt, ok, raised, and_then, open_pdf, partition_pages}
use fiqhmind_ai_backend.Extraction.Rows.{PageExtraction, Work}
use fiqhmind_ai_backend.Extraction.Runner.{
  is_persisted, missing_pages, at, futures_of, finish_run, start_loop, run_pages,
}
use fiqhmind_ai_backend.Extraction.Runner.{drain, persist_results, Loop}
use fiqhmind_ai_backend.Extraction.Slices.{
  range, Document, document, parse_slice, extract_page_slice, map_ok, PageParseResult, result_of,
}
use fiqhmind_ai_backend.Prelude.{All}

-- It returns.
abbrev pub IsOk : {A : Type 0} → Attempt A → Type 0
IsOk (ok _) = Unit
IsOk (raised _) = ⊥

module _ {F : Type 0} (parse_fn : Page F → ℕ → Attempt (PageInfo F)) where
  step-IsOk :
      (index : ℕ) (page : Attempt (Page F)) (rest : Attempt (List (PageParseResult F)))
      → IsOk page
      → IsOk rest
      → IsOk (and_then page (λ p. map_ok (◌∷◌ (result_of parse_fn p index)) rest))
  step-IsOk index (ok page) (ok rs) h k = tt
  step-IsOk index (ok page) (raised _) h k = k
  step-IsOk index (raised _) rest h k = h

  parse_slice-IsOk :
      (load : ℕ → Attempt (Page F)) (indices : List ℕ)
      → All (λ i. IsOk (load i)) indices
      → IsOk (parse_slice parse_fn load indices)
  unfolding parse_slice
  parse_slice-IsOk load [] loads = tt
  parse_slice-IsOk load (index ∷ indices) loads =
      step-IsOk index (load index) (parse_slice parse_fn load indices) loads.0
        (parse_slice-IsOk load indices loads.1)

  slices-IsOk :
      (d : Document F) (pick : List ℕ → List ℕ) (slices : List (List ℕ))
      → d.needs_pass ≡ false
      → ((slice : List ℕ) → All (λ i. IsOk (d.load_page i)) (pick slice))
      → All IsOk (map (λ slice. extract_page_slice parse_fn (document d) (pick slice)) slices)
  unfolding extract_page_slice open_pdf
  slices-IsOk d pick [] unlocked loads = tt
  slices-IsOk d pick (slice ∷ slices) unlocked loads = (
    rw unlocked (parse_slice-IsOk d.load_page (pick slice) (loads slice)),
    slices-IsOk d pick slices unlocked loads,
  )

-- The indices of the missing pages are those of pages.
range-index :
    (first n total : ℕ)
    → 0 < first
    → first + n ≤ suc total
    → All (λ number. number - 1 < total) (range first n)
range-index first zero total positive within = tt
range-index first (suc n) total positive within =
    (omega arith, range-index (suc first) n total (omega arith) (omega arith))

missing_pages-index :
    {F : Type 0} (rows : List (PageExtraction F)) (total : ℕ)
    → All (λ index. index < total) (missing_pages rows total)
unfolding missing_pages
missing_pages-index rows total =
    All-map (λ number. number - 1) (λ index. index < total)
      (select (λ number. not (is_persisted rows number)) (range 1 total))
      (All-select (λ number. number - 1 < total) (λ number. not (is_persisted rows number))
        (range 1 total) (range-index 1 total total (omega arith) (omega arith)))

module _ (P : ℕ → Type 0) where
  at-All :
      (missing : List ℕ) (position : ℕ) → All P missing → All P (at (get_elem? missing position))
  at-All [] position h = tt
  at-All (index ∷ missing) zero h = (h.0, tt)
  at-All (index ∷ missing) (suc position) h = at-All missing position h.1

  -- what a worker gets, of a slice of positions
  picked-All :
      (missing slice : List ℕ)
      → All P missing
      → All P (flat_map (λ position. at (get_elem? missing position)) slice)
  picked-All missing [] h = tt
  picked-All missing (position ∷ slice) h =
      All-append P (at (get_elem? missing position))
        (flat_map (λ position. at (get_elem? missing position)) slice) (at-All missing position h)
        (picked-All missing slice h)

drain-IsOk :
    (fl : Floating) (job_id total checkpoint_pages : ℕ)
    (futures : List (Attempt (List (PageParseResult fl.F)))) (l : Loop fl.F)
    → All IsOk futures
    → IsOk (drain fl job_id total checkpoint_pages futures l).0
unfolding drain
drain-IsOk fl job_id total checkpoint_pages [] l h = tt
drain-IsOk fl job_id total checkpoint_pages (ok rs ∷ futures) l h =
    drain-IsOk fl job_id total checkpoint_pages futures
      (persist_results fl job_id total checkpoint_pages rs l) h.1
drain-IsOk fl job_id total checkpoint_pages (raised _ ∷ futures) l h = absurd h.0

module _ (fl : Floating) (max_pages : Option ℕ) (max_workers checkpoint_pages : ℕ) where
  module _ (parse_fn : Page fl.F → ℕ → Attempt (PageInfo fl.F)) (now : ℕ) where
    finish_run-IsOk :
        (total : ℕ) (rows : List (PageExtraction fl.F))
        (end : Attempt (List (PageInfo fl.F)) × Work fl.F)
        → IsOk end.0
        → IsOk (finish_run fl max_pages max_workers checkpoint_pages parse_fn now total rows end).0
    finish_run-IsOk total rows (ok pages, w) h = tt
    finish_run-IsOk total rows (raised _, w) h = absurd h

    pub run_pages-IsOk :
        (d : Document fl.F) (total : ℕ) (rows : List (PageExtraction fl.F)) (w : Work fl.F)
        → d.needs_pass ≡ false
        → ((i : ℕ) → i < total → IsOk (d.load_page i))
        → IsOk
            (run_pages fl max_pages max_workers checkpoint_pages parse_fn now
              (document d)
              total
              rows
              w).0
    unfolding run_pages futures_of
    run_pages-IsOk d total rows w unlocked loads =
        let missing = missing_pages rows total in
        finish_run-IsOk total rows _ (
          drain-IsOk fl w.held.job.id total (max 1 checkpoint_pages)
            (futures_of fl max_pages max_workers checkpoint_pages parse_fn now (document d) missing)
            (start_loop fl total rows w)
            (slices-IsOk parse_fn d (flat_map (λ index. at (get_elem? missing index)))
              (partition_pages (length missing) (max 1 max_workers)) unlocked
              (λ slice.
                picked-All (λ i. IsOk (d.load_page i)) missing slice
                  (All-step (λ i. i < total) (λ i. IsOk (d.load_page i)) missing loads
                    (missing_pages-index rows total)))))
