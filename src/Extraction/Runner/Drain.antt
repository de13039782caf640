-- ===== src/Extraction/Runner/Drain.antt =====
-- What the loop of the extraction over the parsed slices does to the number of rows of a page.
use mathlib.Core.List.{map-append}
use fiqhmind_ai_backend.Prelude.{
  ℕ, suc, ◌+◌, ◌≤◌, ◌<◌, ◌≡◌, ◌∙◌, refl, ap, inl, inr, true, List, [], ◌∷◌, ◌==◌, leb, Bool-cases,
  arith, map, concat,
}
use fiqhmind_ai_backend.Extraction.Types.{Floating, PageInfo}
use fiqhmind_ai_backend.Extraction.Parse.{Page}
use fiqhmind_ai_backend.Extraction.Slices.{
  PageParseResult, Parsed, info, error, Attempt, ok, raised, and_then, map_ok, Opened, Document,
  parse_slice, extract_page_slice, open_pdf, result_of,
}
use fiqhmind_ai_backend.Extraction.Rows.{PageExtraction, Work, create_page}
use fiqhmind_ai_backend.Extraction.Runner.{
  Loop, persist_result, write_row, persist_step, persist_results, drain, checkpoint,
}
use fiqhmind_ai_backend.Extraction.Runner.Checkpoint.{Behind, persist_results-Behind}
use fiqhmind_ai_backend.Extraction.Runner.Counts.{count, copies, count-append, copies-append}

abbrev pub number_of_result : {F : Type 0} → PageParseResult F → ℕ
number_of_result r = r.number

-- The results of a slice have the numbers of its pages.
abbrev pub Numbers : {F : Type 0} → List ℕ → Attempt (List (PageParseResult F)) → Type 0
Numbers indices (ok rs) = map number_of_result rs ≡ map suc indices
Numbers indices (raised _) = Unit

-- The futures belong to the slices.
abbrev pub Matches :
    {F : Type 0} → List (Attempt (List (PageParseResult F))) → List (List ℕ) → Type 0
Matches [] [] = Unit
Matches [] (_ ∷ _) = ⊥
Matches (_ ∷ _) [] = ⊥
Matches (future ∷ futures) (slice ∷ slices) = Numbers slice future × Matches futures slices

module _ {F : Type 0} (parse_fn : Page F → ℕ → Attempt (PageInfo F)) where
  step-Numbers :
      (index : ℕ) (indices : List ℕ) (page : Attempt (Page F))
      (rest : Attempt (List (PageParseResult F)))
      → Numbers indices rest
      → Numbers
          (index ∷ indices)
          (and_then page (λ p. map_ok (◌∷◌ (result_of parse_fn p index)) rest))
  step-Numbers index indices (raised _) rest h = tt
  step-Numbers index indices (ok page) (raised _) h = tt
  step-Numbers index indices (ok page) (ok rs) h = ap (◌∷◌ (suc index)) h

  parse_slice-Numbers :
      (load : ℕ → Attempt (Page F)) (indices : List ℕ)
      → Numbers indices (parse_slice parse_fn load indices)
  unfolding parse_slice
  parse_slice-Numbers load [] = refl
  parse_slice-Numbers load (index ∷ indices) =
      step-Numbers index indices (load index) (parse_slice parse_fn load indices)
        (parse_slice-Numbers load indices)

  open-Numbers :
      (indices : List ℕ) (opened : Attempt (Document F))
      → Numbers indices (and_then opened (λ d. parse_slice parse_fn d.load_page indices))
  open-Numbers indices (raised _) = tt
  open-Numbers indices (ok d) = parse_slice-Numbers d.load_page indices

  pub extract-Matches :
      (opened : Opened F) (pick : List ℕ → List ℕ) (slices : List (List ℕ))
      → Matches
          (map (λ slice. extract_page_slice parse_fn opened (pick slice)) slices)
          (map pick slices)
  unfolding extract_page_slice
  extract-Matches opened pick [] = tt
  extract-Matches opened pick (slice ∷ slices) =
      (open-Numbers (pick slice) (open_pdf opened), extract-Matches opened pick slices)

module _ (fl : Floating) (job_id : ℕ) where
  abbrev row_of_result : PageParseResult fl.F → PageExtraction fl.F
  row_of_result r = (persist_result fl job_id r).0

  persist_result-key :
      (number : ℕ) (parsed : Parsed fl.F)
      → let row = row_of_result (record { number = number; parsed = parsed }) in
        (row.job_id ≡ job_id) × (row.page_number ≡ number)
  unfolding persist_result
  persist_result-key number (info page) = (refl, refl)
  persist_result-key number (error message width height rotation) = (refl, refl)

  copies-results :
      (n : ℕ) (rs : List (PageParseResult fl.F))
      → copies job_id n (map row_of_result rs) ≡ count n (map number_of_result rs)
  unfolding copies count
  copies-results n [] = refl
  copies-results n (r ∷ rs) =
      let key = persist_result-key r.number r.parsed in
      let mine : (job_id == job_id) ≡ true = ground arith in
      rw (key.0, key.1, mine) (ground (arith, copies-results n rs))

  module _ (total checkpoint_pages : ℕ) where
    checkpoint-pages :
        (l : Loop fl.F)
        → (checkpoint fl job_id checkpoint_pages l).work.held.pages ≡ l.work.held.pages
    checkpoint-pages l = elim (Bool-cases (leb checkpoint_pages l.since_checkpoint)) [
      | inl full ↦ rw full refl
      | inr short ↦ rw short refl
    ]

    persist_step-copies :
        (n : ℕ) (r : PageParseResult fl.F) (l : Loop fl.F)
        → copies job_id n (persist_step fl job_id total checkpoint_pages r l).work.held.pages
          ≡ copies job_id n l.work.held.pages + copies job_id n (row_of_result r ∷ [])
    unfolding persist_step write_row create_page
    persist_step-copies n r l =
        ap (copies job_id n) (checkpoint-pages _)
        ∙ copies-append job_id n l.work.held.pages (row_of_result r ∷ [])

    persist_results-copies :
        (n : ℕ) (rs : List (PageParseResult fl.F)) (l : Loop fl.F)
        → copies job_id n (persist_results fl job_id total checkpoint_pages rs l).work.held.pages
          ≡ copies job_id n l.work.held.pages + copies job_id n (map row_of_result rs)
    unfolding persist_results count
    persist_results-copies n [] l =
        let nothing : copies job_id n (map row_of_result []) ≡ 0 = copies-results n [] in
        omega (arith, nothing)
    persist_results-copies n (r ∷ rs) l = omega (
      arith,
      persist_results-copies n rs (persist_step fl job_id total checkpoint_pages r l),
      persist_step-copies n r l,
      copies-append job_id n (row_of_result r ∷ []) (map row_of_result rs),
    )

    -- What the loop over the futures does to the number of rows of a page: `base` before, and `more`
    -- by what the slices have.
    abbrev pub Drained : ℕ → ℕ → ℕ → Attempt (List (PageInfo fl.F)) × Work fl.F → Type 0
    Drained n base more (ok pages, w) =
        (copies job_id n w.committed.pages ≡ base + more) × (w.held ≡ w.committed)
    Drained n base more (raised _, w) =
        (copies job_id n w.held.pages ≤ base + more)
        × (copies job_id n w.committed.pages ≤ copies job_id n w.held.pages)

    Behind-copies :
        (n : ℕ) (l : Loop fl.F)
        → Behind fl.F checkpoint_pages l
        → copies job_id n l.work.committed.pages ≤ copies job_id n l.work.held.pages
    Behind-copies n l b = omega (
      arith,
      ap (copies job_id n) b.split,
      copies-append job_id n l.work.committed.pages b.unsaved,
    )

    pub drain-Drained :
        (n : ℕ) (futures : List (Attempt (List (PageParseResult fl.F)))) (slices : List (List ℕ))
        (l : Loop fl.F) (base more : ℕ)
        → 0 < checkpoint_pages
        → Matches futures slices
        → Behind fl.F checkpoint_pages l
        → base + more ≡ copies job_id n l.work.held.pages + count n (map suc (concat slices))
        → Drained n base more (drain fl job_id total checkpoint_pages futures l)
    unfolding drain count
    drain-Drained n [] [] l base more positive matches b sum = (omega arith, refl)
    drain-Drained n [] (_ ∷ _) l base more positive matches b sum = absurd matches
    drain-Drained n (_ ∷ _) [] l base more positive matches b sum = absurd matches
    drain-Drained n (raised failure ∷ futures) (slice ∷ slices) l base more positive matches b sum =
        (omega arith, Behind-copies n l b)
    drain-Drained n (ok rs ∷ futures) (slice ∷ slices) l base more positive matches b sum =
        drain-Drained n futures slices (persist_results fl job_id total checkpoint_pages rs l) base
          more positive matches.1
          (persist_results-Behind fl job_id total checkpoint_pages rs l positive b).1
          (omega (
            arith,
            persist_results-copies n rs l,
            copies-results n rs,
            ap (count n) matches.0,
            ap (count n) (map-append suc slice (concat slices)),
            count-append n (map suc slice) (map suc (concat slices)),
          ))
