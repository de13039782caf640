-- ===== src/Extraction/Runner/Checkpoint.antt =====
-- A crash of the extraction loses one checkpoint window at most.
use mathlib.Core.List.{append-nil, append_assoc}
use fiqhmind_ai_backend.Prelude.{
  ℕ, suc, All, ◌≤◌, ◌<◌, ◌≡◌, ◌∙◌, refl, ap, sym, inl, inr, List, [], ◌∷◌, ◌++◌, leb, Bool-cases,
  length, length-append, arith,
}
use fiqhmind_ai_backend.Extraction.Types.{Floating}
use fiqhmind_ai_backend.Extraction.Slices.{PageParseResult}
use fiqhmind_ai_backend.Extraction.Rows.{PageExtraction, create_page}
use fiqhmind_ai_backend.Extraction.Runner.{
  Loop, checkpoint, persist_result, write_row, persist_step, persist_results,
}

-- The rows that are not committed yet are the last `since_checkpoint`, and fewer than a checkpoint
-- has.
pub record Behind (F : Type 0) (checkpoint_pages : ℕ) (l : Loop F) : Type 0 where
  pub unsaved : List (PageExtraction F)
  pub split : l.work.held.pages ≡ l.work.committed.pages ++ unsaved
  pub counted : length unsaved ≡ l.since_checkpoint
  pub below : l.since_checkpoint < checkpoint_pages

-- The rows that are not committed yet are the last ones, and no more than a checkpoint has.
pub record Lost (F : Type 0) (checkpoint_pages : ℕ) (l : Loop F) : Type 0 where
  pub unsaved : List (PageExtraction F)
  pub split : l.work.held.pages ≡ l.work.committed.pages ++ unsaved
  pub few : length unsaved ≤ checkpoint_pages

module _ (fl : Floating) (job_id total checkpoint_pages : ℕ) where
  checkpoint-Behind :
      (l : Loop fl.F) (unsaved : List (PageExtraction fl.F))
      → 0 < checkpoint_pages
      → l.work.held.pages ≡ l.work.committed.pages ++ unsaved
      → length unsaved ≡ l.since_checkpoint
      → Behind fl.F checkpoint_pages (checkpoint fl job_id checkpoint_pages l)
  checkpoint-Behind l unsaved positive split counted =
      elim (Bool-cases (leb checkpoint_pages l.since_checkpoint)) [
        | inl full ↦ rw full (record {
          unsaved = [];
          split = sym (append-nil l.work.held.pages);
          counted = refl;
          below = positive;
        })
        | inr short ↦
            rw short
              (record { unsaved = unsaved; split = split; counted = counted; below = ground arith })
      ]

  -- A crash that loses what is not committed loses the last rows, and no more than a checkpoint has.
  Lost-Behind : (l : Loop fl.F) → Behind fl.F checkpoint_pages l → Lost fl.F checkpoint_pages l
  Lost-Behind l b = record {
    unsaved = b.unsaved;
    split = b.split;
    few = omega (arith, b.counted, b.below);
  }

  write_row-split :
      (r : PageParseResult fl.F) (l : Loop fl.F) (b : Behind fl.F checkpoint_pages l)
      → (write_row fl job_id total r l).work.held.pages
        ≡ (write_row fl job_id total r l).work.committed.pages
          ++ (b.unsaved ++ (persist_result fl job_id r).0 ∷ [])
  unfolding write_row create_page
  write_row-split r l b =
      let row = (persist_result fl job_id r).0 in
      ap (λ pages. pages ++ row ∷ []) b.split
      ∙ append_assoc l.work.committed.pages b.unsaved (row ∷ [])

  write_row-counted :
      (r : PageParseResult fl.F) (l : Loop fl.F) (b : Behind fl.F checkpoint_pages l)
      → length (b.unsaved ++ (persist_result fl job_id r).0 ∷ []) ≡ suc l.since_checkpoint
  write_row-counted r l b =
      omega (arith, length-append b.unsaved ((persist_result fl job_id r).0 ∷ []), b.counted)

  write_row-Lost :
      (r : PageParseResult fl.F) (l : Loop fl.F)
      → Behind fl.F checkpoint_pages l
      → Lost fl.F checkpoint_pages (write_row fl job_id total r l)
  write_row-Lost r l b = record {
    unsaved = b.unsaved ++ (persist_result fl job_id r).0 ∷ [];
    split = write_row-split r l b;
    few = omega (arith, write_row-counted r l b, b.below);
  }

  persist_step-Behind :
      (r : PageParseResult fl.F) (l : Loop fl.F)
      → 0 < checkpoint_pages
      → Behind fl.F checkpoint_pages l
      → Behind fl.F checkpoint_pages (persist_step fl job_id total checkpoint_pages r l)
  unfolding persist_step write_row
  persist_step-Behind r l positive b =
      checkpoint-Behind (write_row fl job_id total r l)
        (b.unsaved ++ (persist_result fl job_id r).0 ∷ []) positive (write_row-split r l b)
        (write_row-counted r l b)

  -- the states of the loop: where a round begins, and where its row is written but its checkpoint is
  -- still to come
  abbrev pub points : List (PageParseResult fl.F) → Loop fl.F → List (Loop fl.F)
  points [] l = l ∷ []
  points (r ∷ rs) l =
      l
      ∷ write_row fl job_id total r l
      ∷ points rs (persist_step fl job_id total checkpoint_pages r l)

  -- At every point of the loop that persists the results of a worker, also between the writing of a
  -- row and its checkpoint, the rows that a crash would lose are the last ones and are no more than
  -- `checkpoint_pages`; where the loop ends they are fewer. This is so if `checkpoint_pages` is one
  -- at least and they were fewer when the loop began.
  pub persist_results-Behind :
      (rs : List (PageParseResult fl.F)) (l : Loop fl.F)
      → 0 < checkpoint_pages
      → Behind fl.F checkpoint_pages l
      → All (Lost fl.F checkpoint_pages) (points rs l)
        × Behind fl.F checkpoint_pages (persist_results fl job_id total checkpoint_pages rs l)
  unfolding persist_results
  persist_results-Behind [] l positive b = ((Lost-Behind l b, tt), b)
  persist_results-Behind (r ∷ rs) l positive b =
      let later =
        persist_results-Behind rs (persist_step fl job_id total checkpoint_pages r l) positive
          (persist_step-Behind r l positive b) in
      ((Lost-Behind l b, (write_row-Lost r l b, later.0)), later.1)
