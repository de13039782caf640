-- ===== src/Extraction/Runner.antt =====
-- `ExtractionRunner` of app/services/extraction.py. The pages that the workers parse are persisted
-- in the order of the slices by the calling thread, so the threads do not show.
pub mod Checkpoint
pub mod Counts
pub mod Drain
pub mod Pages
pub mod Loads
pub mod Complete
pub mod Resume
use fiqhmind_ai_backend.Prelude.{
  ℕ, zero, suc, ◌-◌, max, String, Bool, true, false, not, Option, none, some, List, [], ◌∷◌, ◌++◌,
  leb, ◌==◌, map, if◌then◌else◌, length, select, any, get_elem?, is_empty, flat_map,
}
use fiqhmind_ai_backend.Jobs.Types.{Status, UploadStatus, Job, UploadRow}
use fiqhmind_ai_backend.Chunking.Ranges.{sorted_set}
use fiqhmind_ai_backend.Extraction.Types.{
  Floating, PageInfo, PdfExtraction, char_count, has_text, page_confidence,
}
use fiqhmind_ai_backend.Extraction.Parse.{Page}
use fiqhmind_ai_backend.Extraction.Slices.{
  Failure, malformed_pdf, encrypted_pdf, pdf_page_limit, transient_extraction, other, Attempt, ok,
  raised, Opened, Document, open_pdf, guard_page_count, range, partition_pages, Parsed, info, error,
  PageParseResult, extract_page_slice, and_then,
}
use fiqhmind_ai_backend.Extraction.Rows.{
  PageExtraction, Held, Work, commit, rollback, set_progress, list_pages, create_page, add_block,
  add_image, add_drawing,
}

module _ (fl : Floating) where
  -- the row of `_persist_page`
  unfoldable pub page_row : ℕ → ℕ → PageInfo fl.F → PageExtraction fl.F
  unfolding add_block has_text char_count page_confidence
  page_row job_id page_number page = record {
    job_id = job_id;
    page_number = page_number;
    width = page.width;
    height = page.height;
    rotation = page.rotation;
    has_text = has_text page;
    char_count = char_count page;
    block_count = length page.blocks;
    image_count = length page.images;
    drawing_count = length page.drawings;
    confidence = page_confidence fl page;
    error_message = none;
    blocks = map (add_block fl) page.blocks;
    images = map add_image page.images;
    drawings = map add_drawing page.drawings;
  }

  -- the row of `_persist_failed_page`
  unfoldable pub failed_row : ℕ → ℕ → String → fl.F → fl.F → ℕ → PageExtraction fl.F
  failed_row job_id number message width height rotation = record {
    job_id = job_id;
    page_number = number;
    width = width;
    height = height;
    rotation = rotation;
    has_text = false;
    char_count = 0;
    block_count = 0;
    image_count = 0;
    drawing_count = 0;
    confidence = fl.ratio 0 1;
    error_message = some message;
    blocks = [];
    images = [];
    drawings = [];
  }

-- the page that `_persist_failed_page` returns
abbrev pub bare_page : {F : Type 0} → ℕ → F → F → ℕ → PageInfo F
bare_page number width height rotation = record {
  number = number;
  width = width;
  height = height;
  rotation = rotation;
  blocks = [];
  images = [];
  drawings = [];
  stored_char_count = none;
}

-- `_row_to_page_info`
unfoldable pub row_to_page_info : {F : Type 0} → PageExtraction F → PageInfo F
row_to_page_info row = record {
  number = row.page_number;
  width = row.width;
  height = row.height;
  rotation = row.rotation;
  blocks = [];
  images = [];
  drawings = [];
  stored_char_count = some row.char_count;
}

-- the local variables of the loop of `run`: the pages of `extraction`, `done`, `since_checkpoint`,
-- and the session
pub record Loop (F : Type 0) : Type 0 where
  pub pages : List (PageInfo F)
  pub done : ℕ
  pub since_checkpoint : ℕ
  pub work : Work F

module _ (fl : Floating) (job_id : ℕ) where
  -- `_persist_result`: the row that is written, and the page that is returned
  unfoldable pub persist_result : PageParseResult fl.F → PageExtraction fl.F × PageInfo fl.F
  unfolding page_row failed_row
  persist_result r = elim r.parsed [
    | info page ↦ (page_row fl job_id r.number page, page)
    | error message width height rotation ↦ (
      failed_row fl job_id r.number message width height rotation,
      bare_page r.number width height rotation,
    )
  ]

  -- `round(done / total * 100) if total else 100`
  abbrev pub percent_of : ℕ → ℕ → ℕ
  percent_of done zero = 100
  percent_of done (suc n) = fl.percent done (suc n)

  -- the commit of a checkpoint
  abbrev pub checkpoint : ℕ → Loop fl.F → Loop fl.F
  checkpoint checkpoint_pages l =
      if leb checkpoint_pages l.since_checkpoint
      then record l { since_checkpoint = 0; work = commit l.work }
      else l

  -- a round of the loop up to its checkpoint: the row is in the session
  unfoldable pub write_row : ℕ → PageParseResult fl.F → Loop fl.F → Loop fl.F
  unfolding persist_result create_page
  write_row total r l = record {
    pages = l.pages ++ (persist_result r).1 ∷ [];
    done = suc l.done;
    since_checkpoint = suc l.since_checkpoint;
    work = set_progress (percent_of (suc l.done) total) (create_page (persist_result r).0 l.work);
  }

  -- the body of the loop over the results
  unfoldable pub persist_step : ℕ → ℕ → PageParseResult fl.F → Loop fl.F → Loop fl.F
  unfolding write_row
  persist_step total checkpoint_pages r l = checkpoint checkpoint_pages (write_row total r l)

  unfoldable pub persist_results : ℕ → ℕ → List (PageParseResult fl.F) → Loop fl.F → Loop fl.F
  unfolding persist_step
  persist_results total checkpoint_pages [] l = l
  persist_results total checkpoint_pages (r ∷ rs) l =
      persist_results total checkpoint_pages rs (persist_step total checkpoint_pages r l)

  -- the loop over the futures, and the commit behind it; `future.result()` raises what the worker
  -- has raised
  unfoldable pub drain :
      ℕ
      → ℕ
      → List (Attempt (List (PageParseResult fl.F)))
      → Loop fl.F
      → Attempt (List (PageInfo fl.F)) × Work fl.F
  unfolding persist_results
  drain total checkpoint_pages [] l = (ok l.pages, commit l.work)
  drain total checkpoint_pages (ok rs ∷ futures) l =
      drain total checkpoint_pages futures (persist_results total checkpoint_pages rs l)
  drain total checkpoint_pages (raised failure ∷ futures) l = (raised failure, l.work)

-- `_begin`, where the stored file is there
unfoldable pub begin : {F : Type 0} → ℕ → Work F → Work F
begin now w = commit (record w {
  held = record w.held {
    job = record w.held.job {
      status = Status.extracting;
      current_step = some "extracting";
      progress_percent = 0;
      started_at = some now;
    };
    upload = record w.held.upload { status = UploadStatus.processing };
  };
})

abbrev pub set_page_count : {F : Type 0} → ℕ → Work F → Work F
set_page_count total w = record w { held = record w.held { page_count = some total } }

-- `{row.page_number for row in persisted_rows}`
abbrev pub page_number_of : {F : Type 0} → PageExtraction F → ℕ
page_number_of row = row.page_number

abbrev pub is_persisted : {F : Type 0} → List (PageExtraction F) → ℕ → Bool
is_persisted rows number = any (λ row. row.page_number == number) rows

-- `[number - 1 for number in range(1, total + 1) if number not in persisted]`
unfoldable pub missing_pages : {F : Type 0} → List (PageExtraction F) → ℕ → List ℕ
missing_pages rows total =
    map (λ number. number - 1) (select (λ number. not (is_persisted rows number)) (range 1 total))

-- the page of a number, the last that was put in the dictionary
abbrev pub page_of : {F : Type 0} → ℕ → List (PageInfo F) → Option (PageInfo F)
page_of number [] = none
page_of number (page ∷ pages) =
    let later = page_of number pages in
    elim later [ some p ↦ some p | none ↦ if page.number == number then some page else none ]

-- `row_to_page_info` of the first row with a number, for `setdefault`
abbrev pub row_of : {F : Type 0} → ℕ → List (PageExtraction F) → List (PageInfo F)
row_of number [] = []
row_of number (row ∷ rows) =
    if row.page_number == number then row_to_page_info row ∷ [] else row_of number rows

-- `by_number[number]`: a new page stands before a persisted row
abbrev pub merged_page :
    {F : Type 0} → List (PageExtraction F) → List (PageInfo F) → ℕ → List (PageInfo F)
merged_page rows pages number = elim (page_of number pages) [
  | some page ↦ page ∷ []
  | none ↦ row_of number rows
]

abbrev pub number_of : {F : Type 0} → PageInfo F → ℕ
number_of page = page.number

-- `missing[index]`
abbrev pub at : Option ℕ → List ℕ
at none = []
at (some n) = n ∷ []

-- the merge of a resumed run, in page order
unfoldable pub merge_pages :
    {F : Type 0} → List (PageExtraction F) → List (PageInfo F) → List (PageInfo F)
unfolding row_to_page_info sorted_set
merge_pages rows pages =
    if is_empty rows
    then pages
    else flat_map (merged_page rows pages)
        (sorted_set (map number_of pages ++ map page_number_of rows))

-- the variables of `run` when its loop starts
unfoldable pub start_loop : (fl : Floating) → ℕ → List (PageExtraction fl.F) → Work fl.F → Loop fl.F
unfolding sorted_set
start_loop fl total rows w =
    let done = length (sorted_set (map page_number_of rows)) in
    record {
      pages = [];
      done = done;
      since_checkpoint = 0;
      work = commit (set_progress (percent_of fl w.held.job.id done total) w);
    }

module _ (fl : Floating) (max_pages : Option ℕ) (max_workers checkpoint_pages : ℕ) where
  module _ (parse_fn : Page fl.F → ℕ → Attempt (PageInfo fl.F)) (now : ℕ) where
    -- what the workers return or raise: a slice of positions in `missing` each
    unfoldable pub futures_of : Opened fl.F → List ℕ → List (Attempt (List (PageParseResult fl.F)))
    unfolding extract_page_slice partition_pages
    futures_of opened missing =
        map
          (λ slice.
            extract_page_slice parse_fn opened
              (flat_map (λ index. at (get_elem? missing index)) slice))
          (partition_pages (length missing) (max 1 max_workers))

    -- the `except TransientExtractionError` of `run`, and its return
    abbrev pub finish_run :
        ℕ
        → List (PageExtraction fl.F)
        → Attempt (List (PageInfo fl.F)) × Work fl.F
        → Attempt (PdfExtraction fl.F) × Work fl.F
    finish_run total rows (ok pages, w) =
        (ok (record { page_count = total; pages = merge_pages rows pages }), w)
    finish_run total rows (raised (transient_extraction message), w) =
        (raised (transient_extraction message), rollback w)
    finish_run total rows (raised failure, w) = (raised failure, w)

    -- the loop of `run` over the pages that are missing
    unfoldable pub run_pages :
        Opened fl.F
        → ℕ
        → List (PageExtraction fl.F)
        → Work fl.F
        → Attempt (PdfExtraction fl.F) × Work fl.F
    unfolding missing_pages futures_of drain start_loop merge_pages
    run_pages opened total rows w = finish_run total rows (
        drain fl w.held.job.id total (max 1 checkpoint_pages)
          (futures_of opened (missing_pages rows total)) (start_loop fl total rows w))

    -- `run`, behind the opening of the document
    abbrev pub after_open :
        Opened fl.F → Work fl.F → Attempt ℕ → Attempt (PdfExtraction fl.F) × Work fl.F
    after_open opened w (raised failure) = (raised failure, w)
    after_open opened w (ok total) =
        run_pages opened total (list_pages w.held.job.id w) (set_page_count total w)

    -- `run`, on the stored file if there is one
    unfoldable pub run : Option (Opened fl.F) → Work fl.F → Attempt (PdfExtraction fl.F) × Work fl.F
    unfolding begin open_pdf guard_page_count run_pages list_pages
    run none w = (raised (malformed_pdf "stored file is missing for this upload"), w)
    run (some opened) w =
        after_open opened (begin now w)
          (and_then (open_pdf opened) (λ document. guard_page_count document.page_count max_pages))
