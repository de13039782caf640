-- ===== src/Tests/ExtractionRuns.antt =====
-- A small document is extracted by two workers, resumed, and laid out.
use fiqhmind_ai_backend.Prelude.{
  ℕ, zero, suc, ◌<◌, if◌then◌else◌, ◌+◌, ◌-◌, ◌*◌, ◌/◌, ◌≤◌, ◌≡◌, refl, false, String, none, some,
  List, [], ◌∷◌, max, ltb, leb, length, concat, All, arith,
}
use fiqhmind_ai_backend.Text.{codes}
use fiqhmind_ai_backend.Jobs.Types.{Status, UploadStatus, Kind, Job}
use fiqhmind_ai_backend.Extraction.Types.{Floating, Bbox, PageInfo}
use fiqhmind_ai_backend.Extraction.Parse.{RawSpan, RawBlock, Page, parse_page}
use fiqhmind_ai_backend.Extraction.Parse.Numbered.{Counts, block_index, IsWhole, parse_page-IsWhole}
use fiqhmind_ai_backend.Extraction.Slices.{
  range, partition_pages, PageParseResult, info, error, Attempt, ok, raised, other, Document,
  document, guard_page_count,
}
use fiqhmind_ai_backend.Extraction.Slices.Split.{IsShare, partition_pages-IsPartition}
use fiqhmind_ai_backend.Extraction.Rows.{Held, Work}
use fiqhmind_ai_backend.Extraction.Runner.{
  Loop, persist_results, persist_result, row_to_page_info, run, page_row,
}
use fiqhmind_ai_backend.Extraction.Runner.Checkpoint.{Behind, Lost, points, persist_results-Behind}
use fiqhmind_ai_backend.Extraction.Runner.Counts.{copies}
use fiqhmind_ai_backend.Extraction.Runner.Loads.{IsOk}
use fiqhmind_ai_backend.Extraction.Runner.Complete.{
  AtMostOne, Completed, run-AtMostOne, run-Completed,
}
use fiqhmind_ai_backend.Extraction.Runner.Resume.{
  SameSummary, Records, row_to_page_info-persist_result,
}

-- floats with three decimals
abbrev pub fixed : Floating
fixed = record {
  F = ℕ;
  ratio = λ n d. n * 1000 / d;
  add = λ a b. a + b;
  sub = λ a b. a - b;
  mul = λ a b. a * b / 1000;
  div = λ a b. a * 1000 / b;
  lt = λ a b. ltb a b;
  le = λ a b. leb a b;
  round_tenth = λ a. a / 100 * 100;
  round_ten_thousandth = λ a. a;
  percent = λ done total. done * 100 / total;
}

abbrev span : String → ℕ → RawSpan ℕ
span text size = record {
  text = some (codes text);
  font = some "Amiri";
  size = some size;
  bbox = none;
  flags = none;
}

abbrev box : ℕ → ℕ → ℕ → ℕ → Bbox ℕ
box x0 y0 x1 y1 = record { x0 = x0; y0 = y0; x1 = x1; y1 = y1 }

abbrev text_block : Bbox ℕ → List (RawSpan ℕ) → RawBlock ℕ
text_block bbox spans = record { kind = some 0; lines = spans ∷ []; bbox = some bbox }

-- a header, a picture, a block without text, and a body
abbrev pub sheet : Page ℕ
sheet = record {
  width = 500000;
  height = 800000;
  rotation = 0;
  text_blocks =
      text_block (box 100000 20000 400000 40000) (span "Book of prayer" 12000 ∷ [])
      ∷ record { kind = some 1; lines = []; bbox = none }
      ∷ text_block (box 100000 60000 400000 80000) (span "" 12000 ∷ [])
      ∷ text_block (box 100000 100000 400000 700000)
          (span "The first chapter" 14000 ∷ span " of the book" 12000 ∷ [])
      ∷ [];
  image_info = [];
  drawings = [];
}

parse_page-IsWhole_example :
    Counts (block_index fixed) 0 (parse_page fixed sheet 1).blocks
    × All (IsWhole fixed) (parse_page fixed sheet 1).blocks
parse_page-IsWhole_example = parse_page-IsWhole fixed sheet 1

partition_pages-IsPartition_example :
    (concat (partition_pages 7 3) ≡ range 0 7)
    × (length (partition_pages 7 3) ≤ max 1 3)
    × All (IsShare 7 (max 1 3)) (partition_pages 7 3)
partition_pages-IsPartition_example = partition_pages-IsPartition 7 3

-- the second page does not parse
abbrev parse : Page ℕ → ℕ → Attempt (PageInfo ℕ)
parse page (suc (suc zero)) = raised (other "broken page")
parse page n = ok (parse_page fixed page n)

abbrev pub job : Job
job = record {
  id = 1;
  upload_id = some 7;
  kind = Kind.extraction;
  status = Status.queued;
  current_step = none;
  progress_percent = 0;
  error_message = none;
  started_at = none;
  finished_at = none;
  created_at = 1;
}

-- the third page is there from an earlier run
abbrev pub held : Held ℕ
held = record {
  job = job;
  upload = record { id = 7; status = UploadStatus.queued; error_message = none };
  page_count = none;
  pages = page_row fixed 1 3 (parse_page fixed sheet 3) ∷ [];
}

abbrev pub work : Work ℕ
work = record { held = held; committed = held }

abbrev scan : Document ℕ
scan = record {
  needs_pass = false;
  page_count = 3;
  load_page = λ i. if ltb i 3 then ok sheet else raised (other "page not in document");
}

loads : (i : ℕ) → i < 3 → IsOk (scan.load_page i)
loads zero below = tt
loads (suc zero) below = tt
loads (suc (suc zero)) below = tt
loads (suc (suc (suc i))) below = absurd (omega arith)

abbrev results : List (PageParseResult ℕ)
results =
    record { number = 1; parsed = error "broken page" 500000 800000 0 }
    ∷ record { number = 2; parsed = error "broken page" 500000 800000 0 }
    ∷ []

abbrev loop : Loop ℕ
loop = record { pages = []; done = 1; since_checkpoint = 0; work = work }

persist_results-Behind_example :
    All (Lost ℕ 2) (points fixed 1 3 2 results loop)
    × Behind ℕ 2 (persist_results fixed 1 3 2 results loop)
persist_results-Behind_example =
    persist_results-Behind fixed 1 3 2 results loop (omega arith)
      (record { unsaved = []; split = refl; counted = refl; below = omega arith })

before : copies 1 2 work.held.pages ≤ 1
unfolding copies page_row
before = omega arith

run-AtMostOne_example :
    AtMostOne 1 2 (run fixed (some 10) 2 5 parse 100 (some (document scan)) work)
run-AtMostOne_example =
    run-AtMostOne fixed (some 10) 2 5 parse 100 (some (document scan)) 2 work before before

within : guard_page_count 3 (some 10) ≡ ok 3
unfolding guard_page_count
within = refl

run-Completed_example :
    Completed 1 2 3 (run fixed (some 10) 2 5 parse 100 (some (document scan)) work)
run-Completed_example =
    run-Completed fixed (some 10) 2 5 parse 100 scan 2 work refl within loads before (omega arith)
      (omega arith)

row_to_page_info-persist_result_example :
    let r : PageParseResult ℕ = record { number = 2; parsed = info (parse_page fixed sheet 2) } in
    let written = persist_result fixed 1 r in
    ((row_to_page_info written.0).number ≡ 2)
    × SameSummary fixed (row_to_page_info written.0) written.1
    × Records fixed written.0 written.1
row_to_page_info-persist_result_example =
    row_to_page_info-persist_result fixed 1
      (record { number = 2; parsed = info (parse_page fixed sheet 2) })
