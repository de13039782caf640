-- ===== src/Tests/IndexRuns.antt =====
-- Indexing on three chunks in batches of two.
use fiqhmind_ai_backend.Prelude.{
  arith, ℕ, ◌≡◌, refl, false, none, some, List, [], ◌∷◌, map, length, String,
}
use fiqhmind_ai_backend.Text.{Text}
use fiqhmind_ai_backend.Metadata.Types.{MetadataField}
use fiqhmind_ai_backend.Indexing.{Point, Index, run_indexing, to_point, ChunkRow, build_points}
use fiqhmind_ai_backend.Indexing.Fresh.{IsIndexed, run_indexing-IsIndexed}
use fiqhmind_ai_backend.Indexing.Points.{point_of, build_points-map}

abbrev row : String → Text → ChunkRow
row id text = record {
  chunk_id = id;
  raw_text = text;
  book_id = none;
  printed_page_start = some 3;
  printed_page_end = some 4;
  pdf_page_start = some 5;
  pdf_page_end = some 6;
  kitab = none;
  bab = none;
  fasl = none;
  topic = none;
  region = "body";
  lang = "ar";
  edition_id = none;
  verified = false;
}

abbrev rows : List ChunkRow
rows = row "a" (1 ∷ []) ∷ row "b" (1 ∷ 2 ∷ []) ∷ row "c" [] ∷ []

abbrev no_fields : List (MetadataField ℕ)
no_fields = []

build_points-map_example :
    build_points (λ (id : String). 7) (map length) 1 (some 2) no_fields 2 rows
    ≡ map (point_of (λ (id : String). 7) (map length) 1 (some 2) no_fields length) rows
build_points-map_example =
    build_points-map (λ id. 7) (map length) 1 (some 2) no_fields length 2 rows (λ texts. refl)

abbrev point : ℕ → ℕ → Point ℕ
point upload id = to_point (λ (key : String). id) upload none no_fields (row "a" []) 0

-- A store with a point of another upload and two old ones, of which one has an id that comes again.
abbrev before : Index ℕ
before = record { points = point 8 40 ∷ point 1 41 ∷ point 1 42 ∷ []; progress_percent = 0 }

abbrev made : List (Point ℕ)
made = point 1 42 ∷ point 1 43 ∷ point 1 44 ∷ []

run_indexing-IsIndexed_example :
    IsIndexed 1 made (run_indexing (λ done total. done) 3 2 1 made before)
run_indexing-IsIndexed_example =
    run_indexing-IsIndexed 1 (λ done total. done) 3 2 made before (omega arith) (omega arith)
