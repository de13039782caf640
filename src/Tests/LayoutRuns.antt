-- ===== src/Tests/LayoutRuns.antt =====
-- The small document of the extraction is laid out.
use fiqhmind_ai_backend.Prelude.{
  ℕ, ◌≡◌, refl, Bool, ◌&&◌, none, List, [], ◌∷◌, All, concat, length, leb,
}
use mathlib.Core.List.{Perm}
use fiqhmind_ai_backend.Extraction.Types.{BlockInfo, sum_of}
use fiqhmind_ai_backend.Extraction.Parse.{parse_page}
use fiqhmind_ai_backend.Extraction.Rows.{list_pages}
use fiqhmind_ai_backend.Layout.Columns.{cluster_columns}
use fiqhmind_ai_backend.Layout.Columns.Clustering.{IsColumn, cluster_columns-IsColumn}
use fiqhmind_ai_backend.Layout.Reading.Positions.{InOneBand}
use fiqhmind_ai_backend.Layout.Page.{analyze_page}
use fiqhmind_ai_backend.Layout.Page.Analysis.{IsAnalysis, analyze_page-parse_page}
use fiqhmind_ai_backend.Layout.Runner.{run, regions}
use fiqhmind_ai_backend.Layout.Runner.Totals.{blocks_in, run-Totals}
use fiqhmind_ai_backend.Tests.ExtractionRuns.{fixed, sheet, work}

-- an ASCII letter
abbrev is_alpha : ℕ → Bool
is_alpha c = leb 65 c && leb c 122

abbrev block : ℕ → ℕ → BlockInfo ℕ
block x0 x1 = record {
  index = x0;
  bbox = record { x0 = x0; y0 = 100000; x1 = x1; y1 = 700000 };
  text = [];
  font = none;
  size = none;
  spans = [];
}

-- a wide column and a gloss beside it
abbrev blocks : List (BlockInfo ℕ)
blocks = block 10000 60000 ∷ block 200000 450000 ∷ []

cluster_columns-IsColumn_example :
    Perm (concat (cluster_columns fixed blocks 500000)) blocks
    × All (IsColumn fixed 500000) (cluster_columns fixed blocks 500000)
cluster_columns-IsColumn_example = cluster_columns-IsColumn fixed 500000 blocks

one_band : All (InOneBand fixed (parse_page fixed sheet 1)) (parse_page fixed sheet 1).blocks
unfolding parse_page
one_band = (refl, (refl, tt))

analyze_page-parse_page_example :
    IsAnalysis fixed is_alpha
      (parse_page fixed sheet 1)
      (analyze_page fixed is_alpha (parse_page fixed sheet 1)).blocks
analyze_page-parse_page_example = analyze_page-parse_page fixed is_alpha sheet 1 one_band

abbrev columns : List (List (BlockInfo ℕ))
columns = (block 10000 60000 ∷ []) ∷ (block 200000 450000 ∷ []) ∷ []

run-Totals_example :
    let pages = list_pages 1 work in
    let done = run fixed is_alpha 100 work in
    (done.0.page_count ≡ length pages)
    × (done.0.block_count ≡ sum_of (blocks_in fixed is_alpha) pages)
    × (sum_of done.0.region_counts regions ≡ done.0.block_count)
    × (done.1.held ≡ done.1.committed)
run-Totals_example = run-Totals fixed is_alpha 100 work
