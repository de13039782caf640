-- ===== src/Layout/Runner.antt =====
-- `LayoutRunner` of app/services/layout.py over the rows of the extraction.
pub mod Totals
use fiqhmind_ai_backend.Prelude.{
  ℕ, zero, suc, ◌+◌, Bool, true, false, not, ◌&&◌, String, Option, none, some, List, [], ◌∷◌, ltb,
  ◌==◌, map, if◌then◌else◌, length,
}
use fiqhmind_ai_backend.Jobs.Types.{Status, Job}
use fiqhmind_ai_backend.Extraction.Types.{Floating, BlockInfo, DrawingInfo, PageInfo, sum_of}
use fiqhmind_ai_backend.Extraction.Rows.{
  Region, main, footnote, margin, header, footer, unknown, PageBlock, PageDrawing, PageExtraction,
  Held, Work, commit, set_progress, list_pages,
}
use fiqhmind_ai_backend.Layout.Sort.{sort_by}
use fiqhmind_ai_backend.Layout.Page.{BlockLayout, PageLayout, analyze_page}

-- REGIONS
abbrev pub regions : List Region
regions = main ∷ footnote ∷ margin ∷ header ∷ footer ∷ unknown ∷ []

abbrev pub region_index : Region → ℕ
region_index main = 0
region_index footnote = 1
region_index margin = 2
region_index header = 3
region_index footer = 4
region_index unknown = 5

-- `LayoutResult`; the counts are a dictionary with all regions as keys
pub record LayoutResult : Type 0 where
  pub page_count : ℕ
  pub block_count : ℕ
  pub region_counts : Region → ℕ

-- `region_counts[region] += 1`
abbrev pub bump : Region → (Region → ℕ) → Region → ℕ
bump region counts r = if region_index r == region_index region then suc (counts r) else counts r

-- the variables of the loop over the items of a page
pub record Tally (F : Type 0) : Type 0 where
  pub blocks : List (PageBlock F)
  pub total_blocks : ℕ
  pub region_counts : Region → ℕ

module _ {F : Type 0} where
  abbrev pub index_lt : PageBlock F → PageBlock F → Bool
  index_lt a b = ltb a.block_index b.block_index

  abbrev pub drawing_lt : PageDrawing F → PageDrawing F → Bool
  drawing_lt a b = ltb a.drawing_index b.drawing_index

  -- `list_blocks`
  unfoldable pub list_blocks : PageExtraction F → List (PageBlock F)
  unfolding sort_by
  list_blocks row = sort_by index_lt row.blocks

  -- `list_drawings`
  unfoldable pub list_drawings : PageExtraction F → List (PageDrawing F)
  unfolding sort_by
  list_drawings row = sort_by drawing_lt row.drawings

  abbrev pub block_info : PageBlock F → BlockInfo F
  block_info row = record {
    index = row.block_index;
    bbox = row.bbox;
    text = row.text;
    font = row.font;
    size = row.font_size;
    spans = [];
  }

  abbrev pub drawing_info : PageDrawing F → DrawingInfo F
  drawing_info row = record {
    index = row.drawing_index;
    bbox = row.bbox;
    kind = row.kind;
    stroke_width = row.stroke_width;
  }

  -- `_load_page`, the page; the indices of the blocks of a page differ, so the dictionary of
  -- rows by index has all of them
  unfoldable pub load_page : PageExtraction F → PageInfo F
  unfolding list_blocks list_drawings
  load_page row = record {
    number = row.page_number;
    width = row.width;
    height = row.height;
    rotation = row.rotation;
    blocks = map block_info (list_blocks row);
    images = [];
    drawings = map drawing_info (list_drawings row);
    stored_char_count = none;
  }

  -- `update_block_layout`
  unfoldable pub update_block_layout : BlockLayout F → PageBlock F → PageBlock F
  update_block_layout item block = record block {
    region = item.region;
    reading_order = item.reading_order;
    confidence = item.confidence;
    classification_reason = some item.classification_reason;
  }

  abbrev pub has_index : ℕ → List (PageBlock F) → Bool
  has_index index [] = false
  has_index index (block ∷ blocks) =
      if block.block_index == index then true else has_index index blocks

  -- the row with the index of an item is updated
  unfoldable pub update_blocks : BlockLayout F → List (PageBlock F) → List (PageBlock F)
  unfolding update_block_layout
  update_blocks item [] = []
  update_blocks item (block ∷ blocks) =
      let rest = update_blocks item blocks in
      if block.block_index == item.block_index
      then update_block_layout item block ∷ rest
      else block ∷ rest

  -- the body of the loop over the items; an item without a row is passed over
  unfoldable pub apply_item : BlockLayout F → Tally F → Tally F
  unfolding update_blocks
  apply_item item t =
      if has_index item.block_index t.blocks
      then record {
        blocks = update_blocks item t.blocks;
        total_blocks = suc t.total_blocks;
        region_counts = bump item.region t.region_counts;
      }
      else t

  unfoldable pub apply_items : List (BlockLayout F) → Tally F → Tally F
  unfolding apply_item
  apply_items [] t = t
  apply_items (item ∷ items) t = apply_items items (apply_item item t)

  -- the rows of a page are assigned
  abbrev pub set_blocks :
      ℕ → ℕ → List (PageBlock F) → List (PageExtraction F) → List (PageExtraction F)
  set_blocks job_id number blocks [] = []
  set_blocks job_id number blocks (row ∷ rows) =
      let rest = set_blocks job_id number blocks rows in
      if row.job_id == job_id && row.page_number == number
      then record row { blocks = blocks } ∷ rest
      else row ∷ rest

  -- `_begin`
  unfoldable pub begin : ℕ → Work F → Work F
  begin now w = commit (record w {
    held = record w.held {
      job = record w.held.job {
        status = Status.structuring;
        current_step = some "layout";
        progress_percent = 0;
        started_at = some now;
      };
    };
  })

module _ (fl : Floating) (is_alpha : ℕ → Bool) where
  -- the body of the loop over the pages: the count of the pages before, and of all
  unfoldable pub layout_page :
      ℕ → ℕ → PageExtraction fl.F → LayoutResult × Work fl.F → LayoutResult × Work fl.F
  unfolding analyze_page load_page apply_items
  layout_page index total row s =
      let t = apply_items (analyze_page fl is_alpha (load_page row)).blocks (record {
        blocks = row.blocks;
        total_blocks = s.0.block_count;
        region_counts = s.0.region_counts;
      }) in
      let held = record s.1.held {
        pages = set_blocks row.job_id row.page_number t.blocks s.1.held.pages;
      } in
      (
        record s.0 { block_count = t.total_blocks; region_counts = t.region_counts },
        commit (set_progress (fl.percent (suc index) total) (record s.1 { held = held })),
      )

  unfoldable pub layout_pages :
      ℕ → ℕ → List (PageExtraction fl.F) → LayoutResult × Work fl.F → LayoutResult × Work fl.F
  unfolding layout_page
  layout_pages index total [] s = s
  layout_pages index total (row ∷ rows) s =
      layout_pages (suc index) total rows (layout_page index total row s)

  -- `run`
  unfoldable pub run : ℕ → Work fl.F → LayoutResult × Work fl.F
  unfolding begin list_pages layout_pages
  run now w =
      let begun = begin now w in
      let pages = list_pages w.held.job.id begun in
      layout_pages 0 (length pages) pages
        (record { page_count = length pages; block_count = 0; region_counts = λ _. 0 }, begun)
