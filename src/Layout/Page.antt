-- ===== src/Layout/Page.antt =====
-- `analyze_page` of app/services/layout.py.
pub mod Analysis
use fiqhmind_ai_backend.Prelude.{
  ℕ, Bool, String, Option, none, some, List, [], ◌∷◌, map, if◌then◌else◌, length, is_empty,
}
use fiqhmind_ai_backend.Extraction.Types.{Floating, BlockInfo, PageInfo}
use fiqhmind_ai_backend.Extraction.Rows.{Region}
use fiqhmind_ai_backend.Layout.Columns.{body_blocks, cluster_columns, margin_block_indices}
use fiqhmind_ai_backend.Layout.Reading.{
  Direction, ltr, detect_direction, reading_order, position_or,
}
use fiqhmind_ai_backend.Layout.Regions.{Classified, classify_block, separator_y}

pub record BlockLayout (F : Type 0) : Type 0 where
  pub block_index : ℕ
  pub region : Region
  pub reading_order : ℕ
  pub confidence : F
  pub classification_reason : String

pub record PageLayout (F : Type 0) : Type 0 where
  pub page_number : ℕ
  pub direction : Direction
  pub column_count : ℕ
  pub blocks : List (BlockLayout F)

module _ (fl : Floating) (is_alpha : ℕ → Bool) (page : PageInfo fl.F) where
  abbrev pub columns_of : List (List (BlockInfo fl.F))
  columns_of = cluster_columns fl (body_blocks fl page) page.width

  abbrev pub layout_of : List (ℕ × ℕ) → BlockInfo fl.F → Classified fl.F → BlockLayout fl.F
  layout_of order block c = record {
    block_index = block.index;
    region = c.region;
    reading_order = position_or 0 block.index order;
    confidence = c.confidence;
    classification_reason = c.reason;
  }

  -- the body of the loop over the blocks
  unfoldable pub layout_block : List (ℕ × ℕ) → BlockInfo fl.F → BlockLayout fl.F
  unfolding position_or classify_block separator_y margin_block_indices cluster_columns body_blocks
  layout_block order block = layout_of order block (
      classify_block fl page block (separator_y fl page page.drawings)
        (margin_block_indices fl columns_of))

  -- `analyze_page`
  unfoldable pub analyze_page : PageLayout fl.F
  unfolding layout_block reading_order detect_direction
  analyze_page =
      if is_empty page.blocks
      then record { page_number = page.number; direction = ltr; column_count = 0; blocks = [] }
      else (let direction = detect_direction fl is_alpha page.blocks in
          record {
            page_number = page.number;
            direction = direction;
            column_count = length columns_of;
            blocks = map (layout_block (reading_order fl page direction)) page.blocks;
          })
