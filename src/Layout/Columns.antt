-- ===== src/Layout/Columns.antt =====
-- `_body_blocks`, `_column_span`, `_margin_block_indices` and `_cluster_columns` of
-- app/services/layout.py.
pub mod Clustering
use fiqhmind_ai_backend.Prelude.{
  ℕ, zero, suc, Bool, true, false, not, ◌&&◌, ◌||◌, Option, none, some, List, [], ◌∷◌, ◌++◌, ◌==◌,
  map, if◌then◌else◌, select, is_empty,
}
use fiqhmind_ai_backend.Extraction.Types.{Floating, BlockInfo, PageInfo}
use fiqhmind_ai_backend.Layout.Sort.{sort_by}

module _ (fl : Floating) where
  -- HEADER_BAND, FOOTER_BAND and COLUMN_GAP
  abbrev pub header_band : fl.F
  header_band = fl.ratio 7 100

  abbrev pub footer_band : fl.F
  footer_band = fl.ratio 93 100

  abbrev pub column_gap : fl.F
  column_gap = fl.ratio 18 100

  abbrev pub zero_f : fl.F
  zero_f = fl.ratio 0 1

  -- `max(a, b)` and `min(a, b)`
  abbrev pub max_f : fl.F → fl.F → fl.F
  max_f a b = if fl.lt a b then b else a

  abbrev pub min_f : fl.F → fl.F → fl.F
  min_f a b = if fl.lt b a then b else a

  abbrev pub max_all : fl.F → List fl.F → fl.F
  max_all best [] = best
  max_all best (x ∷ xs) = max_all (max_f best x) xs

  abbrev pub min_all : fl.F → List fl.F → fl.F
  min_all best [] = best
  min_all best (x ∷ xs) = min_all (min_f best x) xs

  -- `max(xs)` and `min(xs)`; of no elements they are 0, which they never are taken of
  abbrev pub max_of : List fl.F → fl.F
  max_of [] = zero_f
  max_of (x ∷ xs) = max_all x xs

  abbrev pub min_of : List fl.F → fl.F
  min_of [] = zero_f
  min_of (x ∷ xs) = min_all x xs

  -- `y1 <= page.height * HEADER_BAND`: the block ends in the top band
  abbrev pub ends_in_header : PageInfo fl.F → BlockInfo fl.F → Bool
  ends_in_header page block = fl.le block.bbox.y1 (fl.mul page.height header_band)

  -- `y0 >= page.height * FOOTER_BAND`: the block starts in the bottom band
  abbrev pub starts_in_footer : PageInfo fl.F → BlockInfo fl.F → Bool
  starts_in_footer page block = fl.le (fl.mul page.height footer_band) block.bbox.y0

  -- `_body_blocks`
  unfoldable pub body_blocks : PageInfo fl.F → List (BlockInfo fl.F)
  body_blocks page =
      select (λ block. not (ends_in_header page block) && not (starts_in_footer page block))
        page.blocks

  abbrev pub size_of : BlockInfo fl.F → fl.F
  size_of block = elim block.size [ none ↦ zero_f | some size ↦ size ]

  -- `_main_font_size`
  unfoldable pub main_font_size : List (BlockInfo fl.F) → fl.F
  main_font_size blocks = max_of (map size_of blocks)

  abbrev pub left_of : BlockInfo fl.F → fl.F
  left_of block = block.bbox.x0

  abbrev pub right_of : BlockInfo fl.F → fl.F
  right_of block = block.bbox.x1

  -- `_column_span`: min x0, max x1, width
  pub record Span : Type 0 where
    pub min_x : fl.F
    pub max_x : fl.F
    pub width : fl.F

  unfoldable pub column_span : List (BlockInfo fl.F) → Span
  column_span column =
      let min_x = min_of (map left_of column) in
      let max_x = max_of (map right_of column) in
      record { min_x = min_x; max_x = max_x; width = fl.sub max_x min_x }

  -- `(block.bbox[0] + block.bbox[2]) / 2`
  abbrev pub center : BlockInfo fl.F → fl.F
  center block = fl.div (fl.add block.bbox.x0 block.bbox.x1) (fl.ratio 2 1)

  abbrev pub center_lt : BlockInfo fl.F → BlockInfo fl.F → Bool
  center_lt a b = fl.lt (center a) (center b)

  -- `previous_center is not None and center - previous_center > width * COLUMN_GAP`
  abbrev pub is_gap : fl.F → Option fl.F → BlockInfo fl.F → Bool
  is_gap width none block = false
  is_gap width (some previous) block =
      fl.lt (fl.mul width column_gap) (fl.sub (center block) previous)

  -- the loop of `_cluster_columns`, with `current` and `previous_center`
  unfoldable pub cluster_from :
      fl.F
      → List (BlockInfo fl.F)
      → Option fl.F
      → List (BlockInfo fl.F)
      → List (List (BlockInfo fl.F))
  cluster_from width current previous [] = if is_empty current then [] else current ∷ []
  cluster_from width current previous (block ∷ blocks) =
      let gap = is_gap width previous block in
      let rest =
        cluster_from width (if gap then block ∷ [] else current ++ block ∷ []) (some (center block))
          blocks in
      if gap then current ∷ rest else rest

  -- `_cluster_columns`
  unfoldable pub cluster_columns : List (BlockInfo fl.F) → fl.F → List (List (BlockInfo fl.F))
  unfolding cluster_from sort_by
  cluster_columns blocks width = cluster_from width [] none (sort_by center_lt blocks)

  -- the position of `max(columns, key=width)`, the first of the widest
  abbrev pub widest_from : fl.F → ℕ → ℕ → List fl.F → ℕ
  widest_from best at position [] = at
  widest_from best at position (w ∷ ws) =
      let wider = fl.lt best w in
      widest_from (if wider then w else best) (if wider then position else at) (suc position) ws

  abbrev pub widest : List fl.F → ℕ
  widest [] = 0
  widest (w ∷ ws) = widest_from w 0 1 ws

  -- `column_width < dominant_width * 0.6 and overlap_ratio < 0.5`
  unfoldable pub is_margin : Span → Span → Bool
  is_margin dominant column =
      let overlap =
        fl.sub (min_f column.max_x dominant.max_x) (max_f column.min_x dominant.min_x) in
      let ratio =
        if fl.lt zero_f column.width
        then fl.div (max_f zero_f overlap) column.width
        else fl.ratio 1 1 in
      fl.lt column.width (fl.mul dominant.width (fl.ratio 60 100)) && fl.lt ratio (fl.ratio 50 100)

  abbrev pub index_of : BlockInfo fl.F → ℕ
  index_of block = block.index

  -- the loop over the columns, from a position; the dominant one is skipped
  unfoldable pub margins_from : Span → ℕ → ℕ → List (List (BlockInfo fl.F)) → List ℕ
  unfolding is_margin column_span
  margins_from dominant at position [] = []
  margins_from dominant at position (column ∷ columns) =
      let rest = margins_from dominant at (suc position) columns in
      if not (position == at) && is_margin dominant (column_span column)
      then map index_of column ++ rest
      else rest

  abbrev pub width_of : List (BlockInfo fl.F) → fl.F
  width_of column = (column_span column).width

  -- the column at a position
  abbrev pub column_at : ℕ → List (List (BlockInfo fl.F)) → List (BlockInfo fl.F)
  column_at position [] = []
  column_at zero (column ∷ columns) = column
  column_at (suc position) (column ∷ columns) = column_at position columns

  -- `_margin_block_indices`
  unfoldable pub margin_block_indices : List (List (BlockInfo fl.F)) → List ℕ
  unfolding margins_from column_span
  margin_block_indices columns =
      let at = widest (map width_of columns) in
      let dominant = column_span (column_at at columns) in
      if is_empty columns || fl.le dominant.width zero_f
      then []
      else margins_from dominant at 0 columns
