-- ===== src/Layout/Reading.antt =====
-- `detect_direction` and `_reading_order` of app/services/layout.py. `str.isalpha` is a parameter.
pub mod Positions
use fiqhmind_ai_backend.Prelude.{
  ℕ, zero, suc, Bool, true, false, not, ◌&&◌, ◌||◌, Option, none, some, List, [], ◌∷◌, ◌++◌, ltb,
  leb, ◌==◌, map, if◌then◌else◌, select, flat_map,
}
use fiqhmind_ai_backend.Extraction.Types.{Floating, BlockInfo, PageInfo}
use fiqhmind_ai_backend.Layout.Sort.{sort_by, pair_lt}
use fiqhmind_ai_backend.Layout.Columns.{
  header_band, footer_band, min_of, max_of, left_of, right_of, cluster_columns,
}

pub data Direction : Type 0 where
  ltr rtl : Direction

-- `_is_arabic`
unfoldable pub is_arabic : ℕ → Bool
is_arabic c =
    leb 1536 c && leb c 1791
    || leb 1872 c && leb c 1919
    || leb 2208 c && leb c 2303
    || leb 64336 c && leb c 65023
    || leb 65136 c && leb c 65279

-- the characters of all blocks, in the loop of `detect_direction`, with the counts so far
unfoldable pub count_scripts : (ℕ → Bool) → ℕ → ℕ → List ℕ → ℕ × ℕ
unfolding is_arabic
count_scripts is_alpha arabic letters [] = (arabic, letters)
count_scripts is_alpha arabic letters (c ∷ t) =
    count_scripts is_alpha (if is_arabic c then suc arabic else arabic)
      (if not (is_arabic c) && is_alpha c then suc letters else letters) t

module _ (fl : Floating) where
  abbrev pub text_of : BlockInfo fl.F → List ℕ
  text_of block = block.text

  -- `detect_direction`
  unfoldable pub detect_direction : (ℕ → Bool) → List (BlockInfo fl.F) → Direction
  unfolding count_scripts
  detect_direction is_alpha blocks =
      let counts = count_scripts is_alpha 0 0 (flat_map text_of blocks) in
      if ltb counts.1 counts.0 then rtl else ltr

  -- the tests of `headers` and `footers`
  abbrev pub starts_in_header : PageInfo fl.F → BlockInfo fl.F → Bool
  starts_in_header page block = fl.le block.bbox.y0 (fl.mul page.height (header_band fl))

  abbrev pub ends_in_footer : PageInfo fl.F → BlockInfo fl.F → Bool
  ends_in_footer page block = fl.le (fl.mul page.height (footer_band fl)) block.bbox.y1

  -- `block not in headers and block not in footers`: an equal block passes the same tests
  abbrev pub is_between : PageInfo fl.F → BlockInfo fl.F → Bool
  is_between page block = not (starts_in_header page block) && not (ends_in_footer page block)

  -- `(item.bbox[1], item.bbox[0])`
  abbrev pub top_left : BlockInfo fl.F → fl.F × fl.F
  top_left block = (block.bbox.y0, block.bbox.x0)

  -- `(round(item.bbox[1], 1), item.bbox[0])`
  abbrev pub rounded_top_left : BlockInfo fl.F → fl.F × fl.F
  rounded_top_left block = (fl.round_tenth block.bbox.y0, block.bbox.x0)

  -- `_column_position`
  abbrev pub column_position : List (BlockInfo fl.F) → fl.F × fl.F
  column_position column =
      (min_of fl (map (left_of fl) column), max_of fl (map (right_of fl) column))

  abbrev pub top_left_lt : BlockInfo fl.F → BlockInfo fl.F → Bool
  top_left_lt a b = pair_lt fl (top_left a) (top_left b)

  abbrev pub rounded_lt : BlockInfo fl.F → BlockInfo fl.F → Bool
  rounded_lt a b = pair_lt fl (rounded_top_left a) (rounded_top_left b)

  -- the order of the columns: `reverse=True` for right to left
  abbrev pub column_precedes : Direction → List (BlockInfo fl.F) → List (BlockInfo fl.F) → Bool
  column_precedes ltr a b = pair_lt fl (column_position a) (column_position b)
  column_precedes rtl a b = pair_lt fl (column_position b) (column_position a)

  -- the blocks as `_reading_order` numbers them: headers, the columns, footers
  unfoldable pub reading_sequence : PageInfo fl.F → Direction → List (BlockInfo fl.F)
  unfolding sort_by cluster_columns
  reading_sequence page direction =
      let body = select (is_between page) page.blocks in
      let columns = sort_by (column_precedes direction) (cluster_columns fl body page.width) in
      sort_by top_left_lt (select (starts_in_header page) page.blocks)
      ++ (flat_map (sort_by rounded_lt) columns
          ++ sort_by top_left_lt (select (ends_in_footer page) page.blocks))

  -- `order[block.index] = next_index`, one after another
  unfoldable pub assign_positions : ℕ → List (BlockInfo fl.F) → List (ℕ × ℕ)
  assign_positions position [] = []
  assign_positions position (block ∷ blocks) =
      (block.index, position) ∷ assign_positions (suc position) blocks

  -- `_reading_order`, the assignments to `order`
  unfoldable pub reading_order : PageInfo fl.F → Direction → List (ℕ × ℕ)
  unfolding reading_sequence assign_positions
  reading_order page direction = assign_positions 0 (reading_sequence page direction)

-- `order.get(index, default)`: the last assignment counts
unfoldable pub position_or : ℕ → ℕ → List (ℕ × ℕ) → ℕ
position_or default index [] = default
position_or default index (a ∷ rest) =
    position_or (if a.0 == index then a.1 else default) index rest
