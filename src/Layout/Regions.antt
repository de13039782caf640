-- ===== src/Layout/Regions.antt =====
-- `_separator_y` and `_classify_block` of app/services/layout.py.
pub mod Bands
use fiqhmind_ai_backend.Prelude.{
  ℕ, Bool, true, false, not, ◌&&◌, ◌||◌, String, Option, none, some, List, [], ◌∷◌, ◌==◌,
  if◌then◌else◌, any,
}
use fiqhmind_ai_backend.Extraction.Types.{Floating, BlockInfo, DrawingInfo, PageInfo}
use fiqhmind_ai_backend.Extraction.Rows.{Region, main, footnote, margin, header, footer, unknown}
use fiqhmind_ai_backend.Layout.Columns.{
  zero_f, ends_in_header, starts_in_footer, body_blocks, main_font_size, size_of,
}

-- what `_classify_block` returns
pub record Classified (F : Type 0) : Type 0 where
  pub region : Region
  pub confidence : F
  pub reason : String

module _ (fl : Floating) (page : PageInfo fl.F) where
  -- `(rect[1] + rect[3]) / 2`
  abbrev pub y_center : DrawingInfo fl.F → fl.F
  y_center drawing = fl.div (fl.add drawing.bbox.y0 drawing.bbox.y1) (fl.ratio 2 1)

  -- the test of `_separator_y`: half as wide as the page, and in its lower part
  abbrev pub is_separator : DrawingInfo fl.F → Bool
  is_separator drawing =
      fl.le (fl.mul page.width (fl.ratio 50 100)) (fl.sub drawing.bbox.x1 drawing.bbox.x0)
      && fl.le (fl.mul page.height (fl.ratio 55 100)) (y_center drawing)
      && fl.le (y_center drawing) (fl.mul page.height (fl.ratio 95 100))

  -- `_separator_y`, over the drawings of the page
  unfoldable pub separator_y : List (DrawingInfo fl.F) → Option fl.F
  separator_y [] = none
  separator_y (drawing ∷ drawings) =
      if is_separator drawing then some (y_center drawing) else separator_y drawings

  -- `page.width <= 0 or page.height <= 0`
  abbrev pub is_invalid : Bool
  is_invalid = fl.le page.width (zero_f fl) || fl.le page.height (zero_f fl)

  -- MIN_BLOCK_WIDTH_RATIO, MIN_BLOCK_HEIGHT_RATIO
  abbrev pub is_small : BlockInfo fl.F → Bool
  is_small block =
      fl.lt (fl.sub block.bbox.x1 block.bbox.x0) (fl.mul page.width (fl.ratio 2 100))
      || fl.lt (fl.sub block.bbox.y1 block.bbox.y0) (fl.mul page.height (fl.ratio 4 1000))

  -- `block.index in margin_indices`
  abbrev pub is_among : List ℕ → BlockInfo fl.F → Bool
  is_among margin_indices block = any (λ i. i == block.index) margin_indices

  -- `separator_y is not None and y0 > separator_y`
  abbrev pub is_below : Option fl.F → BlockInfo fl.F → Bool
  is_below none block = false
  is_below (some separator) block = fl.lt separator block.bbox.y0

  -- FOOTNOTE_BAND, FOOTNOTE_FONT_RATIO
  unfoldable pub is_low_and_small : BlockInfo fl.F → Bool
  unfolding main_font_size body_blocks
  is_low_and_small block =
      fl.le (fl.mul page.height (fl.ratio 72 100)) block.bbox.y0
      && fl.lt (size_of fl block)
          (fl.mul (main_font_size fl (body_blocks fl page)) (fl.ratio 85 100))

  abbrev pub classified : Region → ℕ → String → Classified fl.F
  classified region percent reason = record {
    region = region;
    confidence = fl.ratio percent 100;
    reason = reason;
  }

  -- `_classify_block`
  unfoldable pub classify_block : BlockInfo fl.F → Option fl.F → List ℕ → Classified fl.F
  unfolding is_low_and_small
  classify_block block separator margin_indices =
      if is_invalid
      then classified unknown 30 "page has invalid dimensions"
      else if ends_in_header fl page block
      then classified header 95 "top band (running header position)"
      else if starts_in_footer fl page block
      then classified footer 95 "bottom band (page number / running footer)"
      else if is_small block
      then classified unknown 30 "block too small for reliable region detection"
      else if is_among margin_indices block
      then classified margin 85 "narrow column outside the main text column"
      else if is_below separator block
      then classified footnote 95 "below the footnote separator rule"
      else if is_low_and_small block
      then classified footnote 90 "lower band with smaller font than main text"
      else classified main 80 "dominant column with main-text font size"
