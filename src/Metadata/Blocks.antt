-- ===== src/Metadata/Blocks.antt =====
-- `_is_header`, `_is_footer` and `_dominant_font` of app/services/metadata.py.
use fiqhmind_ai_backend.Prelude.{
  ℕ, ◌+◌, Bool, not, ◌&&◌, List, [], ◌∷◌, ltb, if◌then◌else◌, select, length,
}
use fiqhmind_ai_backend.Extraction.Types.{Floating, BlockInfo, PageInfo}
use fiqhmind_ai_backend.Layout.Sort.{float_eq, pair_lt}
use fiqhmind_ai_backend.Layout.Columns.{header_band, footer_band, zero_f, size_of}

module _ (fl : Floating) where
  -- `_is_header`
  abbrev pub is_header : PageInfo fl.F → BlockInfo fl.F → Bool
  is_header page block = fl.le block.bbox.y0 (fl.mul page.height (header_band fl))

  -- `_is_footer`
  abbrev pub is_footer : PageInfo fl.F → BlockInfo fl.F → Bool
  is_footer page block = fl.le (fl.mul page.height (footer_band fl)) block.bbox.y1

  -- the blocks that are neither
  unfoldable pub body_of : PageInfo fl.F → List (BlockInfo fl.F)
  body_of page =
      select (λ block. not (is_header page block) && not (is_footer page block)) page.blocks

  -- `counts[key] = counts.get(key, 0) + n`
  abbrev pub add_count : fl.F → ℕ → List (fl.F × ℕ) → List (fl.F × ℕ)
  add_count key n [] = (key, n) ∷ []
  add_count key n ((k, m) ∷ counts) =
      let later = add_count key n counts in
      if float_eq fl k key then (k, m + n) ∷ counts else (k, m) ∷ later

  -- the loop of `_dominant_font`
  unfoldable pub count_sizes : List (fl.F × ℕ) → List (BlockInfo fl.F) → List (fl.F × ℕ)
  count_sizes counts [] = counts
  count_sizes counts (block ∷ blocks) =
      count_sizes
        (if fl.le (size_of fl block) (zero_f fl)
          then counts
          else add_count (fl.round_tenth (size_of fl block)) (length block.text) counts)
        blocks

  -- `max(counts.items(), key=count)[0]`: the first of the largest
  abbrev pub most_from : fl.F → ℕ → List (fl.F × ℕ) → fl.F
  most_from key n [] = key
  most_from key n ((k, m) ∷ counts) =
      most_from (if ltb n m then k else key) (if ltb n m then m else n) counts

  abbrev pub most : List (fl.F × ℕ) → fl.F
  most [] = zero_f fl
  most ((k, m) ∷ counts) = most_from k m counts

  -- `_dominant_font`
  unfoldable pub dominant_font : List (BlockInfo fl.F) → fl.F
  unfolding count_sizes
  dominant_font blocks = most (count_sizes [] blocks)

  -- `(round(block.bbox[1], 1), block.bbox[0])`
  abbrev pub body_lt : BlockInfo fl.F → BlockInfo fl.F → Bool
  body_lt a b =
      pair_lt fl (fl.round_tenth a.bbox.y0, a.bbox.x0) (fl.round_tenth b.bbox.y0, b.bbox.x0)

  -- `(round(block.bbox[3], 1), block.bbox[0])`
  abbrev pub footer_lt : BlockInfo fl.F → BlockInfo fl.F → Bool
  footer_lt a b =
      pair_lt fl (fl.round_tenth a.bbox.y1, a.bbox.x0) (fl.round_tenth b.bbox.y1, b.bbox.x0)
