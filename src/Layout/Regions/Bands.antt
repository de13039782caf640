-- ===== src/Layout/Regions/Bands.antt =====
-- The running headers and footers are what the body of a page leaves out, and what the margins are.
use fiqhmind_ai_backend.Prelude.{
  ℕ, suc, ◌+◌, ◌≡◌, refl, subst, inl, inr, Bool, true, false, not, ◌&&◌, ◌||◌, Option, List, [],
  ◌∷◌, ◌==◌, if◌then◌else◌, Bool-cases, All, All-append, All-step, All-Among, Among, arith, map,
  is_empty,
}
use fiqhmind_ai_backend.Extraction.Types.{Floating, BlockInfo, PageInfo}
use fiqhmind_ai_backend.Extraction.Rows.{Region, header, footer}
use fiqhmind_ai_backend.Layout.Columns.{
  Span, column_span, column_at, is_margin, margins_from, margin_block_indices, index_of, widest,
  width_of, ends_in_header, starts_in_footer, zero_f,
}
use fiqhmind_ai_backend.Layout.Regions.{
  Classified, is_invalid, is_small, is_among, is_below, is_low_and_small, classify_block,
}

abbrev pub is_band : Region → Bool
is_band header = true
is_band footer = true
is_band _ = false

module _ {F : Type 0} where
  if-not_band :
      (test : Bool) (x y : Classified F)
      → is_band x.region ≡ false
      → is_band y.region ≡ false
      → is_band (if test then x else y).region ≡ false
  if-not_band true x y h k = h
  if-not_band false x y h k = k

  if-band :
      (top bottom : Bool) (x y z : Classified F)
      → is_band x.region ≡ true
      → is_band y.region ≡ true
      → is_band z.region ≡ false
      → is_band (if top then x else if bottom then y else z).region ≡ not (not top && not bottom)
  if-band true bottom x y z h k l = h
  if-band false true x y z h k l = k
  if-band false false x y z h k l = l

module _ (fl : Floating) (page : PageInfo fl.F) where
  -- On a page of a valid size `_classify_block` takes a block as a running header or footer just
  -- when `_body_blocks` leaves it out, whatever the separator and the margins are.
  pub classify_block-body_blocks :
      (block : BlockInfo fl.F) (separator : Option fl.F) (margin_indices : List ℕ)
      → is_invalid fl page ≡ false
      → is_band (classify_block fl page block separator margin_indices).region
        ≡ not (not (ends_in_header fl page block) && not (starts_in_footer fl page block))
  unfolding classify_block
  classify_block-body_blocks block separator margin_indices valid = rw valid (
      if-band (ends_in_header fl page block) (starts_in_footer fl page block) _ _ _ refl refl (
        if-not_band (is_small fl page block) _ _ refl (
          if-not_band (is_among fl page margin_indices block) _ _ refl (
            if-not_band (is_below fl page separator block) _ _ refl
              (if-not_band (is_low_and_small fl page block) _ _ refl refl)))))

module _ (fl : Floating) where
  -- a block of a column other than the dominant one, which is narrow and stands apart from it
  abbrev pub Gloss : Span fl → ℕ → ℕ → List (List (BlockInfo fl.F)) → ℕ → Type 0
  Gloss dominant at first columns i =
      (k : ℕ) × ((first + k == at) ≡ false)
      × (is_margin fl dominant (column_span fl (column_at fl k columns)) ≡ true)
      × Among i (map (index_of fl) (column_at fl k columns))

  Gloss-step :
      (dominant : Span fl) (at first : ℕ) (column : List (BlockInfo fl.F))
      (columns : List (List (BlockInfo fl.F))) (i : ℕ)
      → Gloss dominant at (suc first) columns i
      → Gloss dominant at first (column ∷ columns) i
  Gloss-step dominant at first column columns i g =
      let here : suc first + g.0 ≡ first + suc g.0 = omega arith in
      (suc g.0, subst (λ n. (n == at) ≡ false) here g.1, g.2, g.3)

  margins_from-Gloss :
      (dominant : Span fl) (at first : ℕ) (columns : List (List (BlockInfo fl.F)))
      → All (Gloss dominant at first columns) (margins_from fl dominant at first columns)
  unfolding margins_from
  margins_from-Gloss dominant at first [] = tt
  margins_from-Gloss dominant at first (column ∷ columns) =
      let later =
        All-step (Gloss dominant at (suc first) columns)
          (Gloss dominant at first (column ∷ columns))
          (margins_from fl dominant at (suc first) columns)
          (Gloss-step dominant at first column columns)
          (margins_from-Gloss dominant at (suc first) columns) in
      elim (Bool-cases (first == at)) [
        | inl same ↦ rw same later
        | inr other ↦ elim (Bool-cases (is_margin fl dominant (column_span fl column))) [
          | inl narrow ↦
              rw (other, narrow)
                (All-append (Gloss dominant at first (column ∷ columns)) (map (index_of fl) column)
                  (margins_from fl dominant at (suc first) columns)
                  (All-step (λ i. Among i (map (index_of fl) column))
                    (Gloss dominant at first (column ∷ columns)) (map (index_of fl) column)
                    (λ i m. (0, subst (λ n. (n == at) ≡ false) (first_zero first) other, narrow, m))
                    (All-Among (map (index_of fl) column)))
                  later)
          | inr wide ↦ rw (other, wide) later
        ]
      ]
    where
      first_zero : (n : ℕ) → n ≡ n + 0
      first_zero n = omega arith

  -- Each of the margin blocks is in a column that is not the widest one, and that is narrower than
  -- six tenths of it and overlaps it by less than half of its own width.
  pub margin_block_indices-Gloss :
      (columns : List (List (BlockInfo fl.F)))
      → let at = widest fl (map (width_of fl) columns) in
        All
          (Gloss (column_span fl (column_at fl at columns)) at 0 columns)
          (margin_block_indices fl columns)
  unfolding margin_block_indices
  margin_block_indices-Gloss columns =
      let at = widest fl (map (width_of fl) columns) in
      let dominant = column_span fl (column_at fl at columns) in
      elim (Bool-cases (is_empty columns || fl.le dominant.width (zero_f fl))) [
        | inl nothing ↦ rw nothing tt
        | inr there ↦ rw there (margins_from-Gloss dominant at 0 columns)
      ]
