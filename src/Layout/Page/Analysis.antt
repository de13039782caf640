-- ===== src/Layout/Page/Analysis.antt =====
-- What `analyze_page` makes of the pages that extraction parses.
use mathlib.Core.List.{Perm, Nodup, Nodup-cons, Nodup-nil, Mem, mem-cons, not-mem-nil}
use mathlib.Core.Logic.{∥∥₁_elim, ⊎_elim}
use mathlib.Core.HLevel.{⊥_prop}
use fiqhmind_ai_backend.Prelude.{
  ℕ, suc, ◌<◌, ◌≡◌, refl, ap, sym, subst, Bool, List, [], ◌∷◌, arith, All, map, length, is_empty,
  if◌then◌else◌,
}
use fiqhmind_ai_backend.Extraction.Types.{Floating, BlockInfo, PageInfo}
use fiqhmind_ai_backend.Extraction.Parse.{Page, parse_page}
use fiqhmind_ai_backend.Extraction.Parse.Numbered.{Counts, block_index, parse_page-IsWhole}
use fiqhmind_ai_backend.Extraction.Slices.{range}
use fiqhmind_ai_backend.Layout.Columns.{index_of}
use fiqhmind_ai_backend.Layout.Reading.{detect_direction, reading_order, position_or}
use fiqhmind_ai_backend.Layout.Reading.Positions.{InOneBand, reading_order-IsOrder}
use fiqhmind_ai_backend.Layout.Page.{BlockLayout, PageLayout, analyze_page, layout_block}

module _ (fl : Floating) where
  Counts-fresh :
      (n m' : ℕ) (blocks : List (BlockInfo fl.F))
      → n < m'
      → Counts (block_index fl) m' blocks
      → ¬ Mem n (map (index_of fl) blocks)
  Counts-fresh n m' [] less c h = not-mem-nil h
  Counts-fresh n m' (b ∷ blocks) less c h = ∥∥₁_elim (mem-cons.0 h) ⊥_prop (
      ⊎_elim (λ same. omega (arith, same, c.0))
        (λ m. Counts-fresh n (suc m') blocks (omega arith) c.1 m))

  Counts-Nodup :
      (m : ℕ) (blocks : List (BlockInfo fl.F))
      → Counts (block_index fl) m blocks
      → Nodup (map (index_of fl) blocks)
  Counts-Nodup m [] c = Nodup-nil
  Counts-Nodup m (b ∷ blocks) c = Nodup-cons.1 (
    subst (λ i. ¬ Mem i (map (index_of fl) blocks)) (sym c.0)
        (Counts-fresh m (suc m) blocks (omega arith) c.1),
    Counts-Nodup (suc m) blocks c.1,
  )

  abbrev pub order_of_block : BlockLayout fl.F → ℕ
  order_of_block layout = layout.reading_order

  abbrev pub index_of_block : BlockLayout fl.F → ℕ
  index_of_block layout = layout.block_index

  module _ (is_alpha : ℕ → Bool) where
    pub layouts-index :
        (page : PageInfo fl.F) (order : List (ℕ × ℕ)) (blocks : List (BlockInfo fl.F))
        → map index_of_block (map (layout_block fl is_alpha page order) blocks)
          ≡ map (index_of fl) blocks
    unfolding layout_block
    layouts-index page order [] = refl
    layouts-index page order (b ∷ blocks) = ap (◌∷◌ b.index) (layouts-index page order blocks)

    layouts-order :
        (page : PageInfo fl.F) (order : List (ℕ × ℕ)) (blocks : List (BlockInfo fl.F))
        → map order_of_block (map (layout_block fl is_alpha page order) blocks)
          ≡ map (λ b. position_or 0 b.index order) blocks
    unfolding layout_block
    layouts-order page order [] = refl
    layouts-order page order (b ∷ blocks) =
        ap (◌∷◌ (position_or 0 b.index order)) (layouts-order page order blocks)

    -- an analysis has the blocks of the page in their order, and is an order of them
    abbrev pub IsAnalysis : PageInfo fl.F → List (BlockLayout fl.F) → Type 0
    IsAnalysis page layouts =
        (map index_of_block layouts ≡ map (index_of fl) page.blocks)
        × Perm (map order_of_block layouts) (range 0 (length page.blocks))

    -- without blocks there is nothing to lay out
    layouts-either :
        (blocks : List (BlockInfo fl.F)) (f : BlockInfo fl.F → BlockLayout fl.F)
        (bare full : PageLayout fl.F)
        → bare.blocks ≡ []
        → full.blocks ≡ map f blocks
        → (if is_empty blocks then bare else full).blocks ≡ map f blocks
    layouts-either [] f bare full e h = e
    layouts-either (b ∷ blocks) f bare full e h = h

    pub analyze_page-blocks :
        (page : PageInfo fl.F)
        → let order = reading_order fl page (detect_direction fl is_alpha page.blocks) in
          (analyze_page fl is_alpha page).blocks
          ≡ map (layout_block fl is_alpha page order) page.blocks
    unfolding analyze_page
    analyze_page-blocks page = layouts-either page.blocks _ _ _ refl refl

    analyze_page-IsAnalysis :
        (page : PageInfo fl.F)
        → All (InOneBand fl page) page.blocks
        → Nodup (map (index_of fl) page.blocks)
        → IsAnalysis page (analyze_page fl is_alpha page).blocks
    analyze_page-IsAnalysis page h distinct =
        let direction = detect_direction fl is_alpha page.blocks in
        let order = reading_order fl page direction in
        rw (analyze_page-blocks page) (
          layouts-index page order page.blocks,
          subst (λ ps. Perm ps (range 0 (length page.blocks)))
              (sym (layouts-order page order page.blocks))
              (reading_order-IsOrder fl page direction h distinct),
        )

    -- The layout of a page as extraction parses it has an entry for each block, in their order, and
    -- the reading orders of the entries are the numbers from 0 on, each once, where no block of the
    -- page is in the top band and in the bottom band at once.
    pub analyze_page-parse_page :
        (raw : Page fl.F) (number : ℕ)
        → All (InOneBand fl (parse_page fl raw number)) (parse_page fl raw number).blocks
        → IsAnalysis
            (parse_page fl raw number)
            (analyze_page fl is_alpha (parse_page fl raw number)).blocks
    analyze_page-parse_page raw number h =
        analyze_page-IsAnalysis (parse_page fl raw number) h
          (Counts-Nodup 0 (parse_page fl raw number).blocks (parse_page-IsWhole fl raw number).0)
