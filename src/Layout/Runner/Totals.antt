-- ===== src/Layout/Runner/Totals.antt =====
-- What `LayoutRunner` counts.
use fiqhmind_ai_backend.Prelude.{
  ℕ, suc, ◌+◌, ◌≡◌, ◌∙◌, refl, ap, sym, inl, inr, Bool, true, List, [], ◌∷◌, arith, Bool-cases, map,
  if◌then◌else◌, length, ◌==◌, All, All-step, subst,
}
use fiqhmind_ai_backend.Extraction.Types.{Floating, sum_of}
use fiqhmind_ai_backend.Extraction.Rows.{
  Region, main, footnote, margin, header, footer, unknown, PageExtraction, PageBlock, Work,
  list_pages,
}
use fiqhmind_ai_backend.Layout.Page.{BlockLayout, analyze_page, layout_block}
use fiqhmind_ai_backend.Layout.Page.Analysis.{analyze_page-blocks, layouts-index}
use fiqhmind_ai_backend.Layout.Sort.{sort_by-All, length-sort_by}
use fiqhmind_ai_backend.Layout.Columns.{index_of}
use fiqhmind_ai_backend.Layout.Reading.{reading_order, detect_direction}
use fiqhmind_ai_backend.Layout.Runner.{
  LayoutResult, regions, bump, Tally, apply_item, apply_items, update_blocks, update_block_layout,
  has_index, layout_page, layout_pages, load_page, run, begin, list_blocks, block_info, index_lt,
}

bump-sum :
    (region : Region) (counts : Region → ℕ)
    → sum_of (bump region counts) regions ≡ suc (sum_of counts regions)
bump-sum main counts = omega arith
bump-sum footnote counts = omega arith
bump-sum margin counts = omega arith
bump-sum header counts = omega arith
bump-sum footer counts = omega arith
bump-sum unknown counts = omega arith

abbrev Even : ℕ → (Region → ℕ) → Type 0
Even total counts = sum_of counts regions ≡ total

module _ {F : Type 0} where
  abbrev Found : List (PageBlock F) → ℕ → Type 0
  Found blocks i = has_index i blocks ≡ true

  has_index-update_blocks :
      (i : ℕ) (item : BlockLayout F) (blocks : List (PageBlock F))
      → has_index i (update_blocks item blocks) ≡ has_index i blocks
  unfolding update_blocks update_block_layout
  has_index-update_blocks i item [] = refl
  has_index-update_blocks i item (block ∷ blocks) =
      elim (Bool-cases (block.block_index == item.block_index)) [
        | inl same ↦ rw same (
            ap (λ later. if block.block_index == i then true else later)
              (has_index-update_blocks i item blocks))
        | inr other ↦ rw other (
            ap (λ later. if block.block_index == i then true else later)
              (has_index-update_blocks i item blocks))
      ]

  All-Found : (blocks : List (PageBlock F)) → All (λ b. Found blocks b.block_index) blocks
  All-Found [] = tt
  All-Found (block ∷ blocks) = (
    found_self block.block_index (has_index block.block_index blocks),
    All-step (λ b. Found blocks b.block_index) (λ b. Found (block ∷ blocks) b.block_index) blocks
        (λ b found. found_later block.block_index b.block_index _ found) (All-Found blocks),
  )
    where
      found_self : (i : ℕ) (later : Bool) → (if i == i then true else later) ≡ true
      found_self i later = ground arith

      found_later :
          (i j : ℕ) (later : Bool) → later ≡ true → (if i == j then true else later) ≡ true
      found_later i j later found = ground arith

  abbrev updated : BlockLayout F → Tally F → Tally F
  updated item t = record {
    blocks = update_blocks item t.blocks;
    total_blocks = suc t.total_blocks;
    region_counts = bump item.region t.region_counts;
  }

  apply_item-Found :
      (item : BlockLayout F) (t : Tally F)
      → Found t.blocks item.block_index
      → apply_item item t ≡ updated item t
  unfolding apply_item
  apply_item-Found item t found = ap (λ c. if c then updated item t else t) found

  apply_items-Totals :
      (items : List (BlockLayout F)) (t : Tally F)
      → Even t.total_blocks t.region_counts
      → All (Found t.blocks) (map (λ item. item.block_index) items)
      → Even (apply_items items t).total_blocks (apply_items items t).region_counts
        × ((apply_items items t).total_blocks ≡ t.total_blocks + length items)
  unfolding apply_items
  apply_items-Totals [] t e found = (e, omega arith)
  apply_items-Totals (item ∷ items) t e found =
      let rest =
        apply_items-Totals items (updated item t) (bump-sum item.region t.region_counts ∙ ap suc e)
          (All-step (Found t.blocks) (Found (updated item t).blocks)
            (map (λ x. x.block_index) items) (λ i f. has_index-update_blocks i item t.blocks ∙ f)
            found.1) in
      let Goal : Tally F → Type 0 = λ u.
        Even (apply_items items u).total_blocks (apply_items items u).region_counts
        × ((apply_items items u).total_blocks ≡ t.total_blocks + length (item ∷ items)) in
      subst Goal (sym (apply_item-Found item t found.0)) (rest.0, omega (arith, rest.1))

module _ (fl : Floating) (is_alpha : ℕ → Bool) where
  indices-Found :
      (blocks rows : List (PageBlock fl.F))
      → All (λ b. Found blocks b.block_index) rows
      → All (Found blocks) (map (index_of fl) (map block_info rows))
  indices-Found blocks [] h = tt
  indices-Found blocks (row ∷ rows) h = (h.0, indices-Found blocks rows h.1)

  length-map : {A B : Type 0} (f : A → B) (xs : List A) → length (map f xs) ≡ length xs
  length-map f [] = refl
  length-map f (x ∷ xs) = ap suc (length-map f xs)

  items-Found :
      (row : PageExtraction fl.F)
      → All
          (Found row.blocks)
          (map (λ item. item.block_index) (analyze_page fl is_alpha (load_page row)).blocks)
        × (length (analyze_page fl is_alpha (load_page row)).blocks ≡ length row.blocks)
  unfolding load_page list_blocks
  items-Found row =
      let page = load_page row in
      let order = reading_order fl page (detect_direction fl is_alpha page.blocks) in
      rw (analyze_page-blocks fl is_alpha page) (
        subst (All (Found row.blocks)) (sym (layouts-index fl is_alpha page order page.blocks)) (
            indices-Found row.blocks (list_blocks row) (
              sort_by-All index_lt (λ b. Found row.blocks b.block_index) row.blocks
                (All-Found row.blocks))),
        length-map (layout_block fl is_alpha page order) page.blocks
            ∙ length-map block_info (list_blocks row)
            ∙ length-sort_by index_lt row.blocks,
      )

  abbrev pub blocks_in : PageExtraction fl.F → ℕ
  blocks_in row = length row.blocks

  layout_pages-Totals :
      (index total : ℕ) (rows : List (PageExtraction fl.F)) (s : LayoutResult × Work fl.F)
      → Even s.0.block_count s.0.region_counts
      → s.1.held ≡ s.1.committed
      → let done = layout_pages fl is_alpha index total rows s in
        Even done.0.block_count done.0.region_counts
        × (done.0.block_count ≡ s.0.block_count + sum_of blocks_in rows)
        × (done.0.page_count ≡ s.0.page_count)
        × (done.1.held ≡ done.1.committed)
  unfolding layout_pages layout_page
  layout_pages-Totals index total [] s e saved = (e, omega arith, refl, saved)
  layout_pages-Totals index total (row ∷ rows) s e saved =
      let items = items-Found row in
      let here = apply_items-Totals (analyze_page fl is_alpha (load_page row)).blocks _ e items.0 in
      let rest =
        layout_pages-Totals (suc index) total rows (layout_page fl is_alpha index total row s)
          here.0 refl in
      (rest.0, omega (arith, rest.1, here.1, items.1), rest.2, rest.3)

  -- A run of the layout returns the number of the pages of the job and of all their blocks, the
  -- counts of the regions sum up to the latter, so that no block is passed over or counted
  -- twice, and there is nothing left to commit.
  pub run-Totals :
      (now : ℕ) (w : Work fl.F)
      → let pages = list_pages w.held.job.id w in
        let done = run fl is_alpha now w in
        (done.0.page_count ≡ length pages)
        × (done.0.block_count ≡ sum_of blocks_in pages)
        × (sum_of done.0.region_counts regions ≡ done.0.block_count)
        × (done.1.held ≡ done.1.committed)
  unfolding run begin list_pages
  run-Totals now w =
      let pages = list_pages w.held.job.id (begin now w) in
      let totals =
        layout_pages-Totals 0 (length pages) pages
          (
            record { page_count = length pages; block_count = 0; region_counts = λ _. 0 },
            begin now w,
          )
          refl refl in
      (totals.2, totals.1 ∙ omega arith, totals.0, totals.3)
