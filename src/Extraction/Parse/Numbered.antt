-- ===== src/Extraction/Parse/Numbered.antt =====
-- The blocks of a page are numbered in their order, and so are the spans of each.
use fiqhmind_ai_backend.Prelude.{
  ℕ, suc, ◌≡◌, refl, inl, inr, false, List, [], ◌∷◌, Bool-cases, All, flat_map, concat, is_empty,
}
use fiqhmind_ai_backend.Extraction.Types.{Floating, SpanInfo, BlockInfo}
use fiqhmind_ai_backend.Extraction.Parse.{
  RawSpan, RawBlock, Page, or_default, extract_spans, span_text, block_of, spans_of, add_block,
  extract_blocks_from, extract_blocks, is_text, parse_page,
}

-- The indices of a list count up from a number.
abbrev pub Counts : {A : Type 0} → (A → ℕ) → ℕ → List A → Type 0
Counts index n [] = Unit
Counts index n (x ∷ xs) = (index x ≡ n) × Counts index (suc n) xs

module _ (fl : Floating) where
  abbrev pub span_index : SpanInfo fl.F → ℕ
  span_index span = span.index

  abbrev pub block_index : BlockInfo fl.F → ℕ
  block_index block = block.index

  -- no text is empty
  abbrev pub HasText : SpanInfo fl.F → Type 0
  HasText span = is_empty span.text ≡ false

  -- A block as later phases rely on it: it has spans, none of them empty, numbered from 0, and its
  -- text is theirs.
  pub record IsWhole (block : BlockInfo fl.F) : Type 0 where
    pub has_spans : is_empty block.spans ≡ false
    pub numbered : Counts span_index 0 block.spans
    pub written : All HasText block.spans
    pub text : block.text ≡ flat_map span_text block.spans

  spans-Counts :
      (n : ℕ) (raws : List (RawSpan fl.F)) → Counts span_index n (extract_spans fl n raws)
  unfolding extract_spans
  spans-Counts n [] = tt
  spans-Counts n (raw ∷ raws) = elim (Bool-cases (is_empty (or_default raw.text []))) [
    | inl empty ↦ rw empty (spans-Counts n raws)
    | inr full ↦ rw full (refl, spans-Counts (suc n) raws)
  ]

  spans-HasText : (n : ℕ) (raws : List (RawSpan fl.F)) → All HasText (extract_spans fl n raws)
  unfolding extract_spans
  spans-HasText n [] = tt
  spans-HasText n (raw ∷ raws) = elim (Bool-cases (is_empty (or_default raw.text []))) [
    | inl empty ↦ rw empty (spans-HasText n raws)
    | inr full ↦ rw full (full, spans-HasText (suc n) raws)
  ]

  spans_of-Counts : (raw : RawBlock fl.F) → Counts span_index 0 (spans_of fl raw)
  unfolding spans_of
  spans_of-Counts raw = elim (Bool-cases (is_text fl raw.kind)) [
    | inl text ↦ rw text (spans-Counts 0 (concat raw.lines))
    | inr other ↦ rw other tt
  ]

  spans_of-HasText : (raw : RawBlock fl.F) → All HasText (spans_of fl raw)
  unfolding spans_of
  spans_of-HasText raw = elim (Bool-cases (is_text fl raw.kind)) [
    | inl text ↦ rw text (spans-HasText 0 (concat raw.lines))
    | inr other ↦ rw other tt
  ]

  -- what holds of the blocks from an index
  abbrev Numbered : ℕ → List (BlockInfo fl.F) → Type 0
  Numbered n blocks = Counts block_index n blocks × All IsWhole blocks

  add_block-Numbered :
      (raw : RawBlock fl.F) (spans : List (SpanInfo fl.F)) (n : ℕ)
      (next : ℕ → List (BlockInfo fl.F))
      → Counts span_index 0 spans
      → All HasText spans
      → ((m : ℕ) → Numbered m (next m))
      → Numbered n (add_block fl raw spans n next)
  unfolding block_of
  add_block-Numbered raw [] n next counts written later = later n
  add_block-Numbered raw (first ∷ rest) n next counts written later = (
    (refl, (later (suc n)).0),
    (
      record { has_spans = refl; numbered = counts; written = written; text = refl },
      (later (suc n)).1,
    ),
  )

  blocks-Numbered :
      (raws : List (RawBlock fl.F)) (n : ℕ) → Numbered n (extract_blocks_from fl raws n)
  unfolding extract_blocks_from
  blocks-Numbered [] n = (tt, tt)
  blocks-Numbered (raw ∷ raws) n =
      add_block-Numbered raw (spans_of fl raw) n (extract_blocks_from fl raws) (spans_of-Counts raw)
        (spans_of-HasText raw) (blocks-Numbered raws)

  -- The blocks of a parsed page are numbered from 0 in their order, without a gap for a block that is
  -- skipped. Each has spans that are numbered so as well, none with an empty text, and its text
  -- is theirs one after another.
  pub parse_page-IsWhole :
      (page : Page fl.F) (number : ℕ)
      → Counts block_index 0 (parse_page fl page number).blocks
        × All IsWhole (parse_page fl page number).blocks
  unfolding parse_page extract_blocks
  parse_page-IsWhole page number = blocks-Numbered page.text_blocks 0
