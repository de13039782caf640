-- ===== src/Chunking/Engine.antt =====
-- `_build_chunk` and `extract_chunks` of app/services/chunking.py, over the units of the pages. The
-- hash function is a parameter, and so is what the code computes from the float `overlap`.
pub mod Coverage
pub mod Numbering
pub mod Identity
use fiqhmind_ai_backend.Prelude.{
  ℕ, ◌+◌, max, Bool, not, ◌&&◌, Option, none, some, List, [], ◌∷◌, ◌++◌, map, if◌then◌else◌,
  is_empty, length, any, last_or, flat_map, ◌==◌,
}
use fiqhmind_ai_backend.Text.{Text, codes, decimal, words, join, count_words}
use fiqhmind_ai_backend.Chunking.Types.{BodyUnit, Sentence}
use fiqhmind_ai_backend.Chunking.Sentences.{flatten_sentences}
use fiqhmind_ai_backend.Chunking.Pack.{sentence_pack}
use fiqhmind_ai_backend.Chunking.Ranges.{ranges}
use fiqhmind_ai_backend.Chunking.Boundaries.{
  is_body, slice, body_units, primary_level, boundary_levels, sub_levels, boundary_starts,
  split_range,
}
use fiqhmind_ai_backend.Chunking.Context.{Context, context_at, build_context_heading}

-- `ChunkResult`
pub record ChunkResult : Type 0 where
  pub chunk_id : Text
  pub order_index : ℕ
  pub printed_page_start : Option ℕ
  pub printed_page_end : Option ℕ
  pub pdf_page_start : ℕ
  pub pdf_page_end : ℕ
  pub kitab : Option Text
  pub bab : Option Text
  pub fasl : Option Text
  pub topic : Option Text
  pub context_heading : Option Text
  pub region : Text
  pub lang : Text
  pub raw_text : Text
  pub normalized_text : Text
  pub token_count : ℕ

-- what the code uses of the float `overlap`: `0.0 < overlap < 1.0`, and `int(n * overlap)`
pub record Fraction : Type 0 where
  pub is_proper : Bool
  pub floor_times : ℕ → ℕ

-- the loop of `_join_body` behind its first sentence, with `last_key`
unfoldable pub join_after : ℕ → List Sentence → Text
join_after last_key [] = []
join_after last_key (s ∷ rest) =
    (if s.unit_key == last_key then codes " " else codes "\n")
    ++ (s.text ++ join_after s.unit_key rest)

-- `_join_body` of a pack that is not empty
unfoldable pub join_body : Sentence → List Sentence → Text
unfolding join_after
join_body first rest = first.text ++ join_after first.unit_key rest

-- `_normalize_text`
unfoldable pub normalize_text : Text → Text
unfolding words join
normalize_text text = join (codes " ") (words text)

-- `f"{context_heading}\n\n{body}" if context_heading else body`
abbrev pub with_heading : Option Text → Text → Text
with_heading none body = body
with_heading (some heading) body = heading ++ (codes "\n\n" ++ body)

module _ (sha256 : Text → Text) where
  -- `_build_chunk`: `first` is `pack[0]`
  unfoldable pub build_chunk : Sentence → List Sentence → Context → ℕ → ChunkResult
  unfolding join_body normalize_text count_words build_context_heading
  build_chunk first rest context order =
      let body = join_body first rest in
      let heading = build_context_heading context in
      let raw = with_heading heading body in
      let last = last_or first rest in
      record {
        chunk_id = sha256 (decimal order ++ (codes ":" ++ raw));
        order_index = order;
        printed_page_start = first.printed_page;
        printed_page_end = last.printed_page;
        pdf_page_start = first.pdf_page;
        pdf_page_end = last.pdf_page;
        kitab = context.kitab;
        bab = context.bab;
        fasl = context.fasl;
        topic = context.topic;
        context_heading = heading;
        region = codes "main";
        lang = codes "ar";
        raw_text = raw;
        normalized_text = normalize_text body;
        token_count = count_words raw;
      }

  -- The chunks of the packs, numbered in order. `_sentence_pack` makes no empty pack.
  unfoldable pub build_chunks : ℕ → List (List Sentence × Context) → List ChunkResult
  unfolding build_chunk
  build_chunks order [] = []
  build_chunks order (([], context) ∷ packs) = build_chunks order packs
  build_chunks order ((first ∷ rest, context) ∷ packs) =
      build_chunk first rest context order ∷ build_chunks (order + 1) packs

-- The packs of one range of `_split_range`, with its context: none if it has no body text.
unfoldable pub piece_packs : List BodyUnit → ℕ → Fraction → ℕ × ℕ → List (List Sentence × Context)
unfolding sentence_pack flatten_sentences context_at
piece_packs units max_tokens overlap r =
    let body = body_units units r in
    if is_empty body
    then []
    else map (λ pack. (pack, context_at units r.0))
        (sentence_pack (flatten_sentences body) max_tokens (overlap.floor_times max_tokens))

-- The ranges of `_split_range` within one range of the outer loop, which passes over a range that
-- has headings only.
unfoldable pub range_pieces : List BodyUnit → ℕ → ℕ × ℕ → List (ℕ × ℕ)
unfolding primary_level split_range
range_pieces units max_tokens r =
    if any is_body (slice units r)
    then split_range units max_tokens (sub_levels (primary_level units)) r
    else []

-- The ranges of the outer loop.
unfoldable pub section_ranges : BodyUnit → List BodyUnit → List (ℕ × ℕ)
unfolding primary_level boundary_starts ranges
section_ranges first rest =
    let units = first ∷ rest in
    ranges (boundary_starts first rest (boundary_levels (primary_level units))) (length units) 0

abbrev pub pieces : BodyUnit → List BodyUnit → ℕ → List (ℕ × ℕ)
pieces first rest max_tokens =
    flat_map (range_pieces (first ∷ rest) max_tokens) (section_ranges first rest)

-- OVERLAP_FRACTION stands in for a fraction that is out of range.
abbrev pub proper_overlap : Fraction → Fraction → Fraction
proper_overlap default_overlap overlap = if overlap.is_proper then overlap else default_overlap

-- The packs of a document, in the order of the three nested loops.
unfoldable pub document_packs :
    BodyUnit → List BodyUnit → ℕ → Fraction → List (List Sentence × Context)
unfolding range_pieces section_ranges piece_packs
document_packs first rest limit overlap =
    flat_map (piece_packs (first ∷ rest) limit overlap) (pieces first rest limit)

-- `extract_chunks` from its units on; `default_overlap` is OVERLAP_FRACTION
unfoldable pub extract_chunks :
    (Text → Text) → Fraction → List BodyUnit → ℕ → Fraction → List ChunkResult
unfolding document_packs build_chunks
extract_chunks sha256 default_overlap [] max_tokens overlap = []
extract_chunks sha256 default_overlap (first ∷ rest) max_tokens overlap =
    build_chunks sha256 0
      (document_packs first rest (max max_tokens 1) (proper_overlap default_overlap overlap))
