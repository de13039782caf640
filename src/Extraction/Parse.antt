-- ===== src/Extraction/Parse.antt =====
-- `_extract_blocks`, `_extract_images`, `_extract_drawings` and `_parse_page` of
-- app/services/extraction.py. What PyMuPDF answers for a page is data: a key that a dictionary lacks
-- is none.
pub mod Numbered
use fiqhmind_ai_backend.Prelude.{
  ℕ, zero, suc, String, Bool, true, false, Option, none, some, List, [], ◌∷◌, ◌++◌, ◌==◌,
  if◌then◌else◌, length, is_empty, flat_map, concat,
}
use fiqhmind_ai_backend.Text.{Text}
use fiqhmind_ai_backend.Extraction.Types.{
  Floating, Bbox, SpanInfo, BlockInfo, ImageInfo, DrawingInfo, PageInfo,
}

-- an entry of `line["spans"]`
pub record RawSpan (F : Type 0) : Type 0 where
  pub text : Option Text
  pub font : Option String
  pub size : Option F
  pub bbox : Option (Bbox F)
  pub flags : Option ℕ

-- an entry of `data["blocks"]`: its type is 0 for text; its lines are lists of spans
pub record RawBlock (F : Type 0) : Type 0 where
  pub kind : Option ℕ
  pub lines : List (List (RawSpan F))
  pub bbox : Option (Bbox F)

-- an entry of `get_image_info`
pub record RawImage (F : Type 0) : Type 0 where
  pub bbox : Option (Bbox F)
  pub width : Option ℕ
  pub height : Option ℕ
  pub xref : Option ℕ

-- an entry of `get_drawings`
pub record RawDrawing (F : Type 0) : Type 0 where
  pub rect : Option (Bbox F)
  pub kind : Option String
  pub width : Option F

-- `fitz.Page`
pub record Page (F : Type 0) : Type 0 where
  pub width : F
  pub height : F
  pub rotation : ℕ
  pub text_blocks : List (RawBlock F)
  pub image_info : List (RawImage F)
  pub drawings : List (RawDrawing F)

-- `d.get(key, default)`
abbrev pub or_default {ℓ} : {A : Type ℓ} → Option A → A → A
or_default none d = d
or_default (some a) d = a

-- `int(x) if x else None`
abbrev pub nonzero : Option ℕ → Option ℕ
nonzero none = none
nonzero (some zero) = none
nonzero (some (suc n)) = some (suc n)

-- `font or None`
abbrev pub nonempty : String → Option String
nonempty String.[] = none
nonempty (String.◌∷◌ c s) = some (String.◌∷◌ c s)

module _ (fl : Floating) where
  -- `[0, 0, 0, 0]`
  abbrev pub no_bbox : Bbox fl.F
  no_bbox = record { x0 = fl.ratio 0 1; y0 = fl.ratio 0 1; x1 = fl.ratio 0 1; y1 = fl.ratio 0 1 }

  abbrev pub span_of : RawSpan fl.F → ℕ → Text → SpanInfo fl.F
  span_of raw index text = record {
    index = index;
    text = text;
    font = or_default raw.font "";
    size = or_default raw.size (fl.ratio 0 1);
    bbox = or_default raw.bbox no_bbox;
    flags = some (or_default raw.flags 0);
  }

  -- the loop over the spans of all lines, with `index = len(spans)`
  unfoldable pub extract_spans : ℕ → List (RawSpan fl.F) → List (SpanInfo fl.F)
  extract_spans index [] = []
  extract_spans index (raw ∷ raws) =
      let text = or_default raw.text [] in
      let rest = extract_spans (if is_empty text then index else suc index) raws in
      if is_empty text then rest else span_of raw index text ∷ rest

  -- `max(spans, key=lambda span: span.size)`: the first of the largest
  unfoldable pub dominant_span : SpanInfo fl.F → List (SpanInfo fl.F) → SpanInfo fl.F
  dominant_span best [] = best
  dominant_span best (span ∷ spans) =
      dominant_span (if fl.lt best.size span.size then span else best) spans

abbrev pub span_text : {F : Type 0} → SpanInfo F → Text
span_text span = span.text

module _ (fl : Floating) where
  unfoldable pub block_of :
      RawBlock fl.F → ℕ → SpanInfo fl.F → List (SpanInfo fl.F) → BlockInfo fl.F
  unfolding dominant_span
  block_of raw index first rest =
      let dominant = dominant_span fl first rest in
      record {
        index = index;
        bbox = or_default raw.bbox (no_bbox fl);
        text = flat_map span_text (first ∷ rest);
        font = nonempty dominant.font;
        size = some dominant.size;
        spans = first ∷ rest;
      }

  -- `block.get("type") == 0`
  abbrev pub is_text : Option ℕ → Bool
  is_text none = false
  is_text (some kind) = kind == 0

  -- the spans of a block: one that is no text block is skipped as one without spans is
  unfoldable pub spans_of : RawBlock fl.F → List (SpanInfo fl.F)
  unfolding extract_spans
  spans_of raw = if is_text raw.kind then extract_spans fl 0 (concat raw.lines) else []

  -- the end of the loop body over the blocks, where `next` are the blocks that follow from an index
  abbrev pub add_block :
      RawBlock fl.F → List (SpanInfo fl.F) → ℕ → (ℕ → List (BlockInfo fl.F)) → List (BlockInfo fl.F)
  add_block raw [] index next = next index
  add_block raw (first ∷ rest) index next = block_of raw index first rest ∷ next (suc index)

  -- the loop of `_extract_blocks`, with `index = len(blocks)`
  unfoldable pub extract_blocks_from : List (RawBlock fl.F) → ℕ → List (BlockInfo fl.F)
  unfolding spans_of block_of
  extract_blocks_from [] index = []
  extract_blocks_from (raw ∷ raws) index =
      add_block raw (spans_of raw) index (extract_blocks_from raws)

  -- `_extract_blocks`
  unfoldable pub extract_blocks : Page fl.F → List (BlockInfo fl.F)
  unfolding extract_blocks_from
  extract_blocks page = extract_blocks_from page.text_blocks 0

  -- `_extract_images`, from an index
  unfoldable pub extract_images : ℕ → List (RawImage fl.F) → List (ImageInfo fl.F)
  extract_images index [] = []
  extract_images index (raw ∷ raws) =
      record {
        index = index;
        bbox = or_default raw.bbox (no_bbox fl);
        width = nonzero raw.width;
        height = nonzero raw.height;
        xref = nonzero raw.xref;
      }
      ∷ extract_images (suc index) raws

  -- `_extract_drawings`, from an index
  unfoldable pub extract_drawings : ℕ → List (RawDrawing fl.F) → List (DrawingInfo fl.F)
  extract_drawings index [] = []
  extract_drawings index (raw ∷ raws) =
      record {
        index = index;
        bbox = or_default raw.rect (no_bbox fl);
        kind = raw.kind;
        stroke_width = raw.width;
      }
      ∷ extract_drawings (suc index) raws

  -- `_parse_page`
  unfoldable pub parse_page : Page fl.F → ℕ → PageInfo fl.F
  unfolding extract_blocks extract_images extract_drawings
  parse_page page page_number = record {
    number = page_number;
    width = page.width;
    height = page.height;
    rotation = page.rotation;
    blocks = extract_blocks page;
    images = extract_images 0 page.image_info;
    drawings = extract_drawings 0 page.drawings;
    stored_char_count = none;
  }
