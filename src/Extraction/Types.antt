-- ===== src/Extraction/Types.antt =====
-- The dataclasses of app/services/extraction.py with their properties. Floats are a parameter: there
-- are none in the logic.
use fiqhmind_ai_backend.Prelude.{
  ℕ, ◌+◌, leb, String, Bool, Option, none, some, List, [], ◌∷◌, if◌then◌else◌, length, is_empty,
}
use fiqhmind_ai_backend.Text.{Text}

-- Python's floats as extraction and layout compute with them.
pub record Floating : Type 1 where
  pub F : Type 0
  -- the quotient of two ints; a literal such as 0.85 is `ratio 85 100`
  pub ratio : ℕ → ℕ → F
  pub add : F → F → F
  pub sub : F → F → F
  pub mul : F → F → F
  pub div : F → F → F
  pub lt : F → F → Bool
  pub le : F → F → Bool
  -- `round(x, 1)`
  pub round_tenth : F → F
  -- `round(x, 4)`
  pub round_ten_thousandth : F → F
  -- `round(done / total * 100)`
  pub percent : ℕ → ℕ → ℕ

-- `bbox`: x0, y0, x1, y1
pub record Bbox (F : Type 0) : Type 0 where
  pub x0 : F
  pub y0 : F
  pub x1 : F
  pub y1 : F

pub record SpanInfo (F : Type 0) : Type 0 where
  pub index : ℕ
  pub text : Text
  pub font : String
  pub size : F
  pub bbox : Bbox F
  pub flags : Option ℕ

pub record BlockInfo (F : Type 0) : Type 0 where
  pub index : ℕ
  pub bbox : Bbox F
  pub text : Text
  pub font : Option String
  pub size : Option F
  pub spans : List (SpanInfo F)

pub record ImageInfo (F : Type 0) : Type 0 where
  pub index : ℕ
  pub bbox : Bbox F
  pub width : Option ℕ
  pub height : Option ℕ
  pub xref : Option ℕ

pub record DrawingInfo (F : Type 0) : Type 0 where
  pub index : ℕ
  pub bbox : Bbox F
  pub kind : Option String
  pub stroke_width : Option F

pub record PageInfo (F : Type 0) : Type 0 where
  pub number : ℕ
  pub width : F
  pub height : F
  pub rotation : ℕ
  pub blocks : List (BlockInfo F)
  pub images : List (ImageInfo F)
  pub drawings : List (DrawingInfo F)
  pub stored_char_count : Option ℕ

pub record PdfExtraction (F : Type 0) : Type 0 where
  pub page_count : ℕ
  pub pages : List (PageInfo F)

abbrev pub min_text_chars_per_page : ℕ
min_text_chars_per_page = 20

abbrev pub text_capacity_per_page : ℕ
text_capacity_per_page = 4000

abbrev pub min_text_pages_for_layer : ℕ
min_text_pages_for_layer = 1

-- `sum(f(x) for x in xs)`
abbrev pub sum_of {ℓ} : {A : Type ℓ} → (A → ℕ) → List A → ℕ
sum_of f [] = 0
sum_of f (x ∷ xs) = f x + sum_of f xs

module _ {F : Type 0} where
  abbrev pub text_length : BlockInfo F → ℕ
  text_length block = length block.text

  -- `PageInfo.char_count`
  unfoldable pub char_count : PageInfo F → ℕ
  char_count page = elim page.stored_char_count [
    | none ↦ sum_of text_length page.blocks
    | some stored ↦ stored
  ]

  -- `PageInfo.has_text`
  unfoldable pub has_text : PageInfo F → Bool
  unfolding char_count
  has_text page = leb min_text_chars_per_page (char_count page)

  -- `PdfExtraction.total_chars`
  unfoldable pub total_chars : PdfExtraction F → ℕ
  unfolding char_count
  total_chars extraction = sum_of char_count extraction.pages

  -- the pages that `has_text` counts
  unfoldable pub text_page : PageInfo F → ℕ
  unfolding has_text
  text_page page = if has_text page then 1 else 0

  -- `PdfExtraction.has_text_layer`
  unfoldable pub has_text_layer : PdfExtraction F → Bool
  unfolding text_page
  has_text_layer extraction = leb min_text_pages_for_layer (sum_of text_page extraction.pages)

module _ (fl : Floating) where
  -- `min(1.0, x)`
  abbrev pub at_most_one : fl.F → fl.F
  at_most_one x = if fl.lt x (fl.ratio 1 1) then x else fl.ratio 1 1

  -- `PageInfo.confidence`
  unfoldable pub page_confidence : PageInfo fl.F → fl.F
  unfolding has_text char_count
  page_confidence page =
      if has_text page
      then at_most_one (fl.ratio (char_count page) text_capacity_per_page)
      else fl.ratio 0 1

  -- `sum(page.confidence for page in self.pages)`
  abbrev pub sum_confidence : fl.F → List (PageInfo fl.F) → fl.F
  unfolding page_confidence
  sum_confidence total [] = total
  sum_confidence total (page ∷ pages) = sum_confidence (fl.add total (page_confidence page)) pages

  -- `PdfExtraction.confidence`
  unfoldable pub document_confidence : PdfExtraction fl.F → fl.F
  unfolding page_confidence
  document_confidence extraction =
      if is_empty extraction.pages
      then fl.ratio 0 1
      else fl.div (sum_confidence (fl.ratio 0 1) extraction.pages)
          (fl.ratio (length extraction.pages) 1)
