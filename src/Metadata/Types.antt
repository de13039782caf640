-- ===== src/Metadata/Types.antt =====
-- The dataclasses of app/services/metadata.py, and what it asks of the regular expressions and of
-- `str`.
use fiqhmind_ai_backend.Prelude.{ℕ, Bool, Option, List, ◌==◌}
use fiqhmind_ai_backend.Text.{Text}

-- NUMBER_SYSTEM_…
pub data NumberSystem : Type 0 where
  latin arabic roman mixed no_system : NumberSystem

-- SOURCE_…
pub data Source : Type 0 where
  filename cover_page first_pages footer_text body_text no_source : Source

-- FIELD_…
pub data Field : Type 0 where
  title author volume edition publisher publication_year muhaqqiq : Field

-- LEVEL_…
pub data Heading : Type 0 where
  kitab bab fasl topic : Heading

abbrev pub field_index : Field → ℕ
field_index title = 0
field_index author = 1
field_index volume = 2
field_index edition = 3
field_index publisher = 4
field_index publication_year = 5
field_index muhaqqiq = 6

abbrev pub field_eq : Field → Field → Bool
field_eq a b = field_index a == field_index b

abbrev pub heading_index : Heading → ℕ
heading_index kitab = 0
heading_index bab = 1
heading_index fasl = 2
heading_index topic = 3

abbrev pub heading_eq : Heading → Heading → Bool
heading_eq a b = heading_index a == heading_index b

pub record MetadataField (F : Type 0) : Type 0 where
  pub field : Field
  pub value : Text
  pub confidence : F
  pub source : Source

pub record PageNumber (F : Type 0) : Type 0 where
  pub pdf_page : ℕ
  pub printed_page : Text
  pub printed_page_numeric : Option ℕ
  pub numbering_system : NumberSystem
  pub page_number_uncertain : Bool
  pub confidence : F
  pub source : Source
  pub in_kitab : Option Text
  pub in_bab : Option Text
  pub in_fasl : Option Text

pub record Structure (F : Type 0) : Type 0 where
  pub level : Heading
  pub name : Text
  pub page_start : ℕ
  pub page_end : ℕ
  pub confidence : F
  pub source : Source

pub record DocumentMetadata (F : Type 0) : Type 0 where
  pub page_count : ℕ
  pub fields : List (MetadataField F)
  pub pages : List (PageNumber F)
  pub structures : List (Structure F)
  pub numbering_system : NumberSystem
  pub confidence : F

-- What the regular expressions of the module do to a text: the group that a search captures, the text
-- without the matches, the bounds of the matches, and whether there is one.
pub record Patterns : Type 0 where
  -- `Path(filename).stem`
  pub stem : Text → Text
  -- the patterns of _VOLUME_PATTERNS and _EDITION_PATTERNS
  pub volume_patterns : List (Text → Option Text)
  pub edition_patterns : List (Text → Option Text)
  pub volume_subs : List (Text → Text)
  pub edition_subs : List (Text → Text)
  pub year : Text → Option Text
  pub year_sub : Text → Text
  -- `(m.start(), m.end())` of the matches of _SEPARATOR_RE
  pub separators : Text → List (ℕ × ℕ)
  pub generic_title : Text → Bool
  -- the searches of `_extract_from_first_pages`
  pub publisher_arabic : Text → Option Text
  pub publisher_prefix_sub : Text → Text
  pub publisher_latin : Text → Option Text
  pub author_arabic : Text → Option Text
  pub author_latin : Text → Option Text
  pub muhaqqiq_arabic : Text → Option Text
  pub muhaqqiq_latin : Text → Option Text
  -- the searches of `_heading_level`
  pub is_kitab : Text → Bool
  pub is_bab : Text → Bool
  pub is_fasl : Text → Bool
  -- _ORDINALS, the numbers of the ordinal words
  pub ordinal : Text → Option ℕ
  -- the value of a decimal digit, of any script
  pub digit : ℕ → Option ℕ
