-- ===== src/Metadata/Footer.antt =====
-- The printed page numbers in the footers.
use fiqhmind_ai_backend.Prelude.{
  ℕ, ◌+◌, ◌-◌, ◌*◌, Bool, true, false, not, ◌&&◌, ◌||◌, Option, none, some, List, [], ◌∷◌, ltb, leb,
  ◌==◌, map, if◌then◌else◌, length, select, is_empty, is_some, reverse,
}
use fiqhmind_ai_backend.Text.{Text, strip, cons_word}
use fiqhmind_ai_backend.Extraction.Types.{Floating, BlockInfo, PageInfo}
use fiqhmind_ai_backend.Layout.Sort.{sort_by}
use fiqhmind_ai_backend.Metadata.Types.{
  NumberSystem, latin, arabic, roman, mixed, no_system, footer_text, no_source, PageNumber,
  Patterns,
}
use fiqhmind_ai_backend.Metadata.Blocks.{is_footer, footer_lt}
use fiqhmind_ai_backend.Metadata.Fields.{is_arabic_digit, all_chars, arabic_number, is_digits}

-- the maximal runs of some characters: `findall` of a pattern `[…]+`
abbrev pub starts_with : (ℕ → Bool) → Text → Bool
starts_with p [] = false
starts_with p (c ∷ t) = p c

unfoldable pub runs : (ℕ → Bool) → Text → List Text
unfolding cons_word
runs p [] = []
runs p (c ∷ t) = let rest = runs p t in if p c then cons_word (starts_with p t) c rest else rest

-- `token.upper()`, of a letter of the English alphabet
abbrev pub upper : ℕ → ℕ
upper c = if leb 97 c && leb c 122 then c - 32 else c

-- _ROMAN_VALUES
unfoldable pub roman_value : ℕ → Option ℕ
roman_value c =
    if c == 73
    then some 1
    else if c == 86
    then some 5
    else if c == 88
    then some 10
    else if c == 76
    then some 50
    else if c == 67
    then some 100
    else if c == 68
    then some 500
    else if c == 77
    then some 1000
    else none

-- The loop of `_roman_to_int`. The total can be negative, so it is what was added and what was
-- taken off.
unfoldable pub roman_from : ℕ → ℕ → ℕ → Text → Option (ℕ × ℕ)
roman_from added taken previous [] = some (added, taken)
roman_from added taken previous (c ∷ t) = elim (roman_value c) [
  | none ↦ none
  | some value ↦
      roman_from (if ltb value previous then added else added + value)
        (if ltb value previous then taken + value else taken)
        (if ltb value previous then previous else value) t
]

abbrev pub positive : Option (ℕ × ℕ) → Option ℕ
positive none = none
positive (some total) = if ltb total.1 total.0 then some (total.0 - total.1) else none

-- `_roman_to_int`
unfoldable pub roman_to_int : Text → Option ℕ
unfolding roman_from
roman_to_int token =
    if is_empty token || ltb 9 (length token)
    then none
    else positive (roman_from 0 0 0 (reverse (map upper token)))

-- _ROMAN_TOKEN_RE
abbrev pub is_roman : ℕ → Bool
unfolding roman_value
is_roman c = is_some (roman_value (upper c))

-- a page number: the label, its value and the system
pub record Label : Type 0 where
  pub raw : Text
  pub numeric : ℕ
  pub system : NumberSystem

module _ (re : Patterns) where
  -- `int(token)` of decimal digits, with the number so far
  abbrev pub digit_value : Option ℕ → ℕ
  digit_value none = 0
  digit_value (some d) = d

  abbrev pub number_value : ℕ → Text → ℕ
  number_value n [] = n
  number_value n (c ∷ t) = number_value (n * 10 + digit_value (re.digit c)) t

  abbrev pub arabic_label : List Text → Option Label → Option Label
  arabic_label [] later = later
  arabic_label (token ∷ tokens) later =
      let rest = arabic_label tokens later in
      if all_chars is_arabic_digit token
      then some (record { raw = token; numeric = arabic_number 0 token; system = arabic })
      else rest

  abbrev pub latin_label : List Text → Option Label → Option Label
  latin_label [] later = later
  latin_label (token ∷ tokens) later =
      let rest = latin_label tokens later in
      if is_digits re token
      then some (record { raw = token; numeric = number_value 0 token; system = latin })
      else rest

  abbrev pub after_roman : Text → Option ℕ → Option Label → Option Label
  after_roman token none rest = rest
  after_roman token (some value) rest =
      some (record { raw = token; numeric = value; system = roman })

  unfoldable pub roman_label : List Text → Option Label
  unfolding roman_to_int
  roman_label [] = none
  roman_label (token ∷ tokens) = after_roman token (roman_to_int token) (roman_label tokens)

  -- `_parse_footer_number`
  unfoldable pub parse_footer_number : Text → Option Label
  unfolding roman_label runs is_roman
  parse_footer_number text =
      let stripped = strip text in
      let digits = runs (λ c. is_some (re.digit c)) stripped in
      arabic_label digits (latin_label digits (roman_label (runs is_roman stripped)))

module _ (fl : Floating) (re : Patterns) where
  abbrev pub last_text : List (BlockInfo fl.F) → Text
  last_text [] = []
  last_text (block ∷ []) = block.text
  last_text (block ∷ next ∷ blocks) = last_text (next ∷ blocks)

  -- the text of the last footer block
  unfoldable pub footer_of : PageInfo fl.F → Text
  unfolding sort_by
  footer_of page = last_text (sort_by (footer_lt fl) (select (is_footer fl page) page.blocks))

  -- the entry of a page
  abbrev pub page_number_for : ℕ → Option Label → PageNumber fl.F
  page_number_for number none = record {
    pdf_page = number;
    printed_page = [];
    printed_page_numeric = none;
    numbering_system = no_system;
    page_number_uncertain = true;
    confidence = fl.ratio 15 100;
    source = no_source;
    in_kitab = none;
    in_bab = none;
    in_fasl = none;
  }
  page_number_for number (some label) = record {
    pdf_page = number;
    printed_page = label.raw;
    printed_page_numeric = some label.numeric;
    numbering_system = label.system;
    page_number_uncertain = false;
    confidence = fl.ratio 9 10;
    source = footer_text;
    in_kitab = none;
    in_bab = none;
    in_fasl = none;
  }

  -- `_detect_page_numbers`
  unfoldable pub detect_page_numbers : List (PageInfo fl.F) → List (PageNumber fl.F)
  unfolding footer_of parse_footer_number
  detect_page_numbers [] = []
  detect_page_numbers (page ∷ pages) =
      page_number_for page.number (parse_footer_number re (footer_of page))
      ∷ detect_page_numbers pages

  abbrev pub system_index : NumberSystem → ℕ
  system_index latin = 0
  system_index arabic = 1
  system_index roman = 2
  system_index mixed = 3
  system_index no_system = 4

  abbrev pub is_system : NumberSystem → PageNumber fl.F → Bool
  is_system system page = system_index page.numbering_system == system_index system

  -- the system that is the only one, besides none, of those behind the first
  abbrev pub only_system : NumberSystem → List (PageNumber fl.F) → NumberSystem
  only_system system [] = system
  only_system system (page ∷ pages) =
      let rest = only_system system pages in if is_system system page then rest else mixed

  abbrev pub is_known : PageNumber fl.F → Bool
  is_known page = not (is_system no_system page)

  abbrev pub aggregate : List (PageNumber fl.F) → NumberSystem
  aggregate [] = no_system
  aggregate (page ∷ pages) = only_system page.numbering_system pages

  -- `_aggregate_numbering`
  unfoldable pub aggregate_numbering : List (PageNumber fl.F) → NumberSystem
  aggregate_numbering pages = aggregate (select is_known pages)
