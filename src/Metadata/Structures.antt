-- ===== src/Metadata/Structures.antt =====
-- The headings of a book and the sections that they open.
pub mod Closing
pub mod Ranges
use fiqhmind_ai_backend.Prelude.{
  ℕ, zero, suc, ◌+◌, ◌-◌, Bool, true, false, not, ◌&&◌, ◌||◌, Option, none, some, List, [], ◌∷◌,
  ◌++◌, ltb, leb, ◌==◌, map, if◌then◌else◌, length, select, is_empty,
}
use fiqhmind_ai_backend.Text.{Text, strip}
use fiqhmind_ai_backend.Extraction.Types.{Floating, BlockInfo, PageInfo}
use fiqhmind_ai_backend.Layout.Sort.{sort_by}
use fiqhmind_ai_backend.Layout.Columns.{zero_f, size_of}
use fiqhmind_ai_backend.Metadata.Types.{
  Heading, kitab, bab, fasl, topic, heading_eq, body_text, Structure, Patterns,
}
use fiqhmind_ai_backend.Metadata.Blocks.{body_of, body_lt, dominant_font}

-- `current`: the name and the first page of the section of each level
abbrev pub Current : Type 0
Current = List (Heading × (Text × ℕ))

abbrev pub get_level : Heading → Current → Option (Text × ℕ)
get_level level [] = none
get_level level ((l, section) ∷ current) =
    if heading_eq l level then some section else get_level level current

-- `current[level] = section`: an old level keeps its place
abbrev pub put_level : Heading → Text × ℕ → Current → Current
put_level level section [] = (level, section) ∷ []
put_level level section ((l, old) ∷ current) =
    let later = put_level level section current in
    if heading_eq l level then (l, section) ∷ current else (l, old) ∷ later

-- the local variables of `_detect_structures`
pub record Sections (F : Type 0) : Type 0 where
  pub structures : List (Structure F)
  pub current : Current

module _ (fl : Floating) (re : Patterns) where
  -- `_heading_level`; _HEADING_FONT_RATIO is 1.08, _MAX_HEADING_LENGTH is 80
  unfoldable pub heading_level : BlockInfo fl.F → fl.F → Option Heading
  heading_level block main_font =
      let text = strip block.text in
      if is_empty text || ltb 80 (length text)
      then none
      else if fl.le main_font (zero_f fl)
          || fl.lt (size_of fl block) (fl.mul main_font (fl.ratio 108 100))
      then none
      else if re.is_kitab text
      then some kitab
      else if re.is_bab text
      then some bab
      else if re.is_fasl text
      then some fasl
      else some topic

  abbrev pub structure : Heading → Text → ℕ → ℕ → Structure fl.F
  structure level name first last = record {
    level = level;
    name = name;
    page_start = first;
    page_end = last;
    confidence = fl.ratio 75 100;
    source = body_text;
  }

  -- the section that a heading of its level on a later page closes
  abbrev pub close_section :
      Heading → ℕ → Option (Text × ℕ) → List (Structure fl.F) → List (Structure fl.F)
  close_section level number none structures = structures
  close_section level number (some (name, first)) structures =
      if first == number
      then structures
      else structures ++ structure level name first (number - 1) ∷ []

  -- the loop body over the blocks, with the level of the block
  unfoldable pub open_section : ℕ → BlockInfo fl.F → Option Heading → Sections fl.F → Sections fl.F
  open_section number block none s = s
  open_section number block (some level) s = record {
    structures = close_section level number (get_level level s.current) s.structures;
    current = put_level level (strip block.text, number) s.current;
  }

  unfoldable pub scan_blocks : ℕ → fl.F → List (BlockInfo fl.F) → Sections fl.F → Sections fl.F
  unfolding open_section heading_level
  scan_blocks number main_font [] s = s
  scan_blocks number main_font (block ∷ blocks) s =
      scan_blocks number main_font blocks
        (open_section number block (heading_level block main_font) s)

  -- the body of a page in reading order
  unfoldable pub sorted_body : PageInfo fl.F → List (BlockInfo fl.F)
  unfolding body_of sort_by
  sorted_body page = sort_by (body_lt fl) (body_of fl page)

  -- the loop body over the pages
  unfoldable pub scan_page : PageInfo fl.F → Sections fl.F → Sections fl.F
  unfolding scan_blocks sorted_body dominant_font
  scan_page page s =
      let body = sorted_body page in scan_blocks page.number (dominant_font fl body) body s

  -- `level in ("kitab", "bab", "fasl")`
  abbrev pub is_active : Heading × (Text × ℕ) → Bool
  is_active entry = not (heading_eq entry.0 topic)

  -- the loop over the pages, and `per_page`
  unfoldable pub scan_pages :
      List (PageInfo fl.F) → Sections fl.F → Sections fl.F × List (ℕ × Current)
  unfolding scan_page
  scan_pages [] s = (s, [])
  scan_pages (page ∷ pages) s =
      let here = scan_page page s in
      let rest = scan_pages pages here in
      (rest.0, (page.number, select is_active here.current) ∷ rest.1)

  -- the loop over the sections that are open at the end
  unfoldable pub close_all : ℕ → Current → List (Structure fl.F)
  close_all last_page [] = []
  close_all last_page ((level, section) ∷ current) =
      structure level section.0 section.1 (if leb section.1 last_page then last_page else section.1)
      ∷ close_all last_page current

  -- `pages[-1].number if pages else 0`
  abbrev pub last_number : ℕ → List (PageInfo fl.F) → ℕ
  last_number n [] = n
  last_number n (page ∷ pages) = last_number page.number pages

  -- `_detect_structures`
  unfoldable pub detect_structures :
      List (PageInfo fl.F) → List (Structure fl.F) × List (ℕ × Current)
  unfolding scan_pages close_all
  detect_structures pages =
      let done = scan_pages pages (record { structures = []; current = [] }) in
      (done.0.structures ++ close_all (last_number 0 pages) done.0.current, done.1)
