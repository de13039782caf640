-- ===== src/Metadata/Document.antt =====
-- `extract_metadata` and the run of `MetadataRunner` over the pages of a job.
pub mod Mapping
use fiqhmind_ai_backend.Prelude.{
  ℕ, zero, suc, ◌+◌, Bool, true, false, not, Option, none, some, List, [], ◌∷◌, ◌++◌, map,
  if◌then◌else◌, length, select, is_empty, ◌==◌,
}
use fiqhmind_ai_backend.Text.{Text}
use fiqhmind_ai_backend.Jobs.Types.{Status, UploadStatus, Kind, Job, UploadRow}
use fiqhmind_ai_backend.Extraction.Types.{Floating, PageInfo}
use fiqhmind_ai_backend.Extraction.Rows.{PageExtraction, PageBlock, Held, Work, commit, list_pages}
use fiqhmind_ai_backend.Layout.Runner.{list_blocks, block_info}
use fiqhmind_ai_backend.Metadata.Types.{
  NumberSystem, kitab, bab, fasl, Heading, MetadataField, PageNumber, Structure, DocumentMetadata,
  Patterns,
}
use fiqhmind_ai_backend.Metadata.Fields.{extract_fields}
use fiqhmind_ai_backend.Metadata.Footer.{detect_page_numbers, aggregate_numbering}
use fiqhmind_ai_backend.Metadata.Structures.{Current, get_level, detect_structures}

abbrev pub name_of_section : Option (Text × ℕ) → Option Text
name_of_section none = none
name_of_section (some section) = some section.0

-- `per_page.get(number, {})`: the last entry of a number
abbrev pub active_on : ℕ → Current → List (ℕ × Current) → Current
active_on number found [] = found
active_on number found ((n, current) ∷ per_page) =
    active_on number (if n == number then current else found) per_page

module _ (fl : Floating) (re : Patterns) where
  -- the loop body that names the sections of a page
  unfoldable pub with_sections : List (ℕ × Current) → PageNumber fl.F → PageNumber fl.F
  with_sections per_page page =
      let active = active_on page.pdf_page [] per_page in
      record page {
        in_kitab = name_of_section (get_level kitab active);
        in_bab = name_of_section (get_level bab active);
        in_fasl = name_of_section (get_level fasl active);
      }

  abbrev pub confidence_of : MetadataField fl.F → fl.F
  confidence_of item = item.confidence

  abbrev pub page_confidence_of : PageNumber fl.F → fl.F
  page_confidence_of page = page.confidence

  abbrev pub is_certain : PageNumber fl.F → Bool
  is_certain page = not page.page_number_uncertain

  abbrev pub sum_f : fl.F → List fl.F → fl.F
  sum_f total [] = total
  sum_f total (x ∷ xs) = sum_f (fl.add total x) xs

  -- `overall`
  abbrev pub overall : List fl.F → fl.F
  overall confidences =
      if is_empty confidences
      then fl.ratio 0 1
      else fl.round_ten_thousandth
          (fl.div (sum_f (fl.ratio 0 1) confidences) (fl.ratio (length confidences) 1))

  -- `extract_metadata`
  unfoldable pub extract_metadata : Text → List (PageInfo fl.F) → DocumentMetadata fl.F
  unfolding extract_fields detect_page_numbers detect_structures with_sections aggregate_numbering
  extract_metadata name pages =
      let fields = extract_fields fl re name pages in
      let found = detect_structures fl re pages in
      let numbers = map (with_sections found.1) (detect_page_numbers fl re pages) in
      record {
        page_count = length pages;
        fields = fields;
        pages = numbers;
        structures = found.0;
        numbering_system = aggregate_numbering fl re numbers;
        confidence =
            overall
              (map confidence_of fields ++ map page_confidence_of (select is_certain numbers));
      }

  -- `_load_page` of the runner
  unfoldable pub load_metadata_page : PageExtraction fl.F → PageInfo fl.F
  unfolding list_blocks
  load_metadata_page row = record {
    number = row.page_number;
    width = row.width;
    height = row.height;
    rotation = row.rotation;
    blocks = map block_info (list_blocks row);
    images = [];
    drawings = [];
    stored_char_count = none;
  }

  -- the document that `run` saves, from the rows of the extraction job
  unfoldable pub document_of : ℕ → Text → Work fl.F → DocumentMetadata fl.F
  unfolding extract_metadata load_metadata_page list_pages
  document_of job_id name w = extract_metadata name (map load_metadata_page (list_pages job_id w))
