-- ===== src/Tests/MetadataRuns.antt =====
-- The metadata of the small document, with simple patterns.
use fiqhmind_ai_backend.Prelude.{
  ◌-◌, ◌≡◌, true, false, ◌&&◌, Option, none, some, [], ◌∷◌, All, map, leb, if◌then◌else◌,
}
use fiqhmind_ai_backend.Text.{Text, codes}
use fiqhmind_ai_backend.Extraction.Rows.{list_pages}
use fiqhmind_ai_backend.Metadata.Types.{Patterns, author}
use fiqhmind_ai_backend.Metadata.Fields.{extract_fields, additions}
use fiqhmind_ai_backend.Metadata.Fields.Distinct.{
  Distinct, HasValue, value_in, first_value, extract_fields-Distinct,
}
use fiqhmind_ai_backend.Metadata.Structures.Closing.{IsRange, Separate}
use fiqhmind_ai_backend.Metadata.Document.{document_of}
use fiqhmind_ai_backend.Metadata.Document.Mapping.{pdf_page_of, row_number, document_of-Separate}
use fiqhmind_ai_backend.Tests.ExtractionRuns.{fixed, work}

abbrev no_match : Text → Option Text
no_match text = none

-- a name is the author's from its fifth letter on, and each heading opens a bab
abbrev plain : Patterns
plain = record {
  stem = λ text. text;
  volume_patterns = [];
  edition_patterns = [];
  volume_subs = [];
  edition_subs = [];
  year = no_match;
  year_sub = λ text. text;
  separators = λ text. (4, 7) ∷ [];
  generic_title = λ text. false;
  publisher_arabic = no_match;
  publisher_prefix_sub = λ text. text;
  publisher_latin = no_match;
  author_arabic = no_match;
  author_latin = λ text. some (codes "Malik");
  muhaqqiq_arabic = no_match;
  muhaqqiq_latin = no_match;
  is_kitab = λ text. false;
  is_bab = λ text. true;
  is_fasl = λ text. false;
  ordinal = λ text. none;
  digit = λ c. if leb 48 c && leb c 57 then some (c - 48) else none;
}

abbrev name : Text
name = codes "Umm - al-Shafii"

extract_fields-Distinct_example :
    Distinct (extract_fields fixed plain name [])
    × All HasValue (extract_fields fixed plain name [])
    × (value_in fixed author (extract_fields fixed plain name [])
        ≡ first_value fixed author (additions fixed plain name []))
extract_fields-Distinct_example = extract_fields-Distinct fixed plain name [] author

document_of-Separate_example :
    let document = document_of fixed plain 1 name work in
    (map (pdf_page_of fixed plain) document.pages
      ≡ map (row_number fixed plain) (list_pages 1 work))
    × All IsRange document.structures
    × Separate document.structures
document_of-Separate_example = document_of-Separate fixed plain 1 name work
