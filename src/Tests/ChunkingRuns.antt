-- ===== src/Tests/ChunkingRuns.antt =====
-- A document of two chapters on three pages, cut into chunks.
use fiqhmind_ai_backend.Prelude.{
  ℕ, ◌≡◌, refl, Bool, true, false, none, some, List, [], ◌∷◌, concat, flat_map, select, All, take,
  max,
}
use fiqhmind_ai_backend.Text.{Text, strip, codes}
use fiqhmind_ai_backend.Text.Laws.{squeeze}
use fiqhmind_ai_backend.Chunking.Types.{Level, bab, BodyUnit, Sentence, tokens}
use fiqhmind_ai_backend.Chunking.Sentences.{split_sentences}
use fiqhmind_ai_backend.Chunking.Sentences.Lossless.{squeeze-split_sentences}
use fiqhmind_ai_backend.Chunking.Pack.{tail_sentences, sentence_pack}
use fiqhmind_ai_backend.Chunking.Pack.Cover.{Covers, sentence_pack-Covers}
use fiqhmind_ai_backend.Chunking.Pack.Overlap.{IsTail, tail_sentences-IsTail}
use fiqhmind_ai_backend.Chunking.Ranges.Tiling.{Avoids}
use fiqhmind_ai_backend.Chunking.Boundaries.{is_body, primary_level, body_units}
use fiqhmind_ai_backend.Chunking.Context.{name_of, context_at}
use fiqhmind_ai_backend.Chunking.Context.Latest.{latest, name_of-context_at}
use fiqhmind_ai_backend.Chunking.Engine.{
  ChunkResult, Fraction, build_chunk, section_ranges, pieces, extract_chunks,
}
use fiqhmind_ai_backend.Chunking.Engine.Coverage.{body_units-pieces, section_ranges-heading}
use fiqhmind_ai_backend.Chunking.Engine.Identity.{chunk_id-injective}

abbrev heading : Level → Text → ℕ → BodyUnit
heading level text page = record {
  text = text;
  level = some level;
  pdf_page = page;
  printed_page = some page;
  ends_sentence = true;
}

abbrev body : Text → ℕ → Bool → BodyUnit
body text page ends = record {
  text = text;
  level = none;
  pdf_page = page;
  printed_page = some page;
  ends_sentence = ends;
}

abbrev first_unit : BodyUnit
first_unit = heading bab (codes "On water") 1

abbrev break_before : BodyUnit
break_before = body (codes "Water is pure. It cleans.") 1 true

abbrev break_after : BodyUnit
break_after = body (codes "Snow is water too.") 2 false

abbrev second_chapter : BodyUnit
second_chapter = heading bab (codes "On prayer") 3

abbrev more_units : List BodyUnit
more_units =
    break_before
    ∷ break_after
    ∷ body (codes "It melts.") 3 true
    ∷ second_chapter
    ∷ body (codes "Prayer has times. They are five.") 3 true
    ∷ []

abbrev document : List BodyUnit
document = first_unit ∷ more_units

abbrev sentence : Text → ℕ → Sentence
sentence text key = record { text = text; pdf_page = 1; printed_page = some 1; unit_key = key }

abbrev first_sentence : Sentence
first_sentence = sentence (codes "Water is pure.") 0

abbrev more_sentences : List Sentence
more_sentences = sentence (codes "It cleans.") 0 ∷ sentence (codes "Snow is water too.") 1 ∷ []

abbrev sentences : List Sentence
sentences = first_sentence ∷ more_sentences

abbrev fifth : Fraction
fifth = record { is_proper = true; floor_times = λ n. n }

squeeze-split_sentences_example :
    squeeze (concat (split_sentences (codes " Water is pure! It cleans. ")))
    ≡ squeeze (codes " Water is pure! It cleans. ")
squeeze-split_sentences_example = squeeze-split_sentences (codes " Water is pure! It cleans. ")

sentence_pack-Covers_example : Covers 5 (max 1 1) [] sentences (sentence_pack sentences 5 1)
sentence_pack-Covers_example = sentence_pack-Covers sentences 5 1

tail_sentences-IsTail_example : IsTail sentences (tail_sentences sentences 2) 2
tail_sentences-IsTail_example = tail_sentences-IsTail sentences 2

name_of-context_at_example : name_of bab (context_at document 2) ≡ latest bab (take 3 document)
name_of-context_at_example = name_of-context_at bab document 2

body_units-pieces_example :
    flat_map (body_units document) (pieces first_unit more_units 8) ≡ select is_body document
body_units-pieces_example = body_units-pieces first_unit more_units 8

section_ranges-heading_example : All (Avoids 4) (section_ranges first_unit more_units)
unfolding primary_level
section_ranges-heading_example =
    section_ranges-heading first_unit more_units 4 second_chapter refl refl

abbrev same_text : Text → Text
same_text t = t

abbrev chunks : List ChunkResult
unfolding extract_chunks
chunks = extract_chunks same_text fifth document 8 fifth

-- the first chunk of the document
abbrev first_chunk : ChunkResult
unfolding extract_chunks build_chunk
first_chunk = elim chunks [
  | [] ↦ build_chunk same_text first_sentence more_sentences (context_at document 0) 0
  | c ∷ _ ↦ c
]

chunk_id-injective_example : let index : ℕ = 0 in index ≡ index
unfolding extract_chunks strip tokens
chunk_id-injective_example =
    chunk_id-injective same_text (λ s t same. same) fifth document 8 fifth 0 0 first_chunk
      first_chunk refl refl refl
