-- ===== src/Chunking/Sentences.antt =====
-- `_split_sentences` and `_flatten_sentences` of app/services/chunking.py.
pub mod Lossless
use fiqhmind_ai_backend.Prelude.{
  ℕ, ◌+◌, Bool, true, false, not, ◌&&◌, ◌||◌, List, [], ◌∷◌, ◌++◌, map, ◌==◌, is_empty, select,
}
use fiqhmind_ai_backend.Text.{Text, strip}
use fiqhmind_ai_backend.Chunking.Types.{BodyUnit, Sentence}

-- A character of `_SENTENCE_FINAL_RE`: the full stop, the Arabic question mark, the exclamation
-- mark and the Arabic semicolon.
unfoldable pub is_final : ℕ → Bool
is_final c = c == 46 || c == 0x61F || c == 33 || c == 0x61B

-- The next character belongs to the run of punctuation too.
abbrev pub starts_final : Text → Bool
starts_final [] = false
starts_final (c ∷ _) = is_final c

-- `text[start:end]` for each match of the expression, which are the longest runs of such characters, and then the tail. The first
-- argument is the text from `start` up to the scan's position.
unfoldable pub cut_after_runs : Text → Text → List Text
unfolding is_final
cut_after_runs piece [] = piece ∷ []
cut_after_runs piece (c ∷ rest) = elim (is_final c && not (starts_final rest)) [
  | true ↦ (piece ++ c ∷ []) ∷ cut_after_runs [] rest
  | false ↦ cut_after_runs (piece ++ c ∷ []) rest
]

-- The pieces are stripped, and those that are empty then are left out.
abbrev pub stripped_pieces : List Text → List Text
stripped_pieces pieces = select (λ p. not (is_empty p)) (map strip pieces)

-- the body of `_split_sentences` after `text = text.strip()`
abbrev pub split_stripped : Text → List Text
unfolding cut_after_runs
split_stripped [] = []
split_stripped (c ∷ rest) = stripped_pieces (cut_after_runs [] (c ∷ rest))

-- `_split_sentences`
unfoldable pub split_sentences : Text → List Text
unfolding cut_after_runs
split_sentences text = split_stripped (strip text)

-- The sentences of one unit, with the unit's pages and its position.
unfoldable pub unit_sentences : ℕ → BodyUnit → List Sentence
unfolding split_sentences
unit_sentences key unit =
    map
      (λ piece. record {
        text = piece;
        pdf_page = unit.pdf_page;
        printed_page = unit.printed_page;
        unit_key = key;
      })
      (split_sentences unit.text)

-- the loop of `_flatten_sentences` from the unit at position `key`
unfoldable pub flatten_from : ℕ → List BodyUnit → List Sentence
unfolding unit_sentences
flatten_from key [] = []
flatten_from key (unit ∷ units) = unit_sentences key unit ++ flatten_from (key + 1) units

-- `_flatten_sentences`
unfoldable pub flatten_sentences : List BodyUnit → List Sentence
unfolding flatten_from
flatten_sentences units = flatten_from 0 units
