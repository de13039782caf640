-- ===== src/Chunking/Engine/Numbering.antt =====
-- The chunks of `extract_chunks` are numbered in order, and their texts are well formed.
use mathlib.Core.List.{append-nil}
use fiqhmind_ai_backend.Prelude.{
  ℕ, ◌+◌, max, ◌≡◌, refl, ap, ◌∙◌, List, [], ◌∷◌, arith, length, ◌++◌, ◌==◌, flat_map, inl, inr,
  Bool-cases, length-append,
}
use fiqhmind_ai_backend.Text.{Text, words, join, count_words}
use fiqhmind_ai_backend.Text.Laws.{
  words-IsWord, words-join, words-append_space, space_blank, space_newline,
}
use fiqhmind_ai_backend.Chunking.Types.{BodyUnit, Sentence, tokens}
use fiqhmind_ai_backend.Chunking.Pack.{total_tokens}
use fiqhmind_ai_backend.Chunking.Context.{Context}
use fiqhmind_ai_backend.Chunking.Engine.{
  ChunkResult, Fraction, build_chunks, normalize_text, document_packs, proper_overlap,
  extract_chunks, join_after, join_body,
}

-- `n`, `n + 1`, … for as many chunks as there are
abbrev pub CountsFrom : ℕ → List ChunkResult → Type 0
CountsFrom n [] = Unit
CountsFrom n (chunk ∷ chunks) = (chunk.order_index ≡ n) × CountsFrom (n + 1) chunks

-- the words of the sentences, one after another
abbrev sentence_words : List Sentence → List Text
sentence_words ss = flat_map (λ s. words s.text) ss

build_chunks-CountsFrom :
    (sha256 : Text → Text) (order : ℕ) (packs : List (List Sentence × Context))
    → CountsFrom order (build_chunks sha256 order packs)
unfolding build_chunks
build_chunks-CountsFrom sha256 order [] = tt
build_chunks-CountsFrom sha256 order (([], context) ∷ packs) =
    build_chunks-CountsFrom sha256 order packs
build_chunks-CountsFrom sha256 order ((first ∷ rest, context) ∷ packs) =
    (refl, build_chunks-CountsFrom sha256 (order + 1) packs)

-- `order_index` counts the chunks from 0, with no gap.
pub extract_chunks-CountsFrom :
    (sha256 : Text → Text) (default_overlap : Fraction) (units : List BodyUnit) (max_tokens : ℕ)
    (overlap : Fraction)
    → CountsFrom 0 (extract_chunks sha256 default_overlap units max_tokens overlap)
unfolding extract_chunks
extract_chunks-CountsFrom sha256 default_overlap [] max_tokens overlap = tt
extract_chunks-CountsFrom sha256 default_overlap (first ∷ rest) max_tokens overlap =
    build_chunks-CountsFrom sha256 0
      (document_packs first rest (max max_tokens 1) (proper_overlap default_overlap overlap))

-- Normalising keeps the words of a text, so it keeps the token count, and doing it again changes
-- nothing.
pub normalize_text_keeps :
    (text : Text)
    → (words (normalize_text text) ≡ words text)
      × (count_words (normalize_text text) ≡ count_words text)
      × (normalize_text (normalize_text text) ≡ normalize_text text)
unfolding normalize_text count_words
normalize_text_keeps text =
    let same : words (join (32 ∷ []) (words text)) ≡ words text =
      words-join (words text) (words-IsWord text) in
    (same, ap length same, ap (join (32 ∷ [])) same)

-- The body of a chunk has the words of its sentences: its token count is the sum that the packing
-- kept to the limit.
words-join_after :
    (key : ℕ) (rest : List Sentence) (t : Text)
    → words (t ++ join_after key rest) ≡ words t ++ sentence_words rest
unfolding join_after
words-join_after key [] t = rw (append-nil t, append-nil (words t))
words-join_after key (s ∷ rest) t = elim (Bool-cases (s.unit_key == key)) [
  | inl same ↦ rw same (
      words-append_space 32 t (s.text ++ join_after s.unit_key rest) space_blank
      ∙ ap (◌++◌ (words t)) (words-join_after s.unit_key rest s.text))
  | inr other ↦ rw other (
      words-append_space 10 t (s.text ++ join_after s.unit_key rest) space_newline
      ∙ ap (◌++◌ (words t)) (words-join_after s.unit_key rest s.text))
]

length-sentence_words : (ss : List Sentence) → length (sentence_words ss) ≡ total_tokens ss
unfolding tokens count_words
length-sentence_words [] = refl
length-sentence_words (s ∷ ss) =
    omega (arith, length-append (words s.text) (sentence_words ss), length-sentence_words ss)

-- The body of a chunk has as many tokens as its sentences together.
pub count_words-join_body :
    (first : Sentence) (rest : List Sentence)
    → count_words (join_body first rest) ≡ total_tokens (first ∷ rest)
unfolding join_body count_words
count_words-join_body first rest =
    ap length (words-join_after first.unit_key rest first.text)
    ∙ length-sentence_words (first ∷ rest)
