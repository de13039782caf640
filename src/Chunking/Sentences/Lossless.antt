-- ===== src/Chunking/Sentences/Lossless.antt =====
-- Splitting a text into sentences loses no character but spaces, and gives clean pieces.
use mathlib.Core.List.{append_assoc}
use fiqhmind_ai_backend.Prelude.{
  ◌≡◌, refl, ap, ◌∙◌, inl, inr, false, not, List, [], ◌∷◌, ◌++◌, map, arith, Bool-cases, is_empty,
  select, concat, All,
}
use fiqhmind_ai_backend.Text.{Text, strip}
use fiqhmind_ai_backend.Text.Laws.{
  squeeze, squeeze-append, squeeze-strip, IsStripped, strip-IsStripped,
}
use fiqhmind_ai_backend.Chunking.Sentences.{
  cut_after_runs, stripped_pieces, split_stripped, split_sentences,
}

concat-cut_after_runs : (piece text : Text) → concat (cut_after_runs piece text) ≡ piece ++ text
unfolding cut_after_runs
concat-cut_after_runs piece [] = refl
concat-cut_after_runs piece (c ∷ rest) = ground (
  arith,
  concat-cut_after_runs [] rest,
  concat-cut_after_runs (piece ++ c ∷ []) rest,
  append_assoc piece (c ∷ []) rest,
)

squeeze-select :
    (p : Text) (ps : List Text)
    → squeeze (concat (select (λ q. not (is_empty q)) (p ∷ ps)))
      ≡ squeeze p ++ squeeze (concat (select (λ q. not (is_empty q)) ps))
squeeze-select [] ps = unfold squeeze in refl
squeeze-select (c ∷ p) ps = squeeze-append (c ∷ p) (concat (select (λ q. not (is_empty q)) ps))

squeeze-stripped_pieces :
    (ps : List Text) → squeeze (concat (stripped_pieces ps)) ≡ squeeze (concat ps)
squeeze-stripped_pieces [] = refl
squeeze-stripped_pieces (p ∷ ps) = rw (
  squeeze-select (strip p) (map strip ps),
  squeeze-append p (concat ps),
  squeeze-strip p,
  squeeze-stripped_pieces ps,
)

squeeze-split_stripped : (t : Text) → squeeze (concat (split_stripped t)) ≡ squeeze t
unfolding split_stripped
squeeze-split_stripped [] = refl
squeeze-split_stripped (c ∷ rest) =
    squeeze-stripped_pieces (cut_after_runs [] (c ∷ rest))
    ∙ ap squeeze (concat-cut_after_runs [] (c ∷ rest))

-- The sentences of a text, put together again, are the text but for its spaces: no character of
-- the page is lost, repeated or moved by the split.
pub squeeze-split_sentences : (text : Text) → squeeze (concat (split_sentences text)) ≡ squeeze text
unfolding split_sentences
squeeze-split_sentences text = squeeze-split_stripped (strip text) ∙ squeeze-strip text

-- A sentence: clean of outer spaces, and not empty.
pub record IsPiece (p : Text) : Type 0 where
  pub stripped : IsStripped p
  pub inhabited : is_empty p ≡ false

stripped_pieces-IsPiece : (ps : List Text) → All IsPiece (stripped_pieces ps)
stripped_pieces-IsPiece [] = tt
stripped_pieces-IsPiece (p ∷ ps) = elim (Bool-cases (is_empty (strip p))) [
  | inl nothing ↦ rw nothing (stripped_pieces-IsPiece ps)
  | inr piece ↦
      rw piece
        (record { stripped = strip-IsStripped p; inhabited = piece }, stripped_pieces-IsPiece ps)
]

split_stripped-IsPiece : (t : Text) → All IsPiece (split_stripped t)
unfolding cut_after_runs
split_stripped-IsPiece [] = tt
split_stripped-IsPiece (c ∷ rest) = stripped_pieces-IsPiece (cut_after_runs [] (c ∷ rest))

-- Every sentence is stripped and not empty.
pub split_sentences-IsPiece : (text : Text) → All IsPiece (split_sentences text)
unfolding split_sentences
split_sentences-IsPiece text = split_stripped-IsPiece (strip text)
