-- ===== src/Chunking/Pack.antt =====
-- `_sentence_pack` and `_tail_sentences` of app/services/chunking.py. The fraction of `overlap` is a
-- float: what the code uses of it is `int(max_tokens * overlap)`, a parameter here.
pub mod Cover
pub mod Overlap
use fiqhmind_ai_backend.Prelude.{
  ℕ, ◌+◌, max, Bool, true, false, not, ◌&&◌, List, [], ◌∷◌, ◌++◌, reverse, ltb, if◌then◌else◌,
  is_empty,
}
use fiqhmind_ai_backend.Chunking.Types.{Sentence, tokens}

-- `sum(_count_tokens(item.text) for item in current)`
abbrev pub total_tokens : List Sentence → ℕ
total_tokens [] = 0
total_tokens (s ∷ rest) = tokens s + total_tokens rest

-- the loop of `_tail_sentences` over `reversed(sentences)`, with `bool(tail)` and `total`
unfoldable pub tail_from : ℕ → Bool → ℕ → List Sentence → List Sentence
tail_from overlap_tokens started total [] = []
tail_from overlap_tokens started total (s ∷ rest) =
    let more = tail_from overlap_tokens true (total + tokens s) rest in
    if started && ltb overlap_tokens (total + tokens s) then [] else s ∷ more

-- `_tail_sentences`
unfoldable pub tail_sentences : List Sentence → ℕ → List Sentence
unfolding tail_from
tail_sentences sentences overlap_tokens =
    reverse (tail_from overlap_tokens false 0 (reverse sentences))

-- `if current: packs.append(current)`
abbrev pub last_pack : List Sentence → List (List Sentence)
last_pack [] = []
last_pack (s ∷ rest) = (s ∷ rest) ∷ []

-- the loop of `_sentence_pack`, with `current` and `current_tokens`
unfoldable pub pack_from : ℕ → ℕ → List Sentence → ℕ → List Sentence → List (List Sentence)
unfolding tail_sentences
pack_from max_tokens overlap_tokens current current_tokens [] = last_pack current
pack_from max_tokens overlap_tokens current current_tokens (s ∷ rest) =
    elim (not (is_empty current) && ltb max_tokens (current_tokens + tokens s)) [
      | true ↦
          let carry = tail_sentences current overlap_tokens in
          current
          ∷ pack_from max_tokens overlap_tokens (carry ++ s ∷ []) (total_tokens carry + tokens s)
              rest
      | false ↦
          pack_from max_tokens overlap_tokens (current ++ s ∷ []) (current_tokens + tokens s) rest
    ]

-- `_sentence_pack`: `scaled` is `int(max_tokens * overlap)`.
unfoldable pub sentence_pack : List Sentence → ℕ → ℕ → List (List Sentence)
unfolding pack_from
sentence_pack sentences max_tokens scaled = pack_from max_tokens (max 1 scaled) [] 0 sentences
