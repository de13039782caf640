-- ===== src/Chunking/Pack/Overlap.antt =====
-- The overlap that `_tail_sentences` carries into the next pack.
use mathlib.Core.List.{reverse-append, reverse-cons, reverse-reverse}
use fiqhmind_ai_backend.Prelude.{
  ℕ, ◌+◌, ◌≤◌, ◌≡◌, refl, ap, ◌∙◌, sym, ◌⊎◌, inl, inr, Bool, true, false, List, [], ◌∷◌, ◌++◌,
  arith, reverse, is_empty, length, length-append,
}
use fiqhmind_ai_backend.Chunking.Types.{Sentence, tokens}
use fiqhmind_ai_backend.Chunking.Pack.{total_tokens, tail_from, tail_sentences}
use fiqhmind_ai_backend.Chunking.Pack.Cover.{total_tokens-append}

-- what the loop leaves out
left_out : ℕ → Bool → ℕ → List Sentence → List Sentence
left_out overlap started total [] = []
left_out overlap started total (s ∷ rest) =
    let more = left_out overlap true (total + tokens s) rest in
    elim (tail_from overlap started total (s ∷ rest)) [ [] ↦ s ∷ rest | _ ∷ _ ↦ more ]

tail_from-append :
    (overlap : ℕ) (started : Bool) (total : ℕ) (xs : List Sentence)
    → xs ≡ tail_from overlap started total xs ++ left_out overlap started total xs
unfolding tail_from left_out
tail_from-append overlap started total [] = refl
tail_from-append overlap started total (s ∷ rest) =
    ground (arith, tail_from-append overlap true (total + tokens s) rest)

tail_from-total :
    (overlap total : ℕ) (xs : List Sentence)
    → (tail_from overlap true total xs ≡ [])
      ⊎ (total + total_tokens (tail_from overlap true total xs) ≤ overlap)
unfolding tail_from
tail_from-total overlap total [] = inl refl
tail_from-total overlap total (s ∷ rest) =
    ground (arith, tail_from-total overlap (total + tokens s) rest)

tail_from-bounded :
    (overlap : ℕ) (xs : List Sentence)
    → (total_tokens (tail_from overlap false 0 xs) ≤ overlap)
      ⊎ (length (tail_from overlap false 0 xs) ≤ 1)
unfolding tail_from
tail_from-bounded overlap [] = omega arith
tail_from-bounded overlap (s ∷ rest) = elim (tail_from-total overlap (0 + tokens s) rest) [
  | inl nothing ↦ inr (rw nothing (omega arith))
  | inr within ↦ inl (omega arith)
]

is_empty-tail_from :
    (overlap : ℕ) (xs : List Sentence) → is_empty (tail_from overlap false 0 xs) ≡ is_empty xs
unfolding tail_from
is_empty-tail_from overlap [] = refl
is_empty-tail_from overlap (s ∷ rest) = refl

is_empty-snoc : (xs : List Sentence) (s : Sentence) → is_empty (xs ++ s ∷ []) ≡ false
is_empty-snoc [] s = refl
is_empty-snoc (x ∷ xs) s = refl

is_empty-reverse : (xs : List Sentence) → is_empty (reverse xs) ≡ is_empty xs
is_empty-reverse [] = refl
is_empty-reverse (s ∷ xs) = ap is_empty (reverse-cons s xs) ∙ is_empty-snoc (reverse xs) s

length-reverse : (xs : List Sentence) → length (reverse xs) ≡ length xs
length-reverse [] = refl
length-reverse (s ∷ xs) =
    ap length (reverse-cons s xs)
    ∙ omega (arith, length-append (reverse xs) (s ∷ []), length-reverse xs)

total_tokens-reverse : (xs : List Sentence) → total_tokens (reverse xs) ≡ total_tokens xs
total_tokens-reverse [] = refl
total_tokens-reverse (s ∷ xs) =
    ap total_tokens (reverse-cons s xs)
    ∙ omega (arith, total_tokens-append (reverse xs) (s ∷ []), total_tokens-reverse xs)

-- The end of a pack that is carried on: empty only if the pack is, and with at most the
-- overlap's tokens, or of one sentence.
pub record IsTail (sentences tail : List Sentence) (overlap_tokens : ℕ) : Type 0 where
  pub dropped : List Sentence
  pub at_end : sentences ≡ dropped ++ tail
  pub inhabited : is_empty tail ≡ is_empty sentences
  pub bounded : (total_tokens tail ≤ overlap_tokens) ⊎ (length tail ≤ 1)

-- The carry is the end of the pack, is empty only if the pack is, and has at most the overlap's
-- tokens or is one sentence.
pub tail_sentences-IsTail :
    (sentences : List Sentence) (overlap_tokens : ℕ)
    → IsTail sentences (tail_sentences sentences overlap_tokens) overlap_tokens
unfolding tail_sentences
tail_sentences-IsTail sentences overlap_tokens =
    let last_first = reverse sentences in
    let tail = tail_from overlap_tokens false 0 last_first in
    let before = left_out overlap_tokens false 0 last_first in
    record {
      dropped = reverse before;
      at_end =
          sym (reverse-reverse sentences)
          ∙ ap reverse (tail_from-append overlap_tokens false 0 last_first)
          ∙ reverse-append tail before;
      inhabited =
          is_empty-reverse tail
          ∙ is_empty-tail_from overlap_tokens last_first
          ∙ is_empty-reverse sentences;
      bounded =
          rw (total_tokens-reverse tail, length-reverse tail)
            (tail_from-bounded overlap_tokens last_first);
    }
