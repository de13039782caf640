-- ===== src/Chunking/Pack/Cover.antt =====
-- Packing drops no sentence, repeats only the overlap, and respects the token limit.
use mathlib.Core.List.{append_assoc}
use native.Mathlib.Nat.{zero-add}
use fiqhmind_ai_backend.Prelude.{
  ℕ, ◌+◌, ◌≤◌, max, ◌≡◌, refl, ap, ◌∙◌, sym, ◌⊎◌, inl, inr, true, false, List, [], ◌∷◌, ◌++◌, arith,
  ltb, Bool-cases, is_empty,
}
use fiqhmind_ai_backend.Chunking.Types.{Sentence, tokens}
use fiqhmind_ai_backend.Chunking.Pack.{
  total_tokens, tail_sentences, last_pack, pack_from, sentence_pack,
}

-- The packs, from a carry, cover the sentences: each pack is the carry and then fresh sentences, at
-- least one; it keeps to the limit unless it has one fresh sentence only; and the next carry is
-- its tail.
pub data Covers (max_tokens overlap_tokens : ℕ)
    : List Sentence → List Sentence → List (List Sentence) → Type 0 where
  done : {carry : List Sentence} → Covers max_tokens overlap_tokens carry [] []
  pack :
      {carry sentences current : List Sentence} {packs : List (List Sentence)} (first : Sentence)
      (fresh rest : List Sentence)
      → (total_tokens current ≤ max_tokens) ⊎ (fresh ≡ [])
      → current ≡ carry ++ first ∷ fresh
      → sentences ≡ first ∷ fresh ++ rest
      → Covers max_tokens overlap_tokens (tail_sentences current overlap_tokens) rest packs
      → Covers max_tokens overlap_tokens carry sentences (current ∷ packs)

pub total_tokens-append :
    (xs ys : List Sentence) → total_tokens (xs ++ ys) ≡ total_tokens xs + total_tokens ys
total_tokens-append [] ys = omega arith
total_tokens-append (x ∷ xs) ys = omega (arith, total_tokens-append xs ys)

is_empty-append :
    (carry : List Sentence) (first : Sentence) (fresh : List Sentence)
    → is_empty (carry ++ first ∷ fresh) ≡ false
is_empty-append [] first fresh = refl
is_empty-append (s ∷ carry) first fresh = refl

last_pack-append :
    (carry : List Sentence) (first : Sentence) (fresh : List Sentence)
    → last_pack (carry ++ first ∷ fresh) ≡ (carry ++ first ∷ fresh) ∷ []
last_pack-append [] first fresh = refl
last_pack-append (s ∷ carry) first fresh = refl

module _ (max_tokens overlap_tokens : ℕ) where
  -- what the loop does with one more sentence
  pack_from-flush :
      (current : List Sentence) (n : ℕ) (s : Sentence) (rest : List Sentence)
      → is_empty current ≡ false
      → ltb max_tokens (n + tokens s) ≡ true
      → pack_from max_tokens overlap_tokens current n (s ∷ rest)
        ≡ current
          ∷ pack_from max_tokens overlap_tokens
              (tail_sentences current overlap_tokens ++ s ∷ [])
              (total_tokens (tail_sentences current overlap_tokens) + tokens s)
              rest
  unfolding pack_from
  pack_from-flush current n s rest some_sentence over = ground arith

  pack_from-extend :
      (current : List Sentence) (n : ℕ) (s : Sentence) (rest : List Sentence)
      → is_empty current ≡ false
      → ltb max_tokens (n + tokens s) ≡ false
      → pack_from max_tokens overlap_tokens current n (s ∷ rest)
        ≡ pack_from max_tokens overlap_tokens (current ++ s ∷ []) (n + tokens s) rest
  unfolding pack_from
  pack_from-extend current n s rest some_sentence fits = ground arith

  pack_from-start :
      (s : Sentence) (rest : List Sentence)
      → pack_from max_tokens overlap_tokens [] 0 (s ∷ rest)
        ≡ pack_from max_tokens overlap_tokens (s ∷ []) (tokens s) rest
  unfolding pack_from
  pack_from-start s rest = rw zero-add

  pack_from-end :
      (carry : List Sentence) (first : Sentence) (fresh current : List Sentence) (n : ℕ)
      → current ≡ carry ++ first ∷ fresh
      → pack_from max_tokens overlap_tokens current n [] ≡ current ∷ []
  unfolding pack_from
  pack_from-end carry first fresh current n same =
      ap last_pack same ∙ last_pack-append carry first fresh ∙ ap (λ c. c ∷ []) (sym same)

  -- the pack that the loop is filling, as carry and fresh sentences
  Covers-pack_from :
      (carry : List Sentence) (first : Sentence) (fresh rest current : List Sentence) (n : ℕ)
      → current ≡ carry ++ first ∷ fresh
      → n ≡ total_tokens current
      → (total_tokens current ≤ max_tokens) ⊎ (fresh ≡ [])
      → Covers max_tokens overlap_tokens carry
          (first ∷ fresh ++ rest)
          (pack_from max_tokens overlap_tokens current n rest)
  Covers-pack_from carry first fresh [] current n same count fits =
      rw (pack_from-end carry first fresh current n same)
        (Covers.pack first fresh [] fits same refl Covers.done)
  Covers-pack_from carry first fresh (s ∷ rest) current n same count fits =
      let filled : is_empty current ≡ false =
        ap is_empty same ∙ is_empty-append carry first fresh in
      elim (Bool-cases (ltb max_tokens (n + tokens s))) [
        | inl over ↦ rw (pack_from-flush current n s rest filled over) (
            Covers.pack first fresh (s ∷ rest) fits same refl (
              Covers-pack_from (tail_sentences current overlap_tokens) s [] rest _ _ refl
                (omega
                  (arith, total_tokens-append (tail_sentences current overlap_tokens) (s ∷ [])))
                (inr refl)))
        | inr under ↦ rw (pack_from-extend current n s rest filled under) (
            rw (← append_assoc fresh (s ∷ []) rest) (
              Covers-pack_from carry first (fresh ++ s ∷ []) rest _ _
                (ap (λ c. c ++ s ∷ []) same ∙ append_assoc carry (first ∷ fresh) (s ∷ []))
                (omega (arith, total_tokens-append current (s ∷ [])))
                (inl (ground (arith, total_tokens-append current (s ∷ []))))))
      ]

-- The packs of `_sentence_pack` cover the sentences: each pack is its carry followed by fresh
-- sentences, which are in order and are all of them, none twice; the first carry is empty and each other one
-- is the tail of the pack before; and a pack over the limit has one fresh sentence.
pub sentence_pack-Covers :
    (sentences : List Sentence) (max_tokens scaled : ℕ)
    → Covers max_tokens (max 1 scaled) [] sentences (sentence_pack sentences max_tokens scaled)
unfolding sentence_pack
sentence_pack-Covers [] max_tokens scaled = unfold pack_from in Covers.done
sentence_pack-Covers (s ∷ rest) max_tokens scaled =
    rw (pack_from-start max_tokens (max 1 scaled) s rest) (
      Covers-pack_from max_tokens (max 1 scaled) [] s [] rest (s ∷ []) (tokens s) refl (omega arith)
        (inr refl))
