-- ===== src/Retrieval/Compress/Normal.antt =====
-- The matching copy of a text: `normalize_arabic` of app/services/query_preprocessing.py.
use fiqhmind_ai_backend.Prelude.{
  ℕ, ◌≡◌, refl, ap, ◌∙◌, inl, inr, false, [], ◌∷◌, map, arith, Bool-cases, All,
}
use fiqhmind_ai_backend.Text.{Text}
use fiqhmind_ai_backend.Retrieval.Compress.{
  fold_char, is_combining, strip_diacritics, normalize_arabic,
}

-- a character that no substitution changes and that is no combining mark
abbrev pub IsCanonical : ℕ → Type 0
IsCanonical c = (fold_char c ≡ c) × (is_combining c ≡ false)

fold_char-fold_char : (c : ℕ) → fold_char (fold_char c) ≡ fold_char c
fold_char-fold_char c = ground arith

strip_diacritics-All : (t : Text) → All IsCanonical (strip_diacritics (map fold_char t))
strip_diacritics-All [] = tt
strip_diacritics-All (c ∷ t) = elim (Bool-cases (is_combining (fold_char c))) [
  | inl mark ↦ rw mark (strip_diacritics-All t)
  | inr letter ↦ rw letter ((fold_char-fold_char c, letter), strip_diacritics-All t)
]

canonical_same : (t : Text) → All IsCanonical t → strip_diacritics (map fold_char t) ≡ t
canonical_same [] h = refl
canonical_same (c ∷ t) h = ground (arith, canonical_same t)

-- In a normalized text no character is one that the substitutions change, and none is a combining
-- mark.
pub normalize_arabic-All : (nfc : Text → Text) (t : Text) → All IsCanonical (normalize_arabic nfc t)
normalize_arabic-All nfc t = strip_diacritics-All (nfc t)

-- Where a normalized text is in the form NFC, normalizing it again changes nothing.
pub normalize_arabic_idem :
    (nfc : Text → Text) (t : Text)
    → nfc (normalize_arabic nfc t) ≡ normalize_arabic nfc t
    → normalize_arabic nfc (normalize_arabic nfc t) ≡ normalize_arabic nfc t
normalize_arabic_idem nfc t same =
    ap (λ s. strip_diacritics (map fold_char s)) same
    ∙ canonical_same (normalize_arabic nfc t) (normalize_arabic-All nfc t)
