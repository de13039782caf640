-- ===== src/Text/Laws.antt =====
-- What `strip`, `split` and `join` keep of a text: all that is not a space.
use mathlib.Core.List.{append-nil}
use fiqhmind_ai_backend.Prelude.{
  ℕ, ◌≡◌, refl, ap, ◌∙◌, inl, inr, Bool, true, false, List, [], ◌∷◌, ◌++◌, arith, if◌then◌else◌,
  Bool-cases, is_empty, All,
}
use fiqhmind_ai_backend.Text.{
  Text, is_space, lstrip, rstrip, strip, cons_word, in_word, words, join,
}

-- The text without its spaces.
unfoldable pub squeeze : Text → Text
squeeze [] = []
squeeze (c ∷ t) = let rest = squeeze t in if is_space c then rest else c ∷ rest

pub squeeze-append : (s t : Text) → squeeze (s ++ t) ≡ squeeze s ++ squeeze t
unfolding squeeze
squeeze-append [] t = refl
squeeze-append (c ∷ s) t = ground (arith, squeeze-append s t)

squeeze-lstrip : (t : Text) → squeeze (lstrip t) ≡ squeeze t
unfolding squeeze lstrip
squeeze-lstrip [] = refl
squeeze-lstrip (c ∷ t) = ground (arith, squeeze-lstrip t)

squeeze-rstrip : (t : Text) → squeeze (rstrip t) ≡ squeeze t
unfolding squeeze rstrip
squeeze-rstrip [] = refl
squeeze-rstrip (c ∷ t) = ground (arith, squeeze-rstrip t)

pub squeeze-strip : (t : Text) → squeeze (strip t) ≡ squeeze t
unfolding strip
squeeze-strip t = squeeze-lstrip (rstrip t) ∙ squeeze-rstrip t

-- A word: not empty, and with no space in it.
abbrev pub NoSpace : Text → Type 0
NoSpace = All (λ c. is_space c ≡ false)

abbrev pub IsWord : Text → Type 0
IsWord w = (is_empty w ≡ false) × NoSpace w

cons_word-IsWord :
    (b : Bool) (c : ℕ) (ws : List Text)
    → is_space c ≡ false
    → All IsWord ws
    → All IsWord (cons_word b c ws)
unfolding cons_word
cons_word-IsWord true c [] p h = ((refl, (p, tt)), tt)
cons_word-IsWord true c (w ∷ ws) p h = ((refl, (p, h.0.1)), h.1)
cons_word-IsWord false c ws p h = ((refl, (p, tt)), h)

pub words-IsWord : (t : Text) → All IsWord (words t)
unfolding words
words-IsWord [] = tt
words-IsWord (c ∷ t) = elim (Bool-cases (is_space c)) [
  | inl space ↦ rw space (words-IsWord t)
  | inr other ↦ rw other (cons_word-IsWord (in_word t) c (words t) other (words-IsWord t))
]

words_of_char :
    (c : ℕ) (t : Text) → is_space c ≡ false → words (c ∷ t) ≡ cons_word (in_word t) c (words t)
unfolding words
words_of_char c t h = rw h

-- A word in front of a text that does not go on with the word is the first of its words.
words-append : (w t : Text) → IsWord w → in_word t ≡ false → words (w ++ t) ≡ w ∷ words t
words-append [] t h b = absurd (ground arith)
words-append (c ∷ []) t h b = rw (words_of_char c t h.1.0, b) (unfold cons_word in refl)
words-append (c ∷ d ∷ w) t h b =
    rw (words_of_char c (d ∷ w ++ t) h.1.0, words-append (d ∷ w) t (refl, h.1.1) b)
      (unfold cons_word in_word in rw h.1.1.0)

words-nil : words [] ≡ []
unfolding words
words-nil = refl

words-blank : (t : Text) → words (32 ∷ t) ≡ words t
unfolding words is_space
words-blank t = refl

in_word-nil : in_word [] ≡ false
unfolding in_word
in_word-nil = refl

in_word-blank : (t : Text) → in_word (32 ∷ t) ≡ false
unfolding in_word is_space
in_word-blank t = refl

-- Words joined by single spaces are split into the same words.
pub words-join : (ws : List Text) → All IsWord ws → words (join (32 ∷ []) ws) ≡ ws
unfolding join
words-join [] h = words-nil
words-join (w ∷ []) h = rw append-nil at (words-append w [] h.0 in_word-nil ∙ ap (◌∷◌ w) words-nil)
words-join (w ∷ v ∷ ws) h =
    words-append w (32 ∷ join (32 ∷ []) (v ∷ ws)) h.0 (in_word-blank _)
    ∙ ap (◌∷◌ w) (words-blank _ ∙ words-join (v ∷ ws) h.1)

-- The text begins and ends with no space.
pub record IsStripped (t : Text) : Type 0 where
  pub left : lstrip t ≡ t
  pub right : rstrip t ≡ t

lstrip_idem : (t : Text) → lstrip (lstrip t) ≡ lstrip t
unfolding lstrip
lstrip_idem [] = refl
lstrip_idem (c ∷ t) = elim (Bool-cases (is_space c)) [
  | inl space ↦ rw space (lstrip_idem t)
  | inr other ↦ rw other (rw other)
]

rstrip_idem : (t : Text) → rstrip (rstrip t) ≡ rstrip t
unfolding rstrip
rstrip_idem [] = refl
rstrip_idem (c ∷ t) = ground (arith, rstrip_idem t)

rstrip-lstrip : (t : Text) → rstrip t ≡ t → rstrip (lstrip t) ≡ lstrip t
unfolding lstrip rstrip
rstrip-lstrip [] h = refl
rstrip-lstrip (c ∷ t) h = ground (arith, rstrip-lstrip t)

pub strip-IsStripped : (t : Text) → IsStripped (strip t)
unfolding strip
strip-IsStripped t = record {
  left = lstrip_idem (rstrip t);
  right = rstrip-lstrip (rstrip t) (rstrip_idem t);
}

pub space_blank : is_space 32 ≡ true
unfolding is_space
space_blank = refl

pub space_newline : is_space 10 ≡ true
unfolding is_space
space_newline = refl

in_word-append_space : (c : ℕ) (s t : Text) → is_space c ≡ true → in_word (s ++ c ∷ t) ≡ in_word s
unfolding in_word
in_word-append_space c [] t h = rw h
in_word-append_space c (d ∷ s) t h = refl

cons_word-cons :
    (b : Bool) (c : ℕ) (ws : List Text)
    → (w : Text) × (rest : List Text) × (cons_word b c ws ≡ w ∷ rest)
unfolding cons_word
cons_word-cons true c [] = (c ∷ [], [], refl)
cons_word-cons true c (w ∷ ws) = (c ∷ w, ws, refl)
cons_word-cons false c ws = (c ∷ [], ws, refl)

words_of_in_word :
    (s : Text) → in_word s ≡ true → (w : Text) × (rest : List Text) × (words s ≡ w ∷ rest)
unfolding in_word words
words_of_in_word [] h = cc
words_of_in_word (c ∷ s) h = elim (Bool-cases (is_space c)) [
  | inl space ↦ absurd (ground arith)
  | inr other ↦ rw other (cons_word-cons (in_word s) c (words s))
]

cons_word-append :
    (d : ℕ) (s : Text) (vs : List Text)
    → cons_word (in_word s) d (words s ++ vs) ≡ cons_word (in_word s) d (words s) ++ vs
unfolding cons_word
cons_word-append d s vs = elim (Bool-cases (in_word s)) [
  | inl inside ↦ let (w, rest, e) = words_of_in_word s inside in rw (inside, e)
  | inr outside ↦ rw outside
]

-- A space splits a text into the words before it and the words after it.
pub words-append_space :
    (c : ℕ) (s t : Text) → is_space c ≡ true → words (s ++ c ∷ t) ≡ words s ++ words t
unfolding words
words-append_space c [] t h = rw h
words-append_space c (d ∷ s) t h = elim (Bool-cases (is_space d)) [
  | inl space ↦ rw space (words-append_space c s t h)
  | inr other ↦
      rw (other, in_word-append_space c s t h, words-append_space c s t h)
        (cons_word-append d s (words t))
]
