-- ===== src/Uploads/Filename.antt =====
-- `sanitize_filename` of app/services/uploads.py. `str.isprintable` of a character is a parameter.
use fiqhmind_ai_backend.Prelude.{
  ℕ, ◌≤◌, ◌≡◌, ap, sym, ◌∙◌, inl, inr, Bool, true, false, not, ◌&&◌, [], ◌∷◌, ◌==◌, leb,
  if◌then◌else◌, Bool-cases, All, arith, length, select, map, take, is_empty, length-take, any,
}
use fiqhmind_ai_backend.Text.{Text, codes, strip, lstrip, rstrip, is_space}
use fiqhmind_ai_backend.Retrieval.Order.{take-All}

-- one character of `replace("\\", "/")`
abbrev pub slash_for_backslash : ℕ → ℕ
slash_for_backslash c = if c == 92 then 47 else c

abbrev pub has_slash : Text → Bool
has_slash t = any (λ c. c == 47) t

-- `rsplit("/", 1)[-1]`: what comes after the last slash
abbrev pub after_last_slash : Text → Text
after_last_slash [] = []
after_last_slash (c ∷ t) =
    let later = after_last_slash t in if has_slash t then later else if c == 47 then t else c ∷ t

abbrev pub or_text : Text → Text → Text
or_text [] default = default
or_text (c ∷ t) default = c ∷ t

-- `sanitize_filename`
unfoldable pub sanitize_filename : (ℕ → Bool) → Text → Text
sanitize_filename is_printable filename =
    let name = after_last_slash (map slash_for_backslash filename) in
    let kept = select (λ c. is_printable c && leb 32 c) name in
    take 255 (strip (or_text (strip kept) (codes "document")))

-- A character of a name that is safe: no separator, printable, no control character.
abbrev pub is_safe : (ℕ → Bool) → ℕ → Bool
is_safe is_printable c = not (c == 47) && not (c == 92) && is_printable c && leb 32 c

abbrev PlainChar : ℕ → Type 0
PlainChar c = (c == 47) ≡ false

no_slash : (t : Text) → has_slash t ≡ false → All PlainChar t
no_slash [] h = tt
no_slash (c ∷ t) h = elim (Bool-cases (c == 47)) [
  | inl slash ↦ absurd (ground (arith, slash, h))
  | inr other ↦ (other, no_slash t (ap (λ b. if b then true else has_slash t) (sym other) ∙ h))
]

after_last_slash-All : (P : ℕ → Type 0) (t : Text) → All P t → All P (after_last_slash t)
after_last_slash-All P [] h = tt
after_last_slash-All P (c ∷ t) h = elim (Bool-cases (has_slash t)) [
  | inl more ↦ rw more (after_last_slash-All P t h.1)
  | inr last ↦ elim (Bool-cases (c == 47)) [
    | inl slash ↦ rw (last, slash) h.1
    | inr other ↦ rw (last, other) h
  ]
]

after_last_slash-PlainChar : (t : Text) → All PlainChar (after_last_slash t)
after_last_slash-PlainChar [] = tt
after_last_slash-PlainChar (c ∷ t) = elim (Bool-cases (has_slash t)) [
  | inl more ↦ rw more (after_last_slash-PlainChar t)
  | inr last ↦ elim (Bool-cases (c == 47)) [
    | inl slash ↦ rw (last, slash) (no_slash t last)
    | inr other ↦ rw (last, other) (other, no_slash t last)
  ]
]

module _ (P : ℕ → Type 0) where
  lstrip-All : (t : Text) → All P t → All P (lstrip t)
  unfolding lstrip
  lstrip-All [] h = tt
  lstrip-All (c ∷ t) h = elim (Bool-cases (is_space c)) [
    | inl space ↦ rw space (lstrip-All t h.1)
    | inr letter ↦ rw letter h
  ]

  rstrip-All : (t : Text) → All P t → All P (rstrip t)
  unfolding rstrip
  rstrip-All [] h = tt
  rstrip-All (c ∷ t) h = elim (Bool-cases (is_space c && is_empty (rstrip t))) [
    | inl gone ↦ rw gone tt
    | inr kept ↦ rw kept (h.0, rstrip-All t h.1)
  ]

  strip-All : (t : Text) → All P t → All P (strip t)
  unfolding strip
  strip-All t h = lstrip-All (rstrip t) (rstrip-All t h)

  or_text-All : (t default : Text) → All P t → All P default → All P (or_text t default)
  or_text-All [] default h k = k
  or_text-All (c ∷ t) default h k = h

no_backslash : (t : Text) → All (λ c. (c == 92) ≡ false) (map slash_for_backslash t)
no_backslash [] = tt
no_backslash (c ∷ t) = (ground arith, no_backslash t)

module _ (is_printable : ℕ → Bool) where
  abbrev pub IsSafe : ℕ → Type 0
  IsSafe c = is_safe is_printable c ≡ true

  select-IsSafe :
      (t : Text)
      → All PlainChar t
      → All (λ c. (c == 92) ≡ false) t
      → All IsSafe (select (λ c. is_printable c && leb 32 c) t)
  select-IsSafe [] h k = tt
  select-IsSafe (c ∷ t) h k = elim (Bool-cases (is_printable c && leb 32 c)) [
    | inl good ↦ rw good (rw (h.0, k.0) good, select-IsSafe t h.1 k.1)
    | inr bad ↦ rw bad (select-IsSafe t h.1 k.1)
  ]

  -- The name of an upload has no separator of a path and no control character, only printable
  -- characters, and is no longer than 255, where the letters of the name that stands in for an
  -- empty one are printable.
  pub sanitize_filename-IsSafe :
      (filename : Text)
      → All IsSafe (codes "document")
      → All IsSafe (sanitize_filename is_printable filename)
        × (length (sanitize_filename is_printable filename) ≤ 255)
  unfolding sanitize_filename
  sanitize_filename-IsSafe filename document =
      let replaced = map slash_for_backslash filename in
      let name = after_last_slash replaced in
      let kept = select (λ c. is_printable c && leb 32 c) name in
      let whole = strip (or_text (strip kept) (codes "document")) in
      (
        take-All IsSafe 255 whole (
            strip-All IsSafe (or_text (strip kept) (codes "document")) (
              or_text-All IsSafe (strip kept) (codes "document")
                (strip-All IsSafe kept (
                  select-IsSafe name (after_last_slash-PlainChar replaced) (
                    after_last_slash-All (λ c. (c == 92) ≡ false) replaced
                      (no_backslash filename))))
                document)),
        omega (arith, length-take 255 whole),
      )
