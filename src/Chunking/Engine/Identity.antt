-- ===== src/Chunking/Engine/Identity.antt =====
-- `chunk_id` names one chunk of a document, as far as the hash function tells texts apart.
use fiqhmind_ai_backend.Prelude.{
  ℕ, zero, suc, ◌+◌, ◌-◌, ◌*◌, ◌/◌, ◌%◌, ◌<◌, max, ◌≡◌, refl, ap, sym, ◌∙◌, ◌&&◌, List, [], ◌∷◌,
  ◌++◌, arith, ltb, leb, if◌then◌else◌, Bool-cases, inl, inr, get_elem?, some, All,
}
use mathlib.Core.List.{append_assoc}
use mathlib.Core.Path.{subst}
use fiqhmind_ai_backend.Text.{Text, codes, decimal, decimal_digits}
use fiqhmind_ai_backend.Chunking.Types.{BodyUnit, Sentence}
use fiqhmind_ai_backend.Chunking.Context.{Context}
use fiqhmind_ai_backend.Chunking.Engine.{
  ChunkResult, Fraction, build_chunks, document_packs, proper_overlap, extract_chunks,
}
use fiqhmind_ai_backend.Chunking.Engine.Numbering.{CountsFrom, extract_chunks-CountsFrom}

-- The number that a text begins with, read behind `acc`.
read_number : ℕ → Text → ℕ
read_number acc [] = acc
read_number acc (c ∷ t) =
    let more = read_number (acc * 10 + (c - 48)) t in if leb 48 c && leb c 57 then more else acc

read_number-digit :
    (acc d : ℕ) (t : Text) → d < 10 → read_number acc ((48 + d) ∷ t) ≡ read_number (acc * 10 + d) t
unfolding read_number
read_number-digit acc d t p = let back : (48 + d) - 48 ≡ d = omega arith in ground (arith, back)

zero_digit : (n : ℕ) → 0 * 10 + n ≡ n
zero_digit n = omega arith

last_digit : (n : ℕ) → n / 10 * 10 + n % 10 ≡ n
last_digit n = omega arith

read_number-decimal_digits :
    (fuel n : ℕ) (t : Text)
    → n < fuel
    → read_number 0 (decimal_digits fuel n ++ t) ≡ read_number n t
unfolding decimal_digits
read_number-decimal_digits zero n t p = absurd (omega arith)
read_number-decimal_digits (suc fuel) n t p = elim (Bool-cases (ltb n 10)) [
  | inl small ↦
      rw small (read_number-digit 0 n t (ground arith) ∙ ap (λ k. read_number k t) (zero_digit n))
  | inr large ↦
      rw (large, append_assoc (decimal_digits fuel (n / 10)) ((48 + n % 10) ∷ []) t)
        (read_number-decimal_digits fuel (n / 10) ((48 + n % 10) ∷ t) (ground arith)
          ∙ read_number-digit (n / 10) (n % 10) t (omega arith)
          ∙ ap (λ k. read_number k t) (last_digit n))
]

-- the text that is hashed
abbrev id_text : ChunkResult → Text
id_text chunk = decimal chunk.order_index ++ (codes ":" ++ chunk.raw_text)

read_number-colon : (n : ℕ) (t : Text) → read_number n (58 ∷ t) ≡ n
unfolding read_number
read_number-colon n t = refl

read_number-id_text : (chunk : ChunkResult) → read_number 0 (id_text chunk) ≡ chunk.order_index
unfolding decimal
read_number-id_text chunk =
    read_number-decimal_digits (suc chunk.order_index) chunk.order_index (58 ∷ chunk.raw_text)
      (omega arith)
    ∙ read_number-colon chunk.order_index chunk.raw_text

module _ (sha256 : Text → Text) where
  abbrev HasHash : ChunkResult → Type 0
  HasHash chunk = chunk.chunk_id ≡ sha256 (id_text chunk)

  build_chunks-HasHash :
      (order : ℕ) (packs : List (List Sentence × Context))
      → All HasHash (build_chunks sha256 order packs)
  unfolding build_chunks
  build_chunks-HasHash order [] = tt
  build_chunks-HasHash order (([], context) ∷ packs) = build_chunks-HasHash order packs
  build_chunks-HasHash order ((first ∷ rest, context) ∷ packs) =
      (refl, build_chunks-HasHash (order + 1) packs)

  extract_chunks-HasHash :
      (default_overlap : Fraction) (units : List BodyUnit) (max_tokens : ℕ) (overlap : Fraction)
      → All HasHash (extract_chunks sha256 default_overlap units max_tokens overlap)
  unfolding extract_chunks
  extract_chunks-HasHash default_overlap [] max_tokens overlap = tt
  extract_chunks-HasHash default_overlap (first ∷ rest) max_tokens overlap =
      build_chunks-HasHash 0
        (document_packs first rest (max max_tokens 1) (proper_overlap default_overlap overlap))

  All-get_elem? :
      (chunks : List ChunkResult) (i : ℕ) {chunk : ChunkResult}
      → All HasHash chunks
      → get_elem? chunks i ≡ some chunk
      → HasHash chunk
  All-get_elem? [] i h e = cc
  All-get_elem? (c ∷ chunks) zero {chunk} h e = let same : c ≡ chunk = cc in subst HasHash same h.0
  All-get_elem? (c ∷ chunks) (suc i) h e = All-get_elem? chunks i h.1 e

CountsFrom-get_elem? :
    (n i : ℕ) (chunks : List ChunkResult) {chunk : ChunkResult}
    → CountsFrom n chunks
    → get_elem? chunks i ≡ some chunk
    → chunk.order_index ≡ n + i
CountsFrom-get_elem? n i [] h e = cc
CountsFrom-get_elem? n zero (c ∷ chunks) {chunk} h e =
    let same : c ≡ chunk = cc in rw (← same) (omega (arith, h.0))
CountsFrom-get_elem? n (suc i) (c ∷ chunks) h e =
    CountsFrom-get_elem? (n + 1) i chunks h.1 e ∙ omega arith

-- With a hash function that maps no two texts to one value, two chunks of a document have one id
-- only if they are the same chunk.
pub chunk_id-injective :
    (sha256 : Text → Text)
    → ((s t : Text) → sha256 s ≡ sha256 t → s ≡ t)
    → (default_overlap : Fraction) (units : List BodyUnit) (max_tokens : ℕ) (overlap : Fraction)
    → (i j : ℕ) (a b : ChunkResult)
    → get_elem? (extract_chunks sha256 default_overlap units max_tokens overlap) i ≡ some a
    → get_elem? (extract_chunks sha256 default_overlap units max_tokens overlap) j ≡ some b
    → a.chunk_id ≡ b.chunk_id
    → i ≡ j
chunk_id-injective sha256 inj default_overlap units max_tokens overlap i j a b ea eb same =
    let chunks = extract_chunks sha256 default_overlap units max_tokens overlap in
    let hashes = extract_chunks-HasHash sha256 default_overlap units max_tokens overlap in
    let counts = extract_chunks-CountsFrom sha256 default_overlap units max_tokens overlap in
    let texts : id_text a ≡ id_text b = inj (id_text a) (id_text b) (
      sym (All-get_elem? sha256 chunks i hashes ea)
      ∙ same
      ∙ All-get_elem? sha256 chunks j hashes eb) in
    let orders : a.order_index ≡ b.order_index =
      sym (read_number-id_text a) ∙ ap (read_number 0) texts ∙ read_number-id_text b in
    omega (
      arith,
      orders,
      CountsFrom-get_elem? 0 i chunks counts ea,
      CountsFrom-get_elem? 0 j chunks counts eb,
    )
