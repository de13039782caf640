-- ===== src/Generation/Citations.antt =====
-- The citations of `_assemble` and `_citation_from_chunk` of app/services/generation/service.py.
use mathlib.Core.Option.{map as map_option}
use fiqhmind_ai_backend.Prelude.{
  ℕ, ap, Bool, false, ◌≡◌, refl, inl, inr, true, String, Option, none, some, List, [], ◌∷◌, map,
  arith, if◌then◌else◌, Bool-cases, Option-cases, All, Among,
}
use fiqhmind_ai_backend.Text.{Text, codes, decimal}
use fiqhmind_ai_backend.Retrieval.Scores.{Floats}
use fiqhmind_ai_backend.Retrieval.Types.{RetrievedChunk}
use fiqhmind_ai_backend.Generation.Json.{text_eq, text_eq_sound, is_text_in}
use fiqhmind_ai_backend.Generation.Parse.{Reader, and_then}
use fiqhmind_ai_backend.Generation.Validation.{Cited, cited_id, Payload, validate_llm_answer}
use fiqhmind_ai_backend.Generation.Validation.Grounded.{
  IsFromEvidence, validate_llm_answer-IsGrounded,
}

-- `Citation`; the edition is always `None`
pub record Citation : Type 0 where
  pub chunk_id : Text
  pub book : Option String
  pub volume : Option String
  pub page : Option Text
  pub chapter : Option String

-- `a or b` of two optional texts
abbrev pub or_else : Option String → Option String → Option String
or_else none other = other
or_else (some String.[]) other = other
or_else (some (String.◌∷◌ c s)) other = some (String.◌∷◌ c s)

-- `str(page) if page is not None else None`
abbrev pub page_text : Option ℕ → Option Text
unfolding decimal
page_text none = none
page_text (some page) = some (decimal page)

-- a text that is there and not empty
abbrev is_given : Option String → Bool
is_given none = false
is_given (some String.[]) = false
is_given (some _) = true

-- the first text that is given, or else the last one
abbrev pub first_given : Option String → Option String → Option String → Option String
first_given a b c = if is_given a then a else if is_given b then b else c

or_else-first_given : (a b c : Option String) → or_else a (or_else b c) ≡ first_given a b c
or_else-first_given none none c = refl
or_else-first_given none (some String.[]) c = refl
or_else-first_given none (some (String.◌∷◌ d s)) c = refl
or_else-first_given (some String.[]) none c = refl
or_else-first_given (some String.[]) (some String.[]) c = refl
or_else-first_given (some String.[]) (some (String.◌∷◌ d s)) c = refl
or_else-first_given (some (String.◌∷◌ d s)) b c = refl

page_text-map : (page : Option ℕ) → page_text page ≡ map_option decimal page
unfolding page_text
page_text-map none = refl
page_text-map (some page) = refl

module _ (fl : Floats) where
  abbrev pub id_of : RetrievedChunk fl → Text
  id_of chunk = codes chunk.chunk_id

  -- `by_chunk_id.get(chunk_id)`: of chunks with one identifier the last one
  abbrev pub by_chunk_id : Text → List (RetrievedChunk fl) → Option (RetrievedChunk fl)
  by_chunk_id id [] = none
  by_chunk_id id (chunk ∷ chunks) = elim (by_chunk_id id chunks) [
    | some later ↦ some later
    | none ↦ if text_eq (id_of chunk) id then some chunk else none
  ]

  -- `Citation(…)`
  abbrev pub citation_of : Text → RetrievedChunk fl → Citation
  unfolding page_text
  citation_of id chunk = record {
    chunk_id = id;
    book = chunk.book_name;
    volume = chunk.volume;
    page = page_text chunk.printed_page_start;
    chapter = or_else chunk.topic (or_else chunk.kitab chunk.bab);
  }

  -- `_citation_from_chunk`; `none` for its `GenerationValidationError`
  unfoldable pub citation_from_chunk : Text → List (RetrievedChunk fl) → Option Citation
  unfolding citation_of
  citation_from_chunk id chunks =
      and_then (by_chunk_id id chunks) (λ chunk. some (citation_of id chunk))

  -- the citations of `_assemble`
  unfoldable pub assemble_citations : List (RetrievedChunk fl) → List Cited → Option (List Citation)
  unfolding citation_from_chunk
  assemble_citations chunks [] = some []
  assemble_citations chunks (c ∷ cs) =
      let rest = assemble_citations chunks cs in
      and_then (citation_from_chunk c.chunk_id chunks)
        (λ citation. and_then rest (λ citations. some (citation ∷ citations)))

  -- a citation has the identifier of one of the chunks, that chunk's book and volume, its first page,
  -- and the first of its topic and kitab that is given, or else its bab
  abbrev pub IsOf : List (RetrievedChunk fl) → Citation → Type 0
  IsOf chunks citation =
      (chunk : RetrievedChunk fl) × Among chunk chunks
      × (id_of chunk ≡ citation.chunk_id)
      × (citation.book ≡ chunk.book_name)
      × (citation.volume ≡ chunk.volume)
      × (citation.page ≡ map_option decimal chunk.printed_page_start)
      × (citation.chapter ≡ first_given chunk.topic chunk.kitab chunk.bab)

  -- the identifier of an assembled citation
  abbrev pub citation_id : Citation → Text
  citation_id citation = citation.chunk_id

  -- the chunk that a lookup finds
  abbrev Finds : Text → List (RetrievedChunk fl) → Type 0
  Finds id chunks =
      (chunk : RetrievedChunk fl) × (by_chunk_id id chunks ≡ some chunk)
      × Among chunk chunks
      × (id_of chunk ≡ id)

  Finds-cons :
      (id : Text) (chunk : RetrievedChunk fl) (chunks : List (RetrievedChunk fl))
      → Finds id chunks
      → Finds id (chunk ∷ chunks)
  Finds-cons id chunk chunks (found, lookup, among, same) = (found, rw lookup refl, inr among, same)

  Finds-here :
      (id : Text) (chunk : RetrievedChunk fl) (chunks : List (RetrievedChunk fl))
      → text_eq (id_of chunk) id ≡ true
      → by_chunk_id id chunks ≡ none
      → Finds id (chunk ∷ chunks)
  Finds-here id chunk chunks same lookup =
      (chunk, rw (lookup, same) refl, inl refl, text_eq_sound (id_of chunk) id same)

  by_chunk_id-Finds :
      (id : Text) (chunks : List (RetrievedChunk fl)) (found : RetrievedChunk fl)
      → by_chunk_id id chunks ≡ some found
      → Finds id chunks
  by_chunk_id-Finds id [] found h = absurd (ground arith)
  by_chunk_id-Finds id (chunk ∷ chunks) found h = elim (Option-cases (by_chunk_id id chunks)) [
    | inr (later, lookup) ↦ Finds-cons id chunk chunks (by_chunk_id-Finds id chunks later lookup)
    | inl lookup ↦ elim (Bool-cases (text_eq (id_of chunk) id)) [
      | inl same ↦ Finds-here id chunk chunks same lookup
      | inr apart ↦ absurd (ground arith)
    ]
  ]

  is_text_in-Finds :
      (id : Text) (chunks : List (RetrievedChunk fl))
      → is_text_in id (map id_of chunks) ≡ true
      → Finds id chunks
  is_text_in-Finds id [] h = absurd (ground arith)
  is_text_in-Finds id (chunk ∷ chunks) h = elim (Option-cases (by_chunk_id id chunks)) [
    | inr (later, lookup) ↦ Finds-cons id chunk chunks (by_chunk_id-Finds id chunks later lookup)
    | inl lookup ↦ elim (Bool-cases (text_eq (id_of chunk) id)) [
      | inl same ↦ Finds-here id chunk chunks same lookup
      | inr apart ↦ Finds-cons id chunk chunks (is_text_in-Finds id chunks (ground arith))
    ]
  ]

  IsOf-citation_of :
      (id : Text) (chunk : RetrievedChunk fl) (chunks : List (RetrievedChunk fl))
      → Among chunk chunks
      → id_of chunk ≡ id
      → IsOf chunks (citation_of id chunk)
  unfolding citation_of
  IsOf-citation_of id chunk chunks among same = (
    chunk,
    among,
    same,
    refl,
    refl,
    page_text-map chunk.printed_page_start,
    or_else-first_given chunk.topic chunk.kitab chunk.bab,
  )

  assemble_citations-IsOf :
      (chunks : List (RetrievedChunk fl)) (cs : List Cited)
      → All (IsFromEvidence (map id_of chunks)) cs
      → (citations : List Citation) × (assemble_citations chunks cs ≡ some citations)
        × (map citation_id citations ≡ map cited_id cs)
        × All (IsOf chunks) citations
  unfolding assemble_citations citation_from_chunk
  assemble_citations-IsOf chunks [] h = ([], refl, refl, tt)
  assemble_citations-IsOf chunks (c ∷ cs) h =
      let (chunk, lookup, among, same) = is_text_in-Finds c.chunk_id chunks h.0 in
      let (rest, later, ids, of) = assemble_citations-IsOf chunks cs h.1 in
      (
        citation_of c.chunk_id chunk ∷ rest,
        rw (lookup, later) refl,
        ap (◌∷◌ c.chunk_id) ids,
        (IsOf-citation_of c.chunk_id chunk chunks among same, of),
      )

  -- For an answer that passed the validation against the chunks' identifiers, the citations can be
  -- assembled without an error, one for each citation of the answer, with its identifier and in its
  -- order. Each has the identifier of one of these chunks, the book name and the volume of that
  -- chunk, its first printed page in decimal, and as chapter the first of its topic and kitab that is
  -- given, or else its bab.
  pub assemble_citations-validate_llm_answer :
      (r : Reader) (chunks : List (RetrievedChunk fl)) (language raw : Text) (p : Payload)
      → validate_llm_answer r (map id_of chunks) language raw ≡ some p
      → (citations : List Citation) × (assemble_citations chunks p.citations ≡ some citations)
        × (map citation_id citations ≡ map cited_id p.citations)
        × All (IsOf chunks) citations
  assemble_citations-validate_llm_answer r chunks language raw p h =
      assemble_citations-IsOf chunks p.citations
        (validate_llm_answer-IsGrounded r (map id_of chunks) language raw p h).1
