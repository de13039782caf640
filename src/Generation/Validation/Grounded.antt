-- ===== src/Generation/Validation/Grounded.antt =====
-- What a validated answer of app/services/generation/validation.py rests on.
use fiqhmind_ai_backend.Prelude.{
  ℕ, ◌≡◌, refl, subst, inl, inr, Bool, true, false, Option, none, some, List, [], ◌∷◌, map, arith,
  if◌then◌else◌, Bool-cases, All,
}
use fiqhmind_ai_backend.Text.{Text}
use fiqhmind_ai_backend.Generation.Json.{Json, Fields, get_field, is_text_in, text_eq}
use fiqhmind_ai_backend.Generation.Parse.{Reader, and_then, check, parse_json}
use fiqhmind_ai_backend.Generation.Validation.{
  as_object, as_text, as_list, is_full, full_text, check_quotes, Cited, cited_id, read_citation,
  read_citations, normalize_citation, references, chunk_at, check_references,
  check_citation_coverage, read_sources, read_refusal, Payload, validate_payload,
  validate_llm_answer,
}

and_then-some :
    {A B : Type 0} (o : Option A) (f : A → Option B) (b : B)
    → and_then o f ≡ some b
    → (a : A) × (o ≡ some a) × (f a ≡ some b)
and_then-some none f b h = absurd (ground arith)
and_then-some (some a) f b h = (a, refl, h)

-- the evidence has the chunk of a citation
abbrev pub IsFromEvidence : List Text → Cited → Type 0
IsFromEvidence evidence_ids c = is_text_in c.chunk_id evidence_ids ≡ true

-- a reference of the explanation is to a piece of evidence that is cited
abbrev pub IsBacked : List Text → List Cited → ℕ → Type 0
IsBacked evidence_ids citations index =
    (id : Text) × (chunk_at evidence_ids index ≡ some id)
    × (is_text_in id (map cited_id citations) ≡ true)

-- What the answer says is not blank, its citations are of the evidence, and its references are cited.
abbrev pub IsGrounded : Reader → List Text → Payload → Type 0
IsGrounded r evidence_ids p =
    (is_full p.html ≡ true)
    × All (IsFromEvidence evidence_ids) p.citations
    × All (IsBacked evidence_ids p.citations) (references r.digit p.html)

some-injective : {A : Type 0} (x y : A) → some x ≡ some y → x ≡ y
some-injective x y h = ground arith

if-some :
    {A : Type 0} (b : Bool) (x y : A) → (if b then some x else none) ≡ some y → (b ≡ true) × (x ≡ y)
if-some true x y h = (refl, ground arith)
if-some false x y h = absurd (ground arith)

read_citation-IsFromEvidence :
    (evidence_ids : List Text) (citation : Json) (c : Cited)
    → read_citation evidence_ids citation ≡ some c
    → IsFromEvidence evidence_ids c
unfolding read_citation
read_citation-IsFromEvidence evidence_ids citation c h =
    let (fields, _, h1) = and_then-some (as_object citation) _ c h in
    let (id, _, h2) = and_then-some (as_text (get_field "chunk_id" fields)) _ c h1 in
    let found =
      if-some (is_text_in id evidence_ids)
        (record { chunk_id = id; fields = normalize_citation fields }) c h2 in
    subst (IsFromEvidence evidence_ids) found.1 found.0

read_citations-All :
    (evidence_ids : List Text) (citations : List Json) (cs : List Cited)
    → read_citations evidence_ids citations ≡ some cs
    → All (IsFromEvidence evidence_ids) cs
unfolding read_citations
read_citations-All evidence_ids [] cs h =
    let same : [] ≡ cs = ground arith in subst (All (IsFromEvidence evidence_ids)) same tt
read_citations-All evidence_ids (citation ∷ citations) cs h =
    let (c, here, h1) = and_then-some (read_citation evidence_ids citation) _ cs h in
    let (rest, later, h2) = and_then-some (read_citations evidence_ids citations) _ cs h1 in
    let same : (c ∷ rest) ≡ cs = ground arith in
    subst (All (IsFromEvidence evidence_ids)) same (
      read_citation-IsFromEvidence evidence_ids citation c here,
      read_citations-All evidence_ids citations rest later,
    )

check_references-All :
    (citations : List Cited) (evidence_ids : List Text) (indices : List ℕ) (u : Unit {0})
    → check_references (map cited_id citations) evidence_ids indices ≡ some u
    → All (IsBacked evidence_ids citations) indices
check_references-All citations evidence_ids [] u h = tt
check_references-All citations evidence_ids (index ∷ indices) u h =
    let (id, at, h1) = and_then-some (chunk_at evidence_ids index) _ u h in
    elim (Bool-cases (is_text_in id (map cited_id citations))) [
      | inl cited ↦
          ((id, at, cited), check_references-All citations evidence_ids indices u (ground arith))
      | inr missing ↦ absurd (ground arith)
    ]

-- the citations and the explanation, of `read_sources`
read_sources_lem :
    (r : Reader) (evidence_ids : List Text) (html : Text) (citations : Json) (cs : List Cited)
    → read_sources r evidence_ids html citations ≡ some cs
    → All (IsFromEvidence evidence_ids) cs
      × All (IsBacked evidence_ids cs) (references r.digit html)
unfolding read_sources check_citation_coverage
read_sources_lem r evidence_ids html citations cs h =
    let (list, _, h1) = and_then-some (as_list citations) _ cs h in
    let (cited, found, h2) = and_then-some (read_citations evidence_ids list) _ cs h1 in
    let (u, covered, h3) =
      and_then-some (check_citation_coverage r html cited evidence_ids) _ cs h2 in
    let same : cited ≡ cs = ground arith in
    subst
      (λ xs.
        All (IsFromEvidence evidence_ids) xs
        × All (IsBacked evidence_ids xs) (references r.digit html))
      same
      (
        read_citations-All evidence_ids list cited found,
        check_references-All cited evidence_ids (references r.digit html) u covered,
      )

full_text-is_full : (j : Json) (t : Text) → full_text j ≡ some t → is_full t ≡ true
unfolding full_text
full_text-is_full j t h =
    let (raw, _, h1) = and_then-some (as_text j) _ t h in
    let found = if-some (is_full raw) raw t h1 in subst (λ x. is_full x ≡ true) found.1 found.0

validate_payload-IsGrounded :
    (r : Reader) (evidence_ids : List Text) (language : Text) (payload : Fields) (p : Payload)
    → validate_payload r evidence_ids language payload ≡ some p
    → IsGrounded r evidence_ids p
unfolding validate_payload
validate_payload-IsGrounded r evidence_ids language payload p h =
    let (given, _, h1) = and_then-some (as_text (get_field "answer_language" payload)) _ p h in
    let (_, _, h2) = and_then-some (check (text_eq given language)) _ p h1 in
    let (explanation, _, h3) = and_then-some (as_object (get_field "explanation" payload)) _ p h2 in
    let (html, full, h4) = and_then-some (full_text (get_field "html" explanation)) _ p h3 in
    let (quotes, _, h5) = and_then-some (as_list (get_field "arabic_quotes" payload)) _ p h4 in
    let (_, _, h6) = and_then-some (check_quotes quotes) _ p h5 in
    let (cs, sources, h7) =
      and_then-some (read_sources r evidence_ids html (get_field "citations" payload)) _ p h6 in
    let (refusal, _, h8) = and_then-some (read_refusal (get_field "refusal" payload)) _ p h7 in
    let (caveats, _, h9) = and_then-some (as_list (get_field "caveats" payload)) _ p h8 in
    let (related, _, h10) = and_then-some (as_list (get_field "related" payload)) _ p h9 in
    let grounded =
      read_sources_lem r evidence_ids html (get_field "citations" payload) cs sources in
    subst (IsGrounded r evidence_ids) (some-injective _ p h10)
      (full_text-is_full (get_field "html" explanation) html full, grounded.0, grounded.1)

-- An answer that passes the validation has an explanation that is not blank, cites only chunks of the
-- evidence, and each `[EVIDENCE_i]` of its explanation is the i-th piece of the evidence, counted from 1, and is
-- cited.
pub validate_llm_answer-IsGrounded :
    (r : Reader) (evidence_ids : List Text) (language raw : Text) (p : Payload)
    → validate_llm_answer r evidence_ids language raw ≡ some p
    → IsGrounded r evidence_ids p
unfolding validate_llm_answer
validate_llm_answer-IsGrounded r evidence_ids language raw p h =
    let (json, _, h1) = and_then-some (parse_json r raw) _ p h in
    let (payload, _, h2) = and_then-some (as_object json) _ p h1 in
    validate_payload-IsGrounded r evidence_ids language payload p h2
