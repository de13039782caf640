-- ===== src/Generation/Validation.antt =====
-- app/services/generation/validation.py. `json.loads` is a parameter, and so is the value of a decimal
-- digit in the Unicode database. `none` stands for `GenerationValidationError`.
pub mod Grounded
use fiqhmind_ai_backend.Prelude.{
  ℕ, zero, suc, ◌+◌, ◌*◌, ◌-◌, Bool, true, false, not, ◌&&◌, ◌||◌, String, Option, none, some, List,
  [], ◌∷◌, ◌++◌, map, reverse, leb, ◌==◌, if◌then◌else◌, get_elem?, is_empty, drop,
}
use fiqhmind_ai_backend.Text.{Text, codes, strip, join}
use fiqhmind_ai_backend.Generation.Json.{
  Json, null, flag, number, str, array, object, no_items, Fields, elements, get_field, put_field,
  default_field, text_eq, is_text_in,
}
use fiqhmind_ai_backend.Generation.Parse.{Reader, and_then, check, after_prefix, parse_json}

-- `isinstance(value, dict)`, and so on
abbrev pub as_object : Json → Option Fields
as_object (object fields) = some fields
as_object _ = none

abbrev pub as_text : Json → Option Text
as_text (str t) = some t
as_text _ = none

-- a list, or the empty one for `None`
abbrev pub as_list : Json → Option (List Json)
as_list null = some []
as_list (array items) = some (elements items)
as_list _ = none

-- `text.strip()` is not empty
abbrev pub is_full : Text → Bool
unfolding strip
is_full t = not (is_empty (strip t))

-- `isinstance(text, str)` and the text is not blank
abbrev pub full_text : Json → Option Text
unfolding is_full
full_text j = and_then (as_text j) (λ t. if is_full t then some t else none)

-- the loop over the quotes
abbrev pub check_quotes : List Json → Option (Unit {0})
unfolding full_text
check_quotes [] = some tt
check_quotes (quote ∷ quotes) =
    let rest = check_quotes quotes in
    and_then (as_object quote)
      (λ fields. and_then (full_text (get_field "text" fields)) (λ _. rest))

-- the value of a key of `_normalize_citation`
abbrev pub stringify : String → Fields → Fields
stringify key fields = elim (get_field key fields) [
  | number n ↦ put_field key (str n) fields
  | _ ↦ fields
]

-- `_normalize_citation`
abbrev pub normalize_citation : Fields → Fields
normalize_citation citation = stringify "volume" (stringify "page" citation)

-- a citation that passed, with its `chunk_id`
pub record Cited : Type 0 where
  pub chunk_id : Text
  pub fields : Fields

-- the body of the loop over the citations
unfoldable pub read_citation : List Text → Json → Option Cited
read_citation evidence_ids citation = and_then (as_object citation) (λ fields.
    and_then (as_text (get_field "chunk_id" fields)) (λ id.
      if is_text_in id evidence_ids
      then some (record { chunk_id = id; fields = normalize_citation fields })
      else none))

unfoldable pub read_citations : List Text → List Json → Option (List Cited)
unfolding read_citation
read_citations evidence_ids [] = some []
read_citations evidence_ids (citation ∷ citations) =
    let rest = read_citations evidence_ids citations in
    and_then (read_citation evidence_ids citation) (λ c. and_then rest (λ cs. some (c ∷ cs)))

-- `(\d+)\]`, with the number so far and whether a digit was read
abbrev pub read_index : (ℕ → Option ℕ) → ℕ → Bool → Text → Option ℕ
read_index digit n started [] = none
read_index digit n started (c ∷ t) = elim (digit c) [
  | none ↦ if started && c == 93 then some n else none
  | some d ↦ read_index digit (n * 10 + d) true t
]

-- a match of `_EVIDENCE_REFERENCE` at the start of the text
abbrev pub reference_at : (ℕ → Option ℕ) → Text → Option ℕ
reference_at digit t =
    and_then (after_prefix (codes "[EVIDENCE_") t) (λ rest. read_index digit 0 false rest)

-- `_EVIDENCE_REFERENCE.finditer(html)`: no match holds the start of another
unfoldable pub references : (ℕ → Option ℕ) → Text → List ℕ
references digit [] = []
references digit (c ∷ t) =
    let later = references digit t in
    elim (reference_at digit (c ∷ t)) [ none ↦ later | some n ↦ n ∷ later ]

-- `index_to_chunk.get(index)`
abbrev pub chunk_at : List Text → ℕ → Option Text
chunk_at evidence_ids zero = none
chunk_at evidence_ids (suc i) = get_elem? evidence_ids i

-- `citation["chunk_id"]`
abbrev pub cited_id : Cited → Text
cited_id c = c.chunk_id

-- the loop of `_check_citation_coverage`
abbrev pub check_references : List Text → List Text → List ℕ → Option (Unit {0})
check_references cited evidence_ids [] = some tt
check_references cited evidence_ids (index ∷ rest) =
    let later = check_references cited evidence_ids rest in
    and_then (chunk_at evidence_ids index) (λ id. if is_text_in id cited then later else none)

-- `_check_citation_coverage`
unfoldable pub check_citation_coverage : Reader → Text → List Cited → List Text → Option (Unit {0})
unfolding references
check_citation_coverage r html citations evidence_ids =
    check_references (map cited_id citations) evidence_ids (references r.digit html)

-- the value of `refusal`
abbrev pub read_refusal : Json → Option (Option Fields)
read_refusal null = some none
read_refusal (object fields) = and_then (as_text (get_field "reason" fields)) (λ reason.
    if text_eq reason (codes "insufficient_evidence")
    then elim (get_field "closest_evidence" fields) [
      | null ↦ some (some (put_field "closest_evidence" (array no_items) fields))
      | array items ↦ some (some fields)
      | _ ↦ none
    ]
    else none)
read_refusal _ = none

-- the keys of the payload that are checked, as `validate_llm_answer` leaves them
pub record Payload : Type 0 where
  pub html : Text
  pub explanation : Fields
  pub arabic_quotes : List Json
  pub citations : List Cited
  pub refusal : Option Fields
  pub caveats : List Json
  pub related : List Json

-- the citations, checked against the evidence and the explanation
unfoldable pub read_sources : Reader → List Text → Text → Json → Option (List Cited)
unfolding read_citations check_citation_coverage
read_sources r evidence_ids html citations = and_then (as_list citations) (λ list.
    and_then (read_citations evidence_ids list)
      (λ cited. and_then (check_citation_coverage r html cited evidence_ids) (λ _. some cited)))

-- the checks of an object
unfoldable pub validate_payload : Reader → List Text → Text → Fields → Option Payload
unfolding read_sources full_text check_quotes
validate_payload r evidence_ids language payload =
    and_then (as_text (get_field "answer_language" payload)) (λ given.
      and_then (check (text_eq given language)) (λ _.
        and_then (as_object (get_field "explanation" payload)) (λ explanation.
          and_then (full_text (get_field "html" explanation)) (λ html.
            and_then (as_list (get_field "arabic_quotes" payload)) (λ quotes.
              and_then (check_quotes quotes) (λ _.
                and_then (read_sources r evidence_ids html (get_field "citations" payload))
                  (λ citations. and_then (read_refusal (get_field "refusal" payload)) (λ refusal.
                    and_then (as_list (get_field "caveats" payload)) (λ caveats.
                      and_then (as_list (get_field "related" payload)) (λ related. some (record {
                        html = html;
                        explanation = default_field "type" (str (codes "markdown")) explanation;
                        arabic_quotes = quotes;
                        citations = citations;
                        refusal = refusal;
                        caveats = caveats;
                        related = related;
                      })))))))))))

-- `validate_llm_answer`
unfoldable pub validate_llm_answer : Reader → List Text → Text → Text → Option Payload
unfolding parse_json validate_payload
validate_llm_answer r evidence_ids language raw = and_then (parse_json r raw) (λ json.
    and_then (as_object json) (λ payload. validate_payload r evidence_ids language payload))
