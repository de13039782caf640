-- ===== src/Tests/GenerationRuns.antt =====
-- A provider whose first answer is not valid, an answer with a citation, and the stream of both.
use fiqhmind_ai_backend.Prelude.{
  ℕ, zero, suc, ◌≡◌, refl, true, none, some, List, [], ◌∷◌, map, All, arith, ◌-◌, if◌then◌else◌,
  ◌&&◌, leb,
}
use fiqhmind_ai_backend.Text.{Text, codes}
use fiqhmind_ai_backend.Retrieval.Types.{RetrievedChunk}
use fiqhmind_ai_backend.Tests.RetrievalRuns.{thousandths}
use fiqhmind_ai_backend.Generation.Citations.{
  Citation, assemble_citations, id_of, IsOf, citation_id, assemble_citations-validate_llm_answer,
}
use fiqhmind_ai_backend.Generation.Service.{
  Reply, said, Ending, complete, Streaming, Parts, Attempted, generate, answer_of, stream_answer,
}
use fiqhmind_ai_backend.Generation.Service.Attempts.{Explains, generate-Explains}
use fiqhmind_ai_backend.Generation.Service.Stream.{EndsIn, replies_of, stream_answer-generate}
use fiqhmind_ai_backend.Generation.Json.{
  str, number, array, object, item, no_items, Fields, entry, no_fields,
}
use fiqhmind_ai_backend.Generation.Parse.{Reader}
use fiqhmind_ai_backend.Generation.Validation.{Payload, cited_id, validate_llm_answer}
use fiqhmind_ai_backend.Generation.Validation.Grounded.{IsGrounded, validate_llm_answer-IsGrounded}

-- the payload is the text, and the answers are numbers
abbrev parts : Parts Text ℕ
parts = record {
  generation_retries = 1;
  validate = λ raw. elim raw [ [] ↦ none | c ∷ t ↦ some (c ∷ t) ];
  assemble = λ payload. elim payload [ [] ↦ none | c ∷ t ↦ some 1 ];
  synthesize = 2;
  build_refusal = λ reason. 3;
  stream_deltas = λ answer. codes "a" ∷ [];
}

abbrev replies : ℕ → Reply
replies zero = said []
replies (suc zero) = said []
replies (suc (suc n)) = said (codes "{}")

generate-Explains_example :
    (result : Attempted Text) × Explains parts replies 2 1 result
    × (generate parts true (some replies) ≡ answer_of parts result)
generate-Explains_example = generate-Explains parts replies

abbrev streams : ℕ → Streaming
streams (suc (suc zero)) = record { parts = codes "{" ∷ codes "}" ∷ []; ending = complete }
streams (suc (suc (suc n))) = record { parts = []; ending = Ending.unavailable }
streams n = record { parts = []; ending = complete }

streams_work : (n : ℕ) → ¬ ((streams n).ending ≡ Ending.broken)
streams_work zero h = ground arith
streams_work (suc zero) h = ground arith
streams_work (suc (suc zero)) h = ground arith
streams_work (suc (suc (suc n))) h = ground arith

stream_answer-generate_example :
    EndsIn parts
      (generate parts true (some (replies_of streams)))
      (stream_answer parts true (some streams))
stream_answer-generate_example = stream_answer-generate parts streams true streams_work

abbrev chunk : RetrievedChunk thousandths
chunk = record {
  chunk_id = "c1";
  text = "water";
  book_name = some "Hidaya";
  volume = some "1";
  printed_page_start = some 12;
  printed_page_end = some 12;
  kitab = none;
  bab = some "On water";
  fasl = none;
  topic = none;
  region = none;
  lang = none;
  verified = true;
  rerank_score = 800;
  arabic_score = none;
  original_score = none;
}

abbrev chunks : List (RetrievedChunk thousandths)
chunks = chunk ∷ []

abbrev answer_fields : Fields
answer_fields = entry "answer_language" (str (codes "en")) (
    entry "explanation" (object (entry "html" (str (codes "Water is pure [EVIDENCE_1]")) no_fields))
      (entry "citations"
        (array (
          item
            (object
              (entry "chunk_id" (str (codes "c1")) (entry "page" (number (codes "12")) no_fields)))
            no_items))
        no_fields))

abbrev reader : Reader
reader = record {
  loads = λ t. some (object answer_fields);
  digit = λ c. if leb 48 c && leb c 57 then some (c - 48) else none;
}

abbrev nothing : Payload
nothing = record {
  html = [];
  explanation = no_fields;
  arabic_quotes = [];
  citations = [];
  refusal = none;
  caveats = [];
  related = [];
}

abbrev payload : Payload
unfolding validate_llm_answer
payload =
    elim (validate_llm_answer reader (map (id_of thousandths) chunks) (codes "en") (codes "{}")) [
      | some p ↦ p
      | none ↦ nothing
    ]

validate_llm_answer-IsGrounded_example : IsGrounded reader (map (id_of thousandths) chunks) payload
unfolding validate_llm_answer
validate_llm_answer-IsGrounded_example =
    validate_llm_answer-IsGrounded reader (map (id_of thousandths) chunks) (codes "en") (codes "{}")
      payload refl

assemble_citations-validate_llm_answer_example :
    (citations : List Citation) × (assemble_citations thousandths chunks payload.citations
      ≡ some citations)
    × (map (citation_id thousandths) citations ≡ map cited_id payload.citations)
    × All (IsOf thousandths chunks) citations
unfolding validate_llm_answer
assemble_citations-validate_llm_answer_example =
    assemble_citations-validate_llm_answer thousandths reader chunks (codes "en") (codes "{}")
      payload refl
