-- ===== src/Generation/Service.antt =====
-- `GenerationService.generate`, `_generate_via_llm` and `stream_answer` of
-- app/services/generation/service.py. The provider is a parameter: what it does at each attempt; so are
-- the answers that the synthesizer, the refusal and `_assemble` build.
pub mod Attempts
pub mod Stream
use fiqhmind_ai_backend.Prelude.{
  ℕ, zero, suc, Bool, true, false, Option, none, some, List, [], ◌∷◌, ◌++◌, map, if◌then◌else◌,
  concat,
}
use fiqhmind_ai_backend.Text.{Text}

-- what a call of `provider.complete` does
pub data Reply : Type 0 where
  said : Text → Reply
  -- it raises `ProviderUnavailableError`
  unavailable : Reply
  -- it raises any other exception
  broken : Reply

-- what a stream of the provider does after its parts
pub data Ending : Type 0 where
  complete : Ending
  unavailable : Ending
  broken : Ending

pub record Streaming : Type 0 where
  pub parts : List Text
  pub ending : Ending

-- the `reason` of a refusal
pub data Reason : Type 0 where
  insufficient_evidence : Reason
  generation_unavailable : Reason

-- the parts of the service: `P` is the validated payload and `A` the answer
pub record Parts (P A : Type 0) : Type 0 where
  pub generation_retries : ℕ
  -- `validate_llm_answer`; `none` for `GenerationValidationError`
  pub validate : Text → Option P
  -- `_assemble`; `none` for the `ValidationError` of pydantic, which nothing catches
  pub assemble : P → Option A
  pub synthesize : A
  pub build_refusal : Reason → A
  -- `_stream_deltas(answer.explanation.html)`
  pub stream_deltas : A → List Text

-- what the attempts end with
pub data Attempted (P : Type 0) : Type 0 where
  accepted : P → Attempted P
  rejected : Attempted P
  provider_unavailable : Attempted P

-- an event of the stream
pub data Event (A : Type 0) : Type 0 where
  token : Text → Event A
  answer : A → Event A

-- the events of a stream, and whether it ends, or with which error: `ProviderUnavailableError`, or the
-- `ValidationError` of `_assemble`
pub data Streamed (A : Type 0) : Type 0 where
  ended : List (Event A) → Streamed A
  raised_after : List (Event A) → Streamed A
  invalid_after : List (Event A) → Streamed A

module _ {P A : Type 0} (parts : Parts P A) where
  -- the validation of an answer: the payload, or the rest of the loop
  abbrev pub after_verdict : Option P → Attempted P → Attempted P
  after_verdict none rest = rest
  after_verdict (some payload) rest = accepted payload

  -- the body of the loop, with the rest of it
  abbrev pub after_reply : Reply → Attempted P → Attempted P
  after_reply (said raw) rest = after_verdict (parts.validate raw) rest
  after_reply Reply.unavailable rest = provider_unavailable
  after_reply Reply.broken rest = provider_unavailable

  -- The loop over `range(attempt, attempts + 1)`, `left` attempts long. `replies` are the provider's,
  -- by the number of the attempt.
  unfoldable pub attempt_from : (ℕ → Reply) → ℕ → ℕ → Attempted P
  attempt_from replies zero attempt = rejected
  attempt_from replies (suc left) attempt =
      let rest = attempt_from replies left (suc attempt) in after_reply (replies attempt) rest

  -- the answer for what the attempts end with, if assembling it raises no error
  abbrev pub answer_of : Attempted P → Option A
  answer_of (accepted payload) = parts.assemble payload
  answer_of rejected = some (parts.build_refusal generation_unavailable)
  answer_of provider_unavailable = some parts.synthesize

  -- `generate`, with or without a provider; `none` where it raises the error of `_assemble`
  unfoldable pub generate : Bool → Option (ℕ → Reply) → Option A
  unfolding attempt_from
  generate false provider = some (parts.build_refusal insufficient_evidence)
  generate true none = some parts.synthesize
  generate true (some replies) = answer_of (attempt_from replies (suc parts.generation_retries) 1)

  -- the synthesized answer, replayed
  abbrev pub replayed : List (Event A)
  replayed = map token (parts.stream_deltas parts.synthesize) ++ answer parts.synthesize ∷ []

  -- the events `tokens` before the rest of the stream
  abbrev pub after_tokens : List Text → Streamed A → Streamed A
  after_tokens tokens (ended events) = ended (map token tokens ++ events)
  after_tokens tokens (raised_after events) = raised_after (map token tokens ++ events)
  after_tokens tokens (invalid_after events) = invalid_after (map token tokens ++ events)

  -- the last event, with the assembled answer
  abbrev pub answered : Option A → Streamed A
  answered none = invalid_after []
  answered (some a) = ended (answer a ∷ [])

  -- the body of the loop after the tokens, with the rest of the loop
  abbrev pub after_stream : Ending → Option P → Streamed A → Streamed A
  after_stream complete none rest = rest
  after_stream complete (some payload) rest = answered (parts.assemble payload)
  after_stream Ending.unavailable verdict rest = ended replayed
  after_stream Ending.broken verdict rest = raised_after []

  -- the loop of `stream_answer`
  unfoldable pub stream_from : (ℕ → Streaming) → ℕ → ℕ → Streamed A
  stream_from streams zero attempt =
      ended (answer (parts.build_refusal generation_unavailable) ∷ [])
  stream_from streams (suc left) attempt =
      let rest = stream_from streams left (suc attempt) in
      let stream = streams attempt in
      after_tokens stream.parts
        (after_stream stream.ending (parts.validate (concat stream.parts)) rest)

  -- `stream_answer`
  unfoldable pub stream_answer : Bool → Option (ℕ → Streaming) → Streamed A
  unfolding stream_from
  stream_answer false provider = ended (answer (parts.build_refusal insufficient_evidence) ∷ [])
  stream_answer true none = ended replayed
  stream_answer true (some streams) = stream_from streams (suc parts.generation_retries) 1
