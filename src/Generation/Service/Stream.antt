-- ===== src/Generation/Service/Stream.antt =====
-- `stream_answer` and `generate` of app/services/generation/service.py agree.
use mathlib.Core.List.{map-append}
use fiqhmind_ai_backend.Prelude.{
  sym, ℕ, zero, suc, ◌≡◌, refl, ap, ◌∙◌, Bool, true, false, Option, none, some, List, [], ◌∷◌, ◌++◌,
  map, concat,
}
use fiqhmind_ai_backend.Text.{Text}
use fiqhmind_ai_backend.Generation.Service.{
  Reply, said, Ending, complete, Streaming, Parts, Attempted, Event, token, answer, Streamed, ended,
  invalid_after, answered, attempt_from, after_reply, answer_of, generate, after_tokens,
  after_stream, stream_from, stream_answer,
}

-- what a stream comes to, taken as one reply
abbrev pub reply_for : Text → Ending → Reply
reply_for text complete = said text
reply_for text Ending.unavailable = Reply.unavailable
reply_for text Ending.broken = Reply.broken

abbrev pub reply_of : Streaming → Reply
reply_of stream = reply_for (concat stream.parts) stream.ending

abbrev pub replies_of : (ℕ → Streaming) → ℕ → Reply
replies_of streams n = reply_of (streams n)

module _ {P A : Type 0} (parts : Parts P A) where
  -- tokens, and then one answer, or without one the error of `_assemble`
  abbrev pub EndsIn : Option A → Streamed A → Type 0
  EndsIn (some a) stream =
      (tokens : List Text) × (stream ≡ ended (map token tokens ++ answer a ∷ []))
  EndsIn none stream = (tokens : List Text) × (stream ≡ invalid_after (map token tokens))

  map-append-token :
      (xs ys : List Text) (rest : List (Event A))
      → map token xs ++ (map token ys ++ rest) ≡ map token (xs ++ ys) ++ rest
  map-append-token [] ys rest = refl
  map-append-token (x ∷ xs) ys rest = ap (◌∷◌ (token x)) (map-append-token xs ys rest)

  after_tokens-EndsIn :
      (a : Option A) (more : List Text) (stream : Streamed A)
      → EndsIn a stream
      → EndsIn a (after_tokens parts more stream)
  after_tokens-EndsIn (some a) more stream (tokens, same) = (
    more ++ tokens,
    ap (after_tokens parts more) same ∙ ap ended (map-append-token more tokens (answer a ∷ [])),
  )
  after_tokens-EndsIn none more stream (tokens, same) = (
    more ++ tokens,
    ap (after_tokens parts more) same ∙ ap invalid_after (sym (map-append token more tokens)),
  )

  answered-EndsIn : (a : Option A) → EndsIn a (answered parts a)
  answered-EndsIn (some a) = ([], refl)
  answered-EndsIn none = ([], refl)

  after_stream-EndsIn :
      (text : Text) (ending : Ending) (verdict : Option P) (rest : Streamed A) (other : Attempted P)
      → parts.validate text ≡ verdict
      → ¬ (ending ≡ Ending.broken)
      → EndsIn (answer_of parts other) rest
      → EndsIn
          (answer_of parts (after_reply parts (reply_for text ending) other))
          (after_stream parts ending verdict rest)
  after_stream-EndsIn text complete none rest other valid works h = rw valid h
  after_stream-EndsIn text complete (some payload) rest other valid works h =
      rw valid (answered-EndsIn (parts.assemble payload))
  after_stream-EndsIn text Ending.unavailable verdict rest other valid works h =
      (parts.stream_deltas parts.synthesize, refl)
  after_stream-EndsIn text Ending.broken verdict rest other valid works h = absurd (works refl)

  stream_from-EndsIn :
      (streams : ℕ → Streaming) (left first : ℕ)
      → ((n : ℕ) → ¬ ((streams n).ending ≡ Ending.broken))
      → EndsIn
          (answer_of parts (attempt_from parts (replies_of streams) left first))
          (stream_from parts streams left first)
  unfolding stream_from attempt_from
  stream_from-EndsIn streams zero first works = ([], refl)
  stream_from-EndsIn streams (suc left) first works =
      let rest = stream_from parts streams left (suc first) in
      let text = concat (streams first).parts in
      after_tokens-EndsIn
        (answer_of parts (attempt_from parts (replies_of streams) (suc left) first))
        (streams first).parts (after_stream parts (streams first).ending (parts.validate text) rest)
        (after_stream-EndsIn text (streams first).ending (parts.validate text) rest
          (attempt_from parts (replies_of streams) left (suc first)) refl (works first)
          (stream_from-EndsIn streams left (suc first) works))

  -- Where no stream of the provider fails by an exception other than `ProviderUnavailableError`, the
  -- streamed answer goes with `generate`, when each call returns the text that the stream of that
  -- attempt comes to: if `generate` returns an answer, the stream is tokens followed by exactly one
  -- answer, the same; if it raises because the validated payload cannot be assembled, the stream is
  -- tokens and then raises that error, without an answer.
  pub stream_answer-generate :
      (streams : ℕ → Streaming) (sufficient : Bool)
      → ((n : ℕ) → ¬ ((streams n).ending ≡ Ending.broken))
      → EndsIn
          (generate parts sufficient (some (replies_of streams)))
          (stream_answer parts sufficient (some streams))
  unfolding stream_answer generate
  stream_answer-generate streams false works = ([], refl)
  stream_answer-generate streams true works =
      stream_from-EndsIn streams (suc parts.generation_retries) 1 works
