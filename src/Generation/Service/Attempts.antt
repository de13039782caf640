-- ===== src/Generation/Service/Attempts.antt =====
-- What `generate` of app/services/generation/service.py answers.
use fiqhmind_ai_backend.Prelude.{
  ℕ, zero, suc, ◌+◌, ◌≤◌, ◌<◌, ◌≡◌, refl, subst, ◌⊎◌, inl, inr, true, Option, none, some, arith,
}
use fiqhmind_ai_backend.Text.{Text}
use fiqhmind_ai_backend.Generation.Service.{
  Reply, said, Parts, Attempted, accepted, rejected, provider_unavailable, attempt_from,
  after_reply, after_verdict, answer_of, generate,
}

Nat-cases : (a b : ℕ) → a ≤ b → (a ≡ b) ⊎ (suc a ≤ b)
Nat-cases a b h = ground arith

module _ {P A : Type 0} (parts : Parts P A) where
  -- the provider answered an attempt, and the answer was not valid
  abbrev pub IsInvalid : (ℕ → Reply) → ℕ → Type 0
  IsInvalid replies n = (raw : Text) × (replies n ≡ said raw) × (parts.validate raw ≡ none)

  -- all attempts from `first` on, before `n`, were invalid
  abbrev pub AllInvalid : (ℕ → Reply) → ℕ → ℕ → Type 0
  AllInvalid replies first n = (m : ℕ) → first ≤ m → m < n → IsInvalid replies m

  -- an attempt that ends the loop
  abbrev pub EndsWith : Reply → Attempted P → Type 0
  EndsWith (said raw) (accepted payload) = parts.validate raw ≡ some payload
  EndsWith Reply.unavailable provider_unavailable = Unit
  EndsWith Reply.broken provider_unavailable = Unit
  EndsWith _ _ = ⊥

  -- what the loop ends with, of `left` attempts from `first` on
  abbrev pub Explains : (ℕ → Reply) → ℕ → ℕ → Attempted P → Type 0
  Explains replies left first result =
      ((n : ℕ) × (first ≤ n)
        × (n < first + left)
        × AllInvalid replies first n
        × EndsWith (replies n) result)
      ⊎ (AllInvalid replies first (first + left) × (result ≡ rejected))

  AllInvalid-step :
      (replies : ℕ → Reply) (first n : ℕ)
      → IsInvalid replies first
      → AllInvalid replies (suc first) n
      → AllInvalid replies first n
  AllInvalid-step replies first n here later m low high = elim (Nat-cases first m low) [
    | inl same ↦ subst (IsInvalid replies) same here
    | inr above ↦ later m above high
  ]

  Explains-step :
      (replies : ℕ → Reply) (left first : ℕ) (result : Attempted P)
      → IsInvalid replies first
      → Explains replies left (suc first) result
      → Explains replies (suc left) first result
  Explains-step replies left first result here (inl (n, low, high, invalid, end)) =
      inl (n, omega arith, omega arith, AllInvalid-step replies first n here invalid, end)
  Explains-step replies left first result here (inr (invalid, same)) =
      let length : suc first + left ≡ first + suc left = omega arith in
      inr (
        AllInvalid-step replies first (first + suc left) here
            (subst (AllInvalid replies (suc first)) length invalid),
        same,
      )

  verdict-Explains :
      (replies : ℕ → Reply) (left first : ℕ) (raw : Text) (verdict : Option P) (rest : Attempted P)
      → replies first ≡ said raw
      → parts.validate raw ≡ verdict
      → Explains replies left (suc first) rest
      → Explains replies (suc left) first (after_verdict parts verdict rest)
  verdict-Explains replies left first raw none rest reply verdict h =
      Explains-step replies left first rest (raw, reply, verdict) h
  verdict-Explains replies left first raw (some payload) rest reply verdict h =
      inl (first, omega arith, omega arith, (λ m low high. absurd (omega arith)), rw reply verdict)

  reply-Explains :
      (replies : ℕ → Reply) (left first : ℕ) (reply : Reply) (rest : Attempted P)
      → replies first ≡ reply
      → Explains replies left (suc first) rest
      → Explains replies (suc left) first (after_reply parts reply rest)
  reply-Explains replies left first (said raw) rest reply h =
      verdict-Explains replies left first raw (parts.validate raw) rest reply refl h
  reply-Explains replies left first Reply.unavailable rest reply h =
      inl (first, omega arith, omega arith, (λ m low high. absurd (omega arith)), rw reply tt)
  reply-Explains replies left first Reply.broken rest reply h =
      inl (first, omega arith, omega arith, (λ m low high. absurd (omega arith)), rw reply tt)

  attempt_from-Explains :
      (replies : ℕ → Reply) (left first : ℕ)
      → Explains replies left first (attempt_from parts replies left first)
  unfolding attempt_from
  attempt_from-Explains replies zero first = inr ((λ m low high. absurd (omega arith)), refl)
  attempt_from-Explains replies (suc left) first =
      reply-Explains replies left first (replies first)
        (attempt_from parts replies left (suc first)) refl
        (attempt_from-Explains replies left (suc first))

  -- With enough evidence and a provider, the answer is that of the first attempt, of at most
  -- `generation_retries + 1`, that the provider answers with a valid answer or fails: the assembled payload of the
  -- valid answer, or the error where it cannot be assembled, or the synthesized answer for the failure. Where every attempt is answered and
  -- none is valid, it is a refusal because the generation is unavailable.
  pub generate-Explains :
      (replies : ℕ → Reply)
      → (result : Attempted P) × (Explains replies (suc parts.generation_retries) 1 result)
        × (generate parts true (some replies) ≡ answer_of parts result)
  unfolding generate
  generate-Explains replies = (
    attempt_from parts replies (suc parts.generation_retries) 1,
    attempt_from-Explains replies (suc parts.generation_retries) 1,
    refl,
  )
