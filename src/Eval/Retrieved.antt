-- ===== src/Eval/Retrieved.antt =====
-- `recall_at_k`, `mrr`, `latency_percentiles` and `_percentile` of app/services/eval/metrics.py. A set of
-- identifiers is a list; floats are those of Retrieval.Scores.
use text.Mathlib.Text.{◌==◌ as str_eq}
use fiqhmind_ai_backend.Prelude.{
  ℕ, zero, suc, ◌+◌, ◌-◌, ◌≤◌, min, ◌≡◌, refl, sym, ◌∙◌, inl, inr, Bool, false, String, Option,
  none, some, List, [], ◌∷◌, arith, leb, if◌then◌else◌, is_empty, any, take, length, get_elem?,
  Bool-cases, Among,
}
use fiqhmind_ai_backend.Retrieval.Scores.{Floats}

-- `chunk_id in expected`
abbrev pub is_expected : List String → String → Bool
is_expected expected id = any (λ other. str_eq other id) expected

-- the rank of the first expected chunk, from `rank` on: the loop of `mrr`
abbrev pub first_rank : List String → ℕ → List String → Option ℕ
first_rank expected rank [] = none
first_rank expected rank (id ∷ ids) =
    let later = first_rank expected (suc rank) ids in
    if is_expected expected id then some rank else later

module _ (fl : Floats) where
  -- `recall_at_k`; the sets meet when a retrieved chunk is expected
  unfoldable pub recall_at_k : List String → List String → ℕ → fl.F
  recall_at_k retrieved expected k =
      if is_empty expected
      then fl.zero
      else if any (is_expected expected) (take k retrieved)
      then fl.one
      else fl.zero

  -- the reciprocal of a rank
  abbrev pub reciprocal : Option ℕ → fl.F
  reciprocal none = fl.zero
  reciprocal (some rank) = fl.over fl.one rank

  -- `mrr`
  unfoldable pub mrr : List String → List String → fl.F
  mrr retrieved expected = reciprocal (first_rank expected 1 retrieved)

  -- `_percentile`; `scaled` is `int(len(ordered) * q)`
  abbrev pub value_or : Option fl.F → fl.F
  value_or none = fl.zero
  value_or (some x) = x

  unfoldable pub percentile : List fl.F → ℕ → fl.F
  percentile ordered scaled =
      if is_empty ordered
      then fl.zero
      else value_or (get_elem? ordered (min (length ordered - 1) scaled))

-- the rank is one of the first `n` from `rank` on
abbrev pub reaches : ℕ → ℕ → Option ℕ → Bool
reaches rank n none = false
reaches rank n (some r) = leb (suc r) (rank + n)

reaches-suc : (rank k : ℕ) (o : Option ℕ) → reaches (suc rank) k o ≡ reaches rank (suc k) o
reaches-suc rank k none = refl
reaches-suc rank k (some r) = ground arith

-- no rank lies before the first
none_before :
    (expected : List String) (low rank : ℕ) (retrieved : List String)
    → low ≤ rank
    → reaches low 0 (first_rank expected rank retrieved) ≡ false
none_before expected low rank [] h = refl
none_before expected low rank (id ∷ ids) h = elim (Bool-cases (is_expected expected id)) [
  | inl found ↦ rw found (ground arith)
  | inr other ↦ rw other (none_before expected low (suc rank) ids (omega arith))
]

any-take :
    (expected : List String) (k rank : ℕ) (retrieved : List String)
    → any (is_expected expected) (take k retrieved)
      ≡ reaches rank k (first_rank expected rank retrieved)
any-take expected zero rank retrieved = sym (none_before expected rank rank retrieved (omega arith))
any-take expected (suc k) rank [] = refl
any-take expected (suc k) rank (id ∷ ids) = elim (Bool-cases (is_expected expected id)) [
  | inl found ↦ rw found (ground arith)
  | inr other ↦
      rw other (
        any-take expected k (suc rank) ids
        ∙ reaches-suc rank k (first_rank expected (suc rank) ids))
]

module _ (fl : Floats) where
  -- With an expected chunk to find, the recall at `k` is 1 exactly where the rank whose reciprocal
  -- `mrr` is, that of the first expected chunk counted from 1, is at most `k`; and 0 where it is higher
  -- or no expected chunk is retrieved.
  pub recall_at_k-first_rank :
      (retrieved expected : List String) (k : ℕ)
      → is_empty expected ≡ false
      → recall_at_k fl retrieved expected k
        ≡ (if reaches 1 k (first_rank expected 1 retrieved) then fl.one else fl.zero)
  unfolding recall_at_k
  recall_at_k-first_rank retrieved expected k some_expected =
      rw (some_expected, any-take expected k 1 retrieved) refl

  get_elem?-Among :
      (xs : List fl.F) (i : ℕ) → suc i ≤ length xs → Among (value_or fl (get_elem? xs i)) xs
  get_elem?-Among [] i h = absurd (omega arith)
  get_elem?-Among (x ∷ xs) zero h = inl refl
  get_elem?-Among (x ∷ xs) (suc i) h = inr (get_elem?-Among xs i (omega arith))

  -- The percentile of latencies, of which there is one, is one of them, whatever the scaled length is.
  pub percentile-Among :
      (ordered : List fl.F) (scaled : ℕ)
      → is_empty ordered ≡ false
      → Among (percentile fl ordered scaled) ordered
  unfolding percentile
  percentile-Among [] scaled h = absurd (ground arith)
  percentile-Among (x ∷ xs) scaled h =
      get_elem?-Among (x ∷ xs) (min (length (x ∷ xs) - 1) scaled) (omega arith)
