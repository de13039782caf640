-- ===== src/RateLimit.antt =====
-- app/services/rate_limit.py, for one scope: `RateLimiter._check` and `remaining` over the sorted
-- set that Redis holds for it, the times of the attempts. Times are whole seconds. The expiry of the key removes nothing that the next check would keep.
pub mod Window
use fiqhmind_ai_backend.Prelude.{
  ℕ, suc, ◌+◌, ◌-◌, max, min, Bool, true, false, not, List, [], ◌∷◌, leb, if◌then◌else◌, length,
  select,
}

-- the members that `zremrangebyscore(key, 0, now - window_seconds)` leaves
abbrev pub is_recent : ℕ → ℕ → ℕ → Bool
is_recent window now t = not (leb (t + window) now)

-- the members of the set, of `attempts` before
abbrev pub record_attempt : ℕ → ℕ → List ℕ → List ℕ
record_attempt window now attempts = now ∷ select (is_recent window now) attempts

-- the score of `zrange(key, 0, 0)`
abbrev pub oldest : ℕ → List ℕ → ℕ
oldest t [] = t
oldest t (s ∷ ts) = oldest (min t s) ts

-- the result of `_check`
pub record Verdict : Type 0 where
  pub allowed : Bool
  pub retry_after : ℕ

-- `max(1, int(window_seconds - (now - oldest)) + 1)`
abbrev pub retry_after_of : ℕ → ℕ → ℕ → List ℕ → ℕ
retry_after_of window now first rest = max 1 (suc ((oldest first rest + window) - now))

-- `_check`: the verdict, and the set after it
unfoldable pub check : ℕ → ℕ → ℕ → List ℕ → Verdict × List ℕ
check limit window now attempts =
    let kept = record_attempt window now attempts in
    (
      (if leb (length kept) limit then record { allowed = true; retry_after = 0 } else record {
        allowed = false;
        retry_after = retry_after_of window now now (select (is_recent window now) attempts);
      }),
      kept,
    )

-- `remaining`
unfoldable pub remaining : ℕ → ℕ → ℕ → List ℕ → ℕ
remaining limit window now attempts = limit - length (select (is_recent window now) attempts)

-- The set after the checks at some times, the newest first.
unfoldable pub attempts_after : ℕ → ℕ → List ℕ → List ℕ
unfolding check
attempts_after limit window [] = []
attempts_after limit window (now ∷ earlier) =
    (check limit window now (attempts_after limit window earlier)).1

-- Whether the check at the newest time is allowed.
unfoldable pub is_allowed : ℕ → ℕ → ℕ → List ℕ → Bool
unfolding check attempts_after
is_allowed limit window now earlier =
    (check limit window now (attempts_after limit window earlier)).0.allowed
