-- ===== src/Tests/RateRuns.antt =====
-- Four checks against a limit of two a minute.
use fiqhmind_ai_backend.Prelude.{ℕ, ◌≤◌, List, [], ◌∷◌, arith}
use fiqhmind_ai_backend.RateLimit.Window.{count_allowed, count_allowed-check}

abbrev times : List ℕ
times = 100 ∷ 62 ∷ 61 ∷ 10 ∷ []

count_allowed-check_example : count_allowed 2 60 110 times ≤ 2
count_allowed-check_example =
    count_allowed-check 2 60 110 times
      (omega arith, (omega arith, (omega arith, (omega arith, tt))))
