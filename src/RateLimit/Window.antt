-- ===== src/RateLimit/Window.antt =====
-- The limiter of app/services/rate_limit.py lets through no more attempts than the limit in a window.
use fiqhmind_ai_backend.Prelude.{
  ℕ, suc, ◌≤◌, ◌≡◌, refl, sym, ap, ◌∙◌, inl, inr, true, List, [], ◌∷◌, arith, leb, if◌then◌else◌,
  length, select, Bool-cases, ltb, ◌-◌,
}
use fiqhmind_ai_backend.RateLimit.{is_recent, check, attempts_after, is_allowed, remaining}

-- the number of the times within the window that ends at `now`
abbrev pub count_recent : ℕ → ℕ → List ℕ → ℕ
count_recent window now ts = length (select (is_recent window now) ts)

-- the number of the allowed ones of them; the times are those of all checks, the newest first
abbrev pub count_allowed : ℕ → ℕ → ℕ → List ℕ → ℕ
count_allowed limit window now [] = 0
count_allowed limit window now (t ∷ earlier) =
    let others = count_allowed limit window now earlier in
    if is_allowed limit window t earlier
    then if is_recent window now t then suc others else others
    else others

-- the times do not fall from the oldest to the newest, which is not after `now`
abbrev pub UpTo : ℕ → List ℕ → Type 0
UpTo now [] = Unit
UpTo now (t ∷ earlier) = (t ≤ now) × UpTo t earlier

-- what is recent later was recent earlier
is_recent-earlier :
    (window t now s : ℕ) → t ≤ now → is_recent window now s ≡ true → is_recent window t s ≡ true
is_recent-earlier window t now s h recent = ground arith

select-select :
    (window t now : ℕ) (ts : List ℕ)
    → t ≤ now
    → count_recent window now (select (is_recent window t) ts) ≡ count_recent window now ts
select-select window t now [] h = refl
select-select window t now (s ∷ ts) h =
    ground (arith, select-select window t now ts, is_recent-earlier window t now s)

UpTo-later : (t now : ℕ) (ts : List ℕ) → t ≤ now → UpTo t ts → UpTo now ts
UpTo-later t now [] h up = tt
UpTo-later t now (s ∷ ts) h up = (omega (arith, up.0), up.1)

-- the limiter's set has every recent attempt
attempts_after-count :
    (limit window now : ℕ) (ts : List ℕ)
    → UpTo now ts
    → count_recent window now (attempts_after limit window ts) ≡ count_recent window now ts
unfolding attempts_after check
attempts_after-count limit window now [] h = refl
attempts_after-count limit window now (t ∷ earlier) h =
    let rest : count_recent window now
          (select (is_recent window t) (attempts_after limit window earlier))
        ≡ count_recent window now earlier =
      select-select window t now (attempts_after limit window earlier) h.0
      ∙ attempts_after-count limit window now earlier (UpTo-later t now earlier h.0 h.1) in
    elim (Bool-cases (is_recent window now t)) [
      | inl recent ↦ rw recent (ap suc rest)
      | inr past ↦ rw past rest
    ]

count_recent-earlier :
    (window t now : ℕ) (ts : List ℕ)
    → t ≤ now
    → count_recent window now ts ≤ count_recent window t ts
count_recent-earlier window t now [] h = omega arith
count_recent-earlier window t now (s ∷ ts) h =
    ground (arith, count_recent-earlier window t now ts, is_recent-earlier window t now s)

count_recent-cons :
    (window now t : ℕ) (ts : List ℕ)
    → count_recent window now (t ∷ ts) ≤ suc (count_recent window now ts)
count_recent-cons window now t ts = ground arith

count_allowed-count_recent :
    (limit window now : ℕ) (ts : List ℕ)
    → count_allowed limit window now ts ≤ count_recent window now ts
count_allowed-count_recent limit window now [] = omega arith
count_allowed-count_recent limit window now (t ∷ earlier) =
    ground (arith, count_allowed-count_recent limit window now earlier)

is_allowed-length :
    (limit window t : ℕ) (earlier : List ℕ)
    → is_allowed limit window t earlier ≡ true
    → suc (count_recent window t (attempts_after limit window earlier)) ≤ limit
unfolding is_allowed check
is_allowed-length limit window t earlier h =
    elim (Bool-cases
      (leb (suc (count_recent window t (attempts_after limit window earlier))) limit)) [
        | inl within ↦ ground arith
        | inr over ↦ absurd (ground arith)
      ]

-- When checks are made at times that do not fall and the last one is not after `now`, at most `limit` of those
-- made within the window that ends at `now` were allowed: a check is in it if less than the window has
-- passed since.
pub count_allowed-check :
    (limit window now : ℕ) (ts : List ℕ) → UpTo now ts → count_allowed limit window now ts ≤ limit
count_allowed-check limit window now [] h = omega arith
count_allowed-check limit window now (t ∷ earlier) h =
    elim (Bool-cases (is_allowed limit window t earlier)) [
      | inr refused ↦
          let others =
            count_allowed-check limit window now earlier (UpTo-later t now earlier h.0 h.1) in
          rw refused others
      | inl allowed ↦ omega (
        arith,
        count_allowed-count_recent limit window now (t ∷ earlier),
        count_recent-earlier window t now (t ∷ earlier) h.0,
        count_recent-cons window t t earlier,
        attempts_after-count limit window t earlier h.1,
        is_allowed-length limit window t earlier allowed,
      )
    ]

allowed_test : (n limit : ℕ) → leb (suc n) limit ≡ ltb 0 (limit - n)
allowed_test n limit = ground arith

-- A check is allowed exactly where `remaining`, asked at the same time, is not 0.
pub check-remaining :
    (limit window now : ℕ) (attempts : List ℕ)
    → (check limit window now attempts).0.allowed ≡ ltb 0 (remaining limit window now attempts)
unfolding check remaining
check-remaining limit window now attempts =
    let n = count_recent window now attempts in
    elim (Bool-cases (leb (suc n) limit)) [
      | inl within ↦ rw within (sym within ∙ allowed_test n limit)
      | inr over ↦ rw over (sym over ∙ allowed_test n limit)
    ]
