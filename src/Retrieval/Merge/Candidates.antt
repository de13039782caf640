-- ===== src/Retrieval/Merge/Candidates.antt =====
-- The candidate queries that are still to be searched (`_remaining_candidates` of
-- app/services/retrieval.py).
use text.Mathlib.Text.{◌==◌ as str_eq}
use text.Mathlib.TextEquality.{eq_iff}
use fiqhmind_ai_backend.Prelude.{
  ◌≡◌, refl, ◌⊎◌, inl, inr, Bool, true, false, ◌||◌, String, List, [], ◌∷◌, arith, if◌then◌else◌,
  Bool-cases, All, any,
}
use fiqhmind_ai_backend.Retrieval.Dict.{Distinct, OtherName}
use fiqhmind_ai_backend.Retrieval.Merge.{
  CandidateQuery, is_in, remaining_from, remaining_candidates,
}

abbrev pub text_of : CandidateQuery → String
text_of c = c.text

-- some candidate has the text
abbrev pub HasText : String → List CandidateQuery → Type 0
HasText text cs = any (λ c. str_eq text c.text) cs ≡ true

-- a candidate is the query already searched, or has a search of its own
abbrev pub IsSearched : String → List CandidateQuery → CandidateQuery → Type 0
IsSearched original remaining c = (str_eq c.text original ≡ true) ⊎ HasText c.text remaining

-- a candidate that is new to the set `seen`
abbrev IsNew : List String → CandidateQuery → Type 0
IsNew seen c = is_in c.text seen ≡ false

-- a candidate is covered: by the query, by the set or by the remaining ones
abbrev IsCovered : String → List String → List CandidateQuery → CandidateQuery → Type 0
IsCovered original seen remaining c =
    ((str_eq c.text original || is_in c.text seen) ≡ true) ⊎ HasText c.text remaining

IsNew-rest :
    (c : CandidateQuery) (seen : List String) (cs : List CandidateQuery)
    → All (IsNew (c.text ∷ seen)) cs
    → All (OtherName text_of c.text) cs × All (IsNew seen) cs
IsNew-rest c seen [] h = (tt, tt)
IsNew-rest c seen (x ∷ cs) h =
    let rest = IsNew-rest c seen cs h.1 in
    (
      (ground (arith, eq_iff c.text x.text, eq_iff x.text c.text), rest.0),
      (ground (arith, eq_iff c.text x.text), rest.1),
    )

remaining_from-IsNew :
    (original : String) (seen : List String) (cs : List CandidateQuery)
    → All (IsNew seen) (remaining_from original seen cs)
      × (All (OtherName text_of original) (remaining_from original seen cs)
          × Distinct text_of (remaining_from original seen cs))
unfolding remaining_from
remaining_from-IsNew original seen [] = (tt, (tt, tt))
remaining_from-IsNew original seen (c ∷ cs) =
    elim (Bool-cases (str_eq c.text original || is_in c.text seen)) [
      | inl old ↦ rw old (remaining_from-IsNew original seen cs)
      | inr new ↦
          let later = remaining_from-IsNew original (c.text ∷ seen) cs in
          let rest = IsNew-rest c seen (remaining_from original (c.text ∷ seen) cs) later.0 in
          rw new ((ground arith, rest.1), ((ground arith, later.1.0), (rest.0, later.1.1)))
    ]

IsCovered-step :
    (original : String) (seen : List String) (c x : CandidateQuery) (rem : List CandidateQuery)
    → IsCovered original (c.text ∷ seen) rem x
    → IsCovered original seen (c ∷ rem) x
IsCovered-step original seen c x rem (inl h) = elim (Bool-cases (str_eq c.text x.text)) [
  | inl same ↦ inr (ground (arith, eq_iff c.text x.text, eq_iff x.text c.text))
  | inr apart ↦ inl (ground arith)
]
IsCovered-step original seen c x rem (inr h) = inr (ground arith)

IsCovered-steps :
    (original : String) (seen : List String) (c : CandidateQuery) (cs rem : List CandidateQuery)
    → All (IsCovered original (c.text ∷ seen) rem) cs
    → All (IsCovered original seen (c ∷ rem)) cs
IsCovered-steps original seen c [] rem h = tt
IsCovered-steps original seen c (x ∷ cs) rem h =
    (IsCovered-step original seen c x rem h.0, IsCovered-steps original seen c cs rem h.1)

IsCovered-next :
    (original : String) (seen : List String) (c : CandidateQuery) (cs rem : List CandidateQuery)
    (covered : Bool)
    → (str_eq c.text original || is_in c.text seen) ≡ covered
    → All (IsCovered original (if covered then seen else c.text ∷ seen) rem) cs
    → All (IsCovered original seen (if covered then rem else c ∷ rem)) (c ∷ cs)
IsCovered-next original seen c cs rem true test h = (inl test, h)
IsCovered-next original seen c cs rem false test h =
    (inr (ground (arith, eq_iff c.text c.text)), IsCovered-steps original seen c cs rem h)

remaining_from-IsCovered :
    (original : String) (seen : List String) (cs : List CandidateQuery)
    → All (IsCovered original seen (remaining_from original seen cs)) cs
unfolding remaining_from
remaining_from-IsCovered original seen [] = tt
remaining_from-IsCovered original seen (c ∷ cs) =
    let covered = str_eq c.text original || is_in c.text seen in
    IsCovered-next original seen c cs
      (remaining_from original (if covered then seen else c.text ∷ seen) cs) covered refl
      (remaining_from-IsCovered original (if covered then seen else c.text ∷ seen) cs)

IsSearched-All :
    (original : String) (cs rem : List CandidateQuery)
    → All (IsCovered original [] rem) cs
    → All (IsSearched original rem) cs
IsSearched-All original [] rem h = tt
IsSearched-All original (c ∷ cs) rem (inl covered, h) =
    (inl (ground arith), IsSearched-All original cs rem h)
IsSearched-All original (c ∷ cs) rem (inr found, h) = (inr found, IsSearched-All original cs rem h)

-- The remaining candidates have distinct texts, none of them that of the original query, and the text
-- of every candidate is that of the original query or of one of them.
pub remaining_candidates_lem :
    (candidates : List CandidateQuery) (original : String)
    → Distinct text_of (remaining_candidates candidates original)
      × (All (OtherName text_of original) (remaining_candidates candidates original)
          × All (IsSearched original (remaining_candidates candidates original)) candidates)
unfolding remaining_candidates
remaining_candidates_lem candidates original =
    let new = remaining_from-IsNew original [] candidates in
    (
      new.1.1,
      (
        new.1.0,
        IsSearched-All original candidates (remaining_from original [] candidates)
            (remaining_from-IsCovered original [] candidates),
      ),
    )
