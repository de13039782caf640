-- ===== src/Metadata/Structures/Closing.antt =====
-- What holds of the sections that are closed and of those that are open.
use fiqhmind_ai_backend.Prelude.{
  ℕ, ◌≤◌, ◌<◌, ◌≡◌, refl, sym, subst, inl, inr, Bool, true, false, not, ◌||◌, Option, none, some,
  List, [], ◌∷◌, ◌++◌, ltb, Bool-cases, if◌then◌else◌, All, All-append, arith,
}
use fiqhmind_ai_backend.Text.{Text}
use fiqhmind_ai_backend.Metadata.Types.{Heading, kitab, bab, fasl, topic, heading_eq, Structure}
use fiqhmind_ai_backend.Metadata.Structures.{Current, get_level, put_level, Sections}

-- Of two sections of one level the first ends before the other starts.
abbrev pub apart : {F : Type 0} → Structure F → Structure F → Bool
apart s t = not (heading_eq s.level t.level) || ltb s.page_end t.page_start

-- the sections in the order in which they are recorded
abbrev pub Separate : {F : Type 0} → List (Structure F) → Type 0
Separate [] = Unit
Separate (s ∷ ss) = All (λ t. apart s t ≡ true) ss × Separate ss

-- A section starts no later than it ends.
abbrev pub IsRange : {F : Type 0} → Structure F → Type 0
IsRange s = s.page_start ≤ s.page_end

-- It ends before the open section of its level starts, which is there.
abbrev pub closed_before : {F : Type 0} → Structure F → Option (Text × ℕ) → Bool
closed_before s none = false
closed_before s (some section) = ltb s.page_end section.1

abbrev pub Closed : {F : Type 0} → Current → Structure F → Type 0
Closed current s = closed_before s (get_level s.level current) ≡ true

-- An open section starts at a page so far.
abbrev pub Started : ℕ → Heading × (Text × ℕ) → Type 0
Started n entry = entry.1.1 ≤ n

-- Each level is open once.
abbrev pub other_level : Heading → Heading × (Text × ℕ) → Bool
other_level level entry = not (heading_eq entry.0 level)

abbrev pub Once : Current → Type 0
Once [] = Unit
Once (entry ∷ current) = All (λ e. other_level entry.0 e ≡ true) current × Once current

pub record Good (F : Type 0) (n : ℕ) (s : Sections F) : Type 0 where
  pub ranges : All IsRange s.structures
  pub separate : Separate s.structures
  pub closed : All (Closed s.current) s.structures
  pub started : All (Started n) s.current
  pub once : Once s.current

-- what a level that is looked up is
get_level-put_level :
    (l level : Heading) (section : Text × ℕ) (current : Current)
    → get_level l (put_level level section current)
      ≡ (if heading_eq level l then some section else get_level l current)
get_level-put_level l level section [] = refl
get_level-put_level l level section ((k, old) ∷ current) =
    ground (arith, get_level-put_level l level section current)

pub put_level-Started :
    (n : ℕ) (level : Heading) (section : Text × ℕ) (current : Current)
    → section.1 ≤ n
    → All (Started n) current
    → All (Started n) (put_level level section current)
put_level-Started n level section [] h k = (h, tt)
put_level-Started n level section ((l, old) ∷ current) h k =
    elim (Bool-cases (heading_eq l level)) [
      | inl same ↦ rw same (h, k.1)
      | inr other ↦ rw other (k.0, put_level-Started n level section current h k.1)
    ]

put_level-other :
    (l level : Heading) (section : Text × ℕ) (current : Current)
    → not (heading_eq level l) ≡ true
    → All (λ e. other_level l e ≡ true) current
    → All (λ e. other_level l e ≡ true) (put_level level section current)
put_level-other l level section [] h k = (h, tt)
put_level-other l level section ((j, old) ∷ current) h k = elim (Bool-cases (heading_eq j level)) [
  | inl same ↦ rw same (k.0, k.1)
  | inr other ↦ rw other (k.0, put_level-other l level section current h k.1)
]

pub put_level-Once :
    (level : Heading) (section : Text × ℕ) (current : Current)
    → Once current
    → Once (put_level level section current)
put_level-Once level section [] h = (tt, tt)
put_level-Once level section ((l, old) ∷ current) h = elim (Bool-cases (heading_eq l level)) [
  | inl same ↦ rw same (h.0, h.1)
  | inr other ↦ rw other (
    put_level-other l level section current (ground arith) h.0,
    put_level-Once level section current h.1,
  )
]

pub heading_eq→≡ : (a b : Heading) → heading_eq a b ≡ true → a ≡ b
heading_eq→≡ kitab kitab h = refl
heading_eq→≡ bab bab h = refl
heading_eq→≡ fasl fasl h = refl
heading_eq→≡ topic topic h = refl
heading_eq→≡ kitab bab h = cc
heading_eq→≡ kitab fasl h = cc
heading_eq→≡ kitab topic h = cc
heading_eq→≡ bab kitab h = cc
heading_eq→≡ bab fasl h = cc
heading_eq→≡ bab topic h = cc
heading_eq→≡ fasl kitab h = cc
heading_eq→≡ fasl bab h = cc
heading_eq→≡ fasl topic h = cc
heading_eq→≡ topic kitab h = cc
heading_eq→≡ topic bab h = cc
heading_eq→≡ topic fasl h = cc

module _ {F : Type 0} where
  pub Separate-append :
      (ss : List (Structure F)) (t : Structure F)
      → Separate ss
      → All (λ s. apart s t ≡ true) ss
      → Separate (ss ++ t ∷ [])
  Separate-append [] t h k = (tt, tt)
  Separate-append (s ∷ ss) t h k =
      (All-append (λ u. apart s u ≡ true) ss (t ∷ []) h.0 (k.0, tt), Separate-append ss t h.1 k.1)

  -- A heading opens a section of its level; what is closed there stays closed.
  pub Closed-put_level :
      (s : Structure F) (level : Heading) (name text : Text) (first number : ℕ) (current : Current)
      → get_level level current ≡ some (name, first)
      → first ≤ number
      → Closed current s
      → Closed (put_level level (text, number) current) s
  Closed-put_level s level name text first number current e le h =
      elim (Bool-cases (heading_eq level s.level)) [
        | inl same ↦
            let level_same = heading_eq→≡ level s.level same in
            let here : closed_before s (some (name, first)) ≡ true =
              subst (λ o. closed_before s o ≡ true) e
                (subst (λ l. closed_before s (get_level l current) ≡ true) (sym level_same) h) in
            rw (get_level-put_level s.level level (text, number) current, same) (ground arith)
        | inr other ↦ rw (get_level-put_level s.level level (text, number) current, other) h
      ]

  -- Nothing of a level is closed that is not open.
  pub Closed-new_level :
      (s : Structure F) (level : Heading) (section : Text × ℕ) (current : Current)
      → get_level level current ≡ none
      → Closed current s
      → Closed (put_level level section current) s
  Closed-new_level s level section current e h = elim (Bool-cases (heading_eq level s.level)) [
    | inl same ↦
        let level_same = heading_eq→≡ level s.level same in
        let never : closed_before s none ≡ true =
          subst (λ o. closed_before s o ≡ true) e
            (subst (λ l. closed_before s (get_level l current) ≡ true) (sym level_same) h) in
        absurd (ground arith)
    | inr other ↦ rw (get_level-put_level s.level level section current, other) h
  ]

  -- What is closed is apart from the open section of its level.
  pub Closed-apart :
      (s t : Structure F) (name : Text) (current : Current)
      → get_level t.level current ≡ some (name, t.page_start)
      → Closed current s
      → apart s t ≡ true
  Closed-apart s t name current e h = elim (Bool-cases (heading_eq s.level t.level)) [
    | inl same ↦
        let here : closed_before s (some (name, t.page_start)) ≡ true =
          subst (λ o. closed_before s o ≡ true) e
            (subst (λ l. closed_before s (get_level l current) ≡ true)
              (heading_eq→≡ s.level t.level same) h) in
        rw same here
    | inr other ↦ rw other refl
  ]

abbrev pub StartedAt : ℕ → Option (Text × ℕ) → Type 0
StartedAt n none = Unit
StartedAt n (some section) = section.1 ≤ n

pub get_level-StartedAt :
    (n : ℕ) (level : Heading) (current : Current)
    → All (Started n) current
    → StartedAt n (get_level level current)
get_level-StartedAt n level [] h = tt
get_level-StartedAt n level ((l, section) ∷ current) h = elim (Bool-cases (heading_eq l level)) [
  | inl same ↦ rw same h.0
  | inr other ↦ rw other (get_level-StartedAt n level current h.1)
]

heading_eq_refl : (level : Heading) → heading_eq level level ≡ true
heading_eq_refl level = ground arith

-- The section that a heading closes is closed before the heading.
pub Closed-here :
    {F : Type 0} (s : Structure F) (text : Text) (number : ℕ) (current : Current)
    → s.page_end < number
    → Closed (put_level s.level (text, number) current) s
Closed-here s text number current h =
    rw (get_level-put_level s.level s.level (text, number) current, heading_eq_refl s.level)
      (ground arith)
