-- ===== src/Chunking/Boundaries.antt =====
-- The levels and cut points of app/services/chunking.py: `_primary_level`, `_boundary_levels`,
-- `_sub_levels`, `_boundary_starts`, `_page_continues`, `_split_range` and `_context_at`.
pub mod Cuts
use fiqhmind_ai_backend.Prelude.{
  ℕ, zero, suc, ◌+◌, ◌-◌, Bool, true, false, not, ◌&&◌, Option, none, some, List, [], ◌∷◌, ◌++◌,
  ltb, leb, ◌==◌, if◌then◌else◌, is_empty, length, take, drop, select, any, flat_map,
}
use fiqhmind_ai_backend.Text.{Text, count_words}
use fiqhmind_ai_backend.Chunking.Types.{Level, kitab, bab, fasl, topic, BodyUnit}
use fiqhmind_ai_backend.Chunking.Ranges.{sorted_set, ranges}

-- the position of a level in `_CONTEXT_KEYS`
abbrev pub key_index : Level → ℕ
key_index kitab = 0
key_index bab = 1
key_index fasl = 2
key_index topic = 3

-- `_CONTEXT_KEYS`
abbrev pub context_keys : List Level
context_keys = kitab ∷ bab ∷ fasl ∷ topic ∷ []

-- `_LEVEL_PRIORITY`
abbrev pub level_priority : List Level
level_priority = bab ∷ fasl ∷ kitab ∷ []

abbrev pub level_eq : Level → Level → Bool
level_eq a b = key_index a == key_index b

-- `unit.level == level`
abbrev pub has_level : Level → BodyUnit → Bool
has_level level unit = elim unit.level [ none ↦ false | some l ↦ level_eq l level ]

-- `unit.level is None`
abbrev pub is_body : BodyUnit → Bool
is_body unit = elim unit.level [ none ↦ true | some _ ↦ false ]

-- the loop of `_primary_level` over the levels still to try
unfoldable pub first_present : List BodyUnit → List Level → Option Level
first_present units [] = none
first_present units (level ∷ levels) =
    if any (has_level level) units then some level else first_present units levels

-- `_primary_level`
unfoldable pub primary_level : List BodyUnit → Option Level
unfolding first_present
primary_level units = first_present units level_priority

-- `_boundary_levels`, a set as a list
abbrev pub boundary_levels : Option Level → List Level
boundary_levels none = []
boundary_levels (some primary) = take (key_index primary + 1) context_keys

-- `_sub_levels`
abbrev pub sub_levels : Option Level → List Level
sub_levels none = []
sub_levels (some primary) = drop (key_index primary + 1) context_keys

-- `unit.level is not None and unit.level in boundary_levels`
abbrev pub is_boundary : List Level → BodyUnit → Bool
is_boundary levels unit = any (λ level. has_level level unit) levels

-- the loop of `_page_continues`, with `last`
unfoldable pub last_on_page : ℕ → Option BodyUnit → List BodyUnit → Option BodyUnit
last_on_page page last [] = last
last_on_page page none (unit ∷ units) =
    last_on_page page (if unit.pdf_page == page then some unit else none) units
last_on_page page (some last) (unit ∷ units) =
    let here = last_on_page page (some unit) units in
    let later = last_on_page page (some last) units in
    if unit.pdf_page == page then here else if ltb page unit.pdf_page then some last else later

-- the return of `_page_continues`
abbrev pub runs_on : Option BodyUnit → Bool
runs_on none = false
runs_on (some last) = if is_body last then not last.ends_sentence else false

-- `_page_continues`
unfoldable pub page_continues : List BodyUnit → ℕ → Bool
unfolding last_on_page
page_continues units page = runs_on (last_on_page page none units)

-- the indices that one turn of the loop of `_boundary_starts` appends
abbrev pub starts_at : List BodyUnit → List Level → ℕ → ℕ → BodyUnit → List ℕ
starts_at units levels current_page index unit =
    (if is_boundary levels unit then index ∷ [] else [])
    ++ (if unit.pdf_page == current_page
        then []
        else if page_continues units current_page
        then []
        else index ∷ [])

-- the loop of `_boundary_starts`, with `current_page` and the index
unfoldable pub starts_from : List BodyUnit → List Level → ℕ → ℕ → List BodyUnit → List ℕ
unfolding page_continues
starts_from units levels current_page index [] = []
starts_from units levels current_page index (unit ∷ rest) =
    starts_at units levels current_page index unit
    ++ starts_from units levels
        (if unit.pdf_page == current_page then current_page else unit.pdf_page) (index + 1) rest

-- `_boundary_starts` of the units `first ∷ rest`: it reads `units[0]`
unfoldable pub boundary_starts : BodyUnit → List BodyUnit → List Level → List ℕ
unfolding starts_from sorted_set
boundary_starts first rest levels =
    sorted_set (starts_from (first ∷ rest) levels first.pdf_page 0 (first ∷ rest))

-- `[units[index] for index in range(start, end)]`
abbrev pub slice : List BodyUnit → ℕ × ℕ → List BodyUnit
slice units r = take (r.1 - r.0) (drop r.0 units)

-- `[units[index] for index in range(start, end) if units[index].level is None]`
abbrev pub body_units : List BodyUnit → ℕ × ℕ → List BodyUnit
body_units units r = select is_body (slice units r)

-- `sum(_count_tokens(unit.text) …)`
abbrev pub unit_tokens : List BodyUnit → ℕ
unit_tokens [] = 0
unit_tokens (unit ∷ units) = count_words unit.text + unit_tokens units

-- `[index for index in … if units[index].level == level]`, from the index of the first unit
abbrev pub level_indices : Level → ℕ → List BodyUnit → List ℕ
level_indices level index [] = []
level_indices level index (unit ∷ units) =
    let later = level_indices level (index + 1) units in
    if has_level level unit then index ∷ later else later

-- `_split_range`: the recursion drops the first of `sub_levels` at each call.
unfoldable pub split_range : List BodyUnit → ℕ → List Level → ℕ × ℕ → List (ℕ × ℕ)
unfolding ranges
split_range units max_tokens [] r = r ∷ []
split_range units max_tokens (next_level ∷ levels) r =
    if leb (unit_tokens (body_units units r)) max_tokens
    then r ∷ []
    else let heading_starts = level_indices next_level r.0 (slice units r) in
      if is_empty heading_starts
      then r ∷ []
      else flat_map (split_range units max_tokens levels) (ranges heading_starts r.1 r.0)
