-- ===== src/Chunking/Context/Latest.antt =====
-- The context of a chunk: for each level, the last heading of that level at or before its start.
use fiqhmind_ai_backend.Prelude.{
  ℕ, ◌+◌, ◌≡◌, refl, Option, none, some, List, [], ◌∷◌, arith, take, if◌then◌else◌,
}
use fiqhmind_ai_backend.Text.{Text}
use fiqhmind_ai_backend.Chunking.Types.{Level, kitab, bab, fasl, topic, BodyUnit}
use fiqhmind_ai_backend.Chunking.Boundaries.{has_level}
use fiqhmind_ai_backend.Chunking.Context.{
  Context, no_context, name_of, note_heading, context_from, context_at,
}

-- The name of the last heading of a level among the units.
abbrev pub latest : Level → List BodyUnit → Option Text
latest level [] = none
latest level (unit ∷ units) = elim (latest level units) [
  | some name ↦ some name
  | none ↦ if has_level level unit then some unit.text else none
]

abbrev or_else : Option Text → Option Text → Option Text
or_else (some name) other = some name
or_else none other = other

name_of-note_heading :
    (level : Level) (unit : BodyUnit) (c : Context)
    → name_of level (note_heading unit.level unit.text c)
      ≡ (if has_level level unit then some unit.text else name_of level c)
name_of-note_heading kitab unit c = ground arith
name_of-note_heading bab unit c = ground arith
name_of-note_heading fasl unit c = ground arith
name_of-note_heading topic unit c = ground arith

name_of-context_from :
    (level : Level) (c : Context) (units : List BodyUnit)
    → name_of level (context_from c units) ≡ or_else (latest level units) (name_of level c)
unfolding context_from
name_of-context_from level c [] = refl
name_of-context_from level c (unit ∷ units) = ground (
  arith,
  name_of-context_from level (note_heading unit.level unit.text c) units,
  name_of-note_heading level unit c,
)

or_else-none : (o : Option Text) → or_else o none ≡ o
or_else-none none = refl
or_else-none (some name) = refl

name_of-no_context : (level : Level) → name_of level no_context ≡ none
name_of-no_context kitab = refl
name_of-no_context bab = refl
name_of-no_context fasl = refl
name_of-no_context topic = refl

-- The context at a unit names, for each level, the last heading of that level among the units up to
-- that unit, this one included, and no heading where there is none.
pub name_of-context_at :
    (level : Level) (units : List BodyUnit) (start : ℕ)
    → name_of level (context_at units start) ≡ latest level (take (start + 1) units)
unfolding context_at
name_of-context_at level units start =
    rw (name_of-context_from level no_context (take (start + 1) units), name_of-no_context level)
      (or_else-none (latest level (take (start + 1) units)))
