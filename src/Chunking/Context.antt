-- ===== src/Chunking/Context.antt =====
-- `_context_at` and `_build_context_heading` of app/services/chunking.py.
pub mod Latest
use fiqhmind_ai_backend.Prelude.{
  ℕ, ◌+◌, Option, none, some, List, [], ◌∷◌, ◌++◌, take, if◌then◌else◌, is_empty,
}
use fiqhmind_ai_backend.Text.{Text, codes, join}
use fiqhmind_ai_backend.Chunking.Types.{Level, kitab, bab, fasl, topic, BodyUnit}

-- the dictionary that `_context_at` builds: it has the four keys from the start
pub record Context : Type 0 where
  pub kitab : Option Text
  pub bab : Option Text
  pub fasl : Option Text
  pub topic : Option Text

abbrev pub no_context : Context
no_context = record { kitab = none; bab = none; fasl = none; topic = none }

-- `context[level]`
abbrev pub name_of : Level → Context → Option Text
name_of kitab c = c.kitab
name_of bab c = c.bab
name_of fasl c = c.fasl
name_of topic c = c.topic

-- `context[level] = text`
abbrev pub put_name : Level → Text → Context → Context
put_name kitab text c = record c { kitab = some text }
put_name bab text c = record c { bab = some text }
put_name fasl text c = record c { fasl = some text }
put_name topic text c = record c { topic = some text }

abbrev pub note_heading : Option Level → Text → Context → Context
note_heading none text c = c
note_heading (some level) text c = put_name level text c

-- the loop of `_context_at`
unfoldable pub context_from : Context → List BodyUnit → Context
context_from c [] = c
context_from c (unit ∷ units) = context_from (note_heading unit.level unit.text c) units

-- `_context_at`
unfoldable pub context_at : List BodyUnit → ℕ → Context
unfolding context_from
context_at units start = context_from no_context (take (start + 1) units)

-- `f"{label}: {name}"`, if the name is there and not empty
abbrev pub heading_line : Text → Option Text → List Text
heading_line label none = []
heading_line label (some name) = if is_empty name then [] else (label ++ (codes ": " ++ name)) ∷ []

abbrev pub heading_lines : Context → List Text
heading_lines c =
    heading_line (codes "Kitab") c.kitab
    ++ heading_line (codes "Bab") c.bab
    ++ heading_line (codes "Fasl") c.fasl
    ++ heading_line (codes "Topic") c.topic

-- `text or None`
abbrev pub or_none : Text → Option Text
or_none [] = none
or_none (c ∷ text) = some (c ∷ text)

-- `_build_context_heading`
unfoldable pub build_context_heading : Context → Option Text
unfolding join
build_context_heading c = or_none (join (codes "\n") (heading_lines c))
