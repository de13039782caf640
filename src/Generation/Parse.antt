-- ===== src/Generation/Parse.antt =====
-- `_parse_json` of app/services/generation/validation.py: the fences of a code block around the answer.
-- `json.loads` is a parameter, and so is the value of a decimal digit in the Unicode database. `none`
-- stands for `GenerationValidationError`.
use fiqhmind_ai_backend.Prelude.{
  ℕ, Bool, true, false, not, ◌&&◌, ◌||◌, Option, none, some, List, [], ◌∷◌, ◌++◌, reverse, leb,
  ◌==◌, if◌then◌else◌, is_empty,
}
use fiqhmind_ai_backend.Text.{Text, codes, strip, join}
use fiqhmind_ai_backend.Generation.Json.{Json, text_eq}

-- the parameters of the module
pub record Reader : Type 0 where
  -- `json.loads`; `none` for `JSONDecodeError`
  pub loads : Text → Option Json
  -- the value of a character that `\d` matches
  pub digit : ℕ → Option ℕ

-- a step that can raise, and the rest of the code
abbrev pub and_then : {A B : Type 0} → Option A → (A → Option B) → Option B
and_then none f = none
and_then (some x) f = f x

-- `if not test: raise …`
abbrev pub check : Bool → Option (Unit {0})
check true = some tt
check false = none

-- a line boundary of `str.splitlines`
abbrev pub is_break : ℕ → Bool
is_break c = leb 10 c && leb c 13 || leb 28 c && leb c 30 || c == 133 || c == 8232 || c == 8233

-- `text.splitlines()`, with the current line, after a carriage return or not
unfoldable pub lines_from : Bool → Text → Text → List Text
lines_from after_cr line [] = if is_empty line then [] else line ∷ []
lines_from after_cr line (c ∷ rest) =
    let skip = after_cr && c == 10 in
    let ends = not skip && is_break c in
    let more =
      lines_from (ends && c == 13) (if skip then line else if ends then [] else line ++ c ∷ [])
        rest in
    if ends then line ∷ more else more

-- `text.startswith(prefix)`, with the rest of the text
abbrev pub after_prefix : Text → Text → Option Text
after_prefix [] t = some t
after_prefix (p ∷ ps) [] = none
after_prefix (p ∷ ps) (c ∷ t) = if c == p then after_prefix ps t else none

abbrev pub starts_with : Text → Text → Bool
starts_with prefix t = elim (after_prefix prefix t) [ none ↦ false | some _ ↦ true ]

-- the fence of a code block
abbrev pub fence : Text
fence = codes "```"

-- `if lines and lines[0].strip().startswith("```"): lines = lines[1:]`
abbrev pub drop_fence : List Text → List Text
unfolding strip
drop_fence [] = []
drop_fence (line ∷ lines) = if starts_with fence (strip line) then lines else line ∷ lines

-- `if lines and lines[-1].strip() == "```": lines = lines[:-1]`, of the lines from the last one on
abbrev pub drop_end : List Text → List Text
unfolding strip
drop_end [] = []
drop_end (line ∷ lines) = if text_eq (strip line) fence then lines else line ∷ lines

-- the text inside of a fence
abbrev pub unfenced : Text → Text
unfolding lines_from drop_fence drop_end strip join
unfenced t =
    if starts_with fence t
    then strip (join (10 ∷ []) (reverse (drop_end (reverse (drop_fence (lines_from false [] t))))))
    else t

-- `_parse_json`
unfoldable pub parse_json : Reader → Text → Option Json
unfolding unfenced strip
parse_json r raw = r.loads (unfenced (strip raw))
