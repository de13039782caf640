-- ===== src/Generation/Json.antt =====
-- The values of `json.loads`, as app/services/generation/validation.py reads them. A number stands for
-- the text that `str` gives of it.
use text.Mathlib.Text.{◌==◌ as str_eq}
use fiqhmind_ai_backend.Prelude.{
  ◌≡◌, refl, Bool, true, false, ◌&&◌, String, List, [], ◌∷◌, arith, ◌==◌, if◌then◌else◌, any,
}
use fiqhmind_ai_backend.Text.{Text}

mutual
  pub data Json : Type 0 where
    null : Json
    flag : Bool → Json
    number : Text → Json
    str : Text → Json
    array : Items → Json
    object : Fields → Json

  pub data Items : Type 0 where
    no_items : Items
    item : Json → Items → Items

  pub data Fields : Type 0 where
    no_fields : Fields
    entry : String → Json → Fields → Fields

-- the elements of an array
abbrev pub elements : Items → List Json
elements no_items = []
elements (item j rest) = j ∷ elements rest

-- `d.get(key)`: `None` without the key
abbrev pub get_field : String → Fields → Json
get_field key no_fields = null
get_field key (entry k j rest) = if str_eq k key then j else get_field key rest

-- `key in d`
abbrev pub has_field : String → Fields → Bool
has_field key no_fields = false
has_field key (entry k j rest) = if str_eq k key then true else has_field key rest

-- `d[key] = value`
abbrev pub put_field : String → Json → Fields → Fields
put_field key value no_fields = entry key value no_fields
put_field key value (entry k j rest) =
    if str_eq k key then entry k value rest else entry k j (put_field key value rest)

-- `d.setdefault(key, value)`
abbrev pub default_field : String → Json → Fields → Fields
default_field key value fields = if has_field key fields then fields else put_field key value fields

-- two texts are equal
abbrev pub text_eq : Text → Text → Bool
text_eq [] [] = true
text_eq (a ∷ s) (b ∷ t) = (a == b) && text_eq s t
text_eq _ _ = false

pub text_eq_sound : (s t : Text) → text_eq s t ≡ true → s ≡ t
text_eq_sound [] [] h = refl
text_eq_sound [] (b ∷ t) h = ground arith
text_eq_sound (a ∷ s) [] h = ground arith
text_eq_sound (a ∷ s) (b ∷ t) h = ground (arith, text_eq_sound s t)

-- `text in texts`
abbrev pub is_text_in : Text → List Text → Bool
is_text_in t texts = any (λ s. text_eq s t) texts
