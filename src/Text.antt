-- ===== src/Text.antt =====
-- Python's `str`, as a list of code points, with the string methods that the program calls:
-- `strip`, `split`, `join`, and the matches of `\S+`.
pub mod Laws
use Prim.Native.Char.{code}
use fiqhmind_ai_backend.Prelude.{
  ℕ, zero, suc, ◌+◌, ◌/◌, ◌%◌, ltb, String, Bool, true, false, ◌&&◌, ◌||◌, List, [], ◌∷◌, ◌++◌, leb,
  ◌==◌, if◌then◌else◌, is_empty, length,
}

abbrev pub Text : Type 0
Text = List ℕ

-- The code points of a literal.
abbrev pub codes : String → Text
codes String.[] = []
codes (String.◌∷◌ c s) = code c ∷ codes s

-- `str.isspace` of one character, which is also what `\s` matches.
unfoldable pub is_space : ℕ → Bool
is_space c =
    leb 9 c && leb c 13
    || leb 28 c && leb c 32
    || c == 133
    || c == 160
    || c == 5760
    || leb 8192 c && leb c 8202
    || c == 8232
    || c == 8233
    || c == 8239
    || c == 8287
    || c == 12288

unfoldable pub lstrip : Text → Text
unfolding is_space
lstrip [] = []
lstrip (c ∷ t) = let rest = lstrip t in if is_space c then rest else c ∷ t

unfoldable pub rstrip : Text → Text
unfolding is_space
rstrip [] = []
rstrip (c ∷ t) = let rest = rstrip t in if is_space c && is_empty rest then [] else c ∷ rest

unfoldable pub strip : Text → Text
unfolding lstrip rstrip
strip t = lstrip (rstrip t)

-- A character in front of the words of what follows it: it joins the first of them if no space
-- stands between.
unfoldable pub cons_word : Bool → ℕ → List Text → List Text
cons_word true c (w ∷ ws) = (c ∷ w) ∷ ws
cons_word _ c ws = (c ∷ []) ∷ ws

-- The text starts with a character of a word.
unfoldable pub in_word : Text → Bool
unfolding is_space
in_word [] = false
in_word (c ∷ t) = if is_space c then false else true

-- `text.split()` and `re.findall(r"\S+", text)`
unfoldable pub words : Text → List Text
unfolding cons_word in_word
words [] = []
words (c ∷ t) = let rest = words t in if is_space c then rest else cons_word (in_word t) c rest

-- `sep.join(parts)`
unfoldable pub join : Text → List Text → Text
join sep [] = []
join sep (x ∷ []) = x
join sep (x ∷ y ∷ xs) = x ++ (sep ++ join sep (y ∷ xs))

-- `len(re.findall(r"\S+", text))`
unfoldable pub count_words : Text → ℕ
unfolding words
count_words t = length (words t)

-- the digits of a number below `10 ^ fuel`, the last one last
unfoldable pub decimal_digits : ℕ → ℕ → Text
decimal_digits zero n = []
decimal_digits (suc fuel) n =
    let earlier = decimal_digits fuel (n / 10) in
    if ltb n 10 then (48 + n) ∷ [] else earlier ++ (48 + n % 10) ∷ []

-- `str(n)`: as many rounds as the number is large are more than it has digits.
unfoldable pub decimal : ℕ → Text
unfolding decimal_digits
decimal n = decimal_digits (suc n) n
