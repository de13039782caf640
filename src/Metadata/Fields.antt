-- ===== src/Metadata/Fields.antt =====
-- The bibliographic fields from the filename and the first pages.
pub mod Distinct
use fiqhmind_ai_backend.Prelude.{
  ℕ, zero, suc, ◌+◌, ◌-◌, ◌*◌, Bool, true, false, not, ◌&&◌, ◌||◌, Option, none, some, List, [],
  ◌∷◌, ◌++◌, ltb, leb, ◌==◌, map, if◌then◌else◌, length, take, select, drop, any, is_empty, is_some,
  String,
}
use fiqhmind_ai_backend.Text.{Text, codes, strip, is_space, words, join, decimal}
use fiqhmind_ai_backend.Extraction.Types.{Floating, BlockInfo, PageInfo}
use fiqhmind_ai_backend.Layout.Columns.{zero_f, size_of}
use fiqhmind_ai_backend.Metadata.Blocks.{body_of, dominant_font}
use fiqhmind_ai_backend.Metadata.Types.{
  Source, filename, cover_page, first_pages, Field, title, author, volume, edition, publisher,
  publication_year, muhaqqiq, field_eq, MetadataField, Patterns,
}

-- `char in ARABIC_INDIC_DIGITS`
abbrev pub is_arabic_digit : ℕ → Bool
is_arabic_digit c = leb 1632 c && leb c 1641

abbrev pub all_chars : (ℕ → Bool) → Text → Bool
all_chars p [] = true
all_chars p (c ∷ t) = if p c then all_chars p t else false

-- `int(token.translate(_ARABIC_TO_LATIN))`, with the number so far
abbrev pub arabic_number : ℕ → Text → ℕ
arabic_number n [] = n
arabic_number n (c ∷ t) = arabic_number (n * 10 + (c - 1632)) t

module _ (re : Patterns) where
  -- `_normalize_arabic_number`, of a token that is not empty
  unfoldable pub normalize_arabic_number : Text → Option ℕ
  normalize_arabic_number token =
      if all_chars is_arabic_digit token then some (arabic_number 0 token) else re.ordinal token

  -- `token.isdigit()`
  abbrev pub is_digits : Text → Bool
  is_digits token = not (is_empty token) && all_chars (λ c. is_some (re.digit c)) token

  -- the loop body of `_match_value` behind a match; the later patterns
  abbrev pub value_of : Text → Option ℕ → Option Text → Option Text
  value_of token (some n) later = some (decimal n)
  value_of token none later = if is_digits token then some token else later

  abbrev pub after_match : Option Text → Option Text → Option Text
  after_match none later = later
  after_match (some token) later = value_of token (normalize_arabic_number token) later

  -- `_match_value`
  unfoldable pub match_value : Text → List (Text → Option Text) → Option Text
  unfolding normalize_arabic_number
  match_value text [] = none
  match_value text (pattern ∷ patterns) = after_match (pattern text) (match_value text patterns)

  abbrev pub last_match : List (ℕ × ℕ) → Option (ℕ × ℕ)
  last_match [] = none
  last_match (m ∷ []) = some m
  last_match (m ∷ n ∷ ms) = last_match (n ∷ ms)

  abbrev pub split_at : Text → Option (ℕ × ℕ) → Text × Option Text
  split_at stem none = (stem, none)
  split_at stem (some m) =
      let author = strip (drop m.1 stem) in
      if is_empty author then (stem, none) else (take m.0 stem, some author)

  -- `_extract_author`
  unfoldable pub extract_author : Text → Text × Option Text
  extract_author stem = split_at stem (last_match (re.separators stem))

-- `_remove_matches`
abbrev pub remove_matches : List (Text → Text) → Text → Text
remove_matches [] text = text
remove_matches (sub ∷ subs) text = remove_matches subs (sub text)

-- `text.strip(chars)`
abbrev pub lstrip_of : (ℕ → Bool) → Text → Text
lstrip_of p [] = []
lstrip_of p (c ∷ t) = let rest = lstrip_of p t in if p c then rest else c ∷ t

abbrev pub rstrip_of : (ℕ → Bool) → Text → Text
rstrip_of p [] = []
rstrip_of p (c ∷ t) = let rest = rstrip_of p t in if p c && is_empty rest then [] else c ∷ rest

abbrev pub strip_of : (ℕ → Bool) → Text → Text
strip_of p text = lstrip_of p (rstrip_of p text)

abbrev pub is_in : Text → ℕ → Bool
is_in chars c = any (λ d. d == c) chars

-- `text or None`
abbrev pub or_none : Text → Option Text
or_none [] = none
or_none (c ∷ t) = some (c ∷ t)

-- `_clean_text`; the characters that it strips, with an en dash and an em dash
unfoldable pub clean_text : Text → Option Text
clean_text text = or_none (
    strip_of (is_in (codes " -" ++ 8211 ∷ 8212 ∷ codes "|/_.()[]{},;:"))
      (join (codes " ") (words text)))

-- `_clean_capture`; the characters that it strips, with the wide colon and the Arabic comma
unfoldable pub clean_capture : Text → Option Text
clean_capture text =
    or_none
      (strip_of (is_in (codes ":" ++ 65306 ∷ 9 ∷ codes "," ++ 1548 ∷ codes ".;;")) (strip text))

-- one character of `replace("_", " ")`
abbrev pub space_underscore : ℕ → ℕ
space_underscore c = if c == 95 then 32 else c

-- what `_split_filename` returns
pub record Split : Type 0 where
  pub title : Option Text
  pub author : Option Text
  pub volume : Option Text
  pub edition : Option Text
  pub year : Option Text

module _ (re : Patterns) where
  -- `_split_filename`
  unfoldable pub split_filename : Text → Split
  unfolding extract_author match_value clean_text
  split_filename name =
      let parts = extract_author re (re.stem name) in
      let normalized = map space_underscore parts.0 in
      record {
        title = clean_text (
            re.year_sub
              (remove_matches re.edition_subs (remove_matches re.volume_subs normalized)));
        author = parts.1;
        volume = match_value re normalized re.volume_patterns;
        edition = match_value re normalized re.edition_patterns;
        year = re.year normalized;
      }

  -- `first if first is not None else later`, of captures that are cleaned
  abbrev pub capture : Option Text → Option Text
  capture none = none
  capture (some text) = clean_capture text

  abbrev pub or_capture : Option Text → Option Text → Option Text
  or_capture (some text) later = some text
  or_capture none later = capture later

  -- `re.sub(prefix, "", match.group(1)).strip()`
  abbrev pub without_prefix : Option Text → Option Text
  without_prefix none = none
  without_prefix (some text) = some (strip (re.publisher_prefix_sub text))

  -- what `_extract_from_first_pages` returns
  pub record FirstPages : Type 0 where
    pub publisher : Option Text
    pub year : Option Text
    pub author : Option Text
    pub muhaqqiq : Option Text

  abbrev pub block_text : {F : Type 0} → BlockInfo F → Text
  block_text block = block.text

  -- `_page_text`
  abbrev pub page_text : {F : Type 0} → PageInfo F → Text
  page_text page = join (10 ∷ []) (map block_text page.blocks)

  -- `_first_pages_text`, of _FIRST_PAGES_LIMIT pages
  unfoldable pub first_pages_text : {F : Type 0} → List (PageInfo F) → Text
  first_pages_text pages = join (10 ∷ []) (map page_text (take 6 pages))

  -- `_extract_from_first_pages`
  unfoldable pub extract_from_first_pages : {F : Type 0} → List (PageInfo F) → FirstPages
  unfolding first_pages_text clean_capture
  extract_from_first_pages pages =
      let text = first_pages_text pages in
      record {
        publisher =
            or_capture (capture (without_prefix (re.publisher_arabic text)))
              (re.publisher_latin text);
        year = re.year text;
        author = or_capture (capture (re.author_arabic text)) (re.author_latin text);
        muhaqqiq = or_capture (capture (re.muhaqqiq_arabic text)) (re.muhaqqiq_latin text);
      }

-- a call of `add`
pub record Addition (F : Type 0) : Type 0 where
  pub field : Field
  pub value : Option Text
  pub confidence : F
  pub source : Source

module _ (fl : Floating) where
  -- the test of a title candidate
  abbrev pub is_candidate : fl.F → BlockInfo fl.F → Bool
  is_candidate main_font block =
      fl.le (fl.mul main_font (fl.ratio 13 10)) (size_of fl block)
      && ltb 0 (length (strip block.text))
      && leb (length (strip block.text)) 100

  -- `max(candidates, key=size)`
  abbrev pub largest_from : BlockInfo fl.F → List (BlockInfo fl.F) → BlockInfo fl.F
  largest_from best [] = best
  largest_from best (block ∷ blocks) =
      largest_from (if fl.lt (size_of fl best) (size_of fl block) then block else best) blocks

  abbrev pub title_of : List (BlockInfo fl.F) → Option Text
  title_of [] = none
  title_of (block ∷ blocks) = clean_capture (largest_from block blocks).text

  -- `_cover_title`
  unfoldable pub cover_title : List (PageInfo fl.F) → Option Text
  unfolding body_of dominant_font clean_capture
  cover_title [] = none
  cover_title (page ∷ pages) =
      let body = body_of fl page in
      let main_font = dominant_font fl body in
      if fl.le main_font (zero_f fl) then none else title_of (select (is_candidate main_font) body)

  -- `add` of `extract_metadata`: a field that is empty or there is not added
  unfoldable pub add_field :
      Field → Option Text → fl.F → Source → List (MetadataField fl.F) → List (MetadataField fl.F)
  add_field name none confidence origin fields = fields
  add_field name (some []) confidence origin fields = fields
  add_field name (some (c ∷ t)) confidence origin fields =
      if any (λ item. field_eq item.field name) fields
      then fields
      else fields
        ++ record { field = name; value = c ∷ t; confidence = confidence; source = origin } ∷ []

  -- `title`, unless it is generic
  abbrev pub drop_generic : Patterns → Option Text → Option Text
  drop_generic re none = none
  drop_generic re (some text) = if re.generic_title text then none else some text

  -- the calls of `add`, one after another
  unfoldable pub add_all :
      List (Addition fl.F) → List (MetadataField fl.F) → List (MetadataField fl.F)
  unfolding add_field
  add_all [] fields = fields
  add_all (a ∷ rest) fields = add_all rest (add_field a.field a.value a.confidence a.source fields)

  abbrev pub addition : Field → Option Text → ℕ → Source → Addition fl.F
  addition name value percent origin = record {
    field = name;
    value = value;
    confidence = fl.ratio percent 100;
    source = origin;
  }

  -- the calls of `add` in `extract_metadata`
  unfoldable pub additions : Patterns → Text → List (PageInfo fl.F) → List (Addition fl.F)
  unfolding split_filename extract_from_first_pages cover_title
  additions re name pages =
      let split = split_filename re name in
      let first = extract_from_first_pages re pages in
      let title_text = drop_generic re split.title in
      addition title title_text 85 filename
      ∷ addition author split.author 80 filename
      ∷ addition volume split.volume 90 filename
      ∷ addition edition split.edition 90 filename
      ∷ addition publication_year split.year 85 filename
      ∷ ((if is_some title_text then [] else addition title (cover_title pages) 70 cover_page ∷ [])
          ++ (addition publisher first.publisher 55 first_pages
              ∷ addition publication_year first.year 60 first_pages
              ∷ addition author first.author 70 first_pages
              ∷ addition muhaqqiq first.muhaqqiq 50 first_pages
              ∷ []))

  -- the fields of `extract_metadata`
  unfoldable pub extract_fields : Patterns → Text → List (PageInfo fl.F) → List (MetadataField fl.F)
  unfolding add_all additions
  extract_fields re name pages = add_all (additions re name pages) []
