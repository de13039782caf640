-- ===== src/Chunking/Types.antt =====
-- The data of app/services/chunking.py. A heading level is one of the four `LEVEL_*` names of
-- app/services/metadata.py; text is a list of code points; pages are natural numbers.
use fiqhmind_ai_backend.Prelude.{ℕ, Bool, Option}
use fiqhmind_ai_backend.Text.{Text, count_words}

-- LEVEL_KITAB, LEVEL_BAB, LEVEL_FASL, LEVEL_TOPIC
pub data Level : Type 0 where
  kitab bab fasl topic : Level

-- `PageContext`
pub record PageContext : Type 0 where
  pub pdf_page : ℕ
  pub printed_page : Text
  pub printed_page_numeric : Option ℕ

-- `_Unit`
pub record BodyUnit : Type 0 where
  pub text : Text
  pub level : Option Level
  pub pdf_page : ℕ
  pub printed_page : Option ℕ
  pub ends_sentence : Bool

-- `_Sentence`
pub record Sentence : Type 0 where
  pub text : Text
  pub pdf_page : ℕ
  pub printed_page : Option ℕ
  pub unit_key : ℕ

-- `_count_tokens` of a sentence
unfoldable pub tokens : Sentence → ℕ
tokens s = count_words s.text
