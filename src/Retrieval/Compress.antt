-- ===== src/Retrieval/Compress.antt =====
-- `_rerank`, `_compress` and `_signature` of app/services/retrieval.py, with `normalize_arabic` and
-- `strip_diacritics` of app/services/query_preprocessing.py. The reranker, the NFC normalization of
-- `unicodedata` and the digest of `hashlib` are parameters.
pub mod Evidence
pub mod Ranked
pub mod Normal
use text.Mathlib.Text.{◌==◌ as str_eq}
use fiqhmind_ai_backend.Prelude.{
  ℕ, suc, Bool, true, false, not, ◌&&◌, ◌||◌, String, Option, none, some, List, [], ◌∷◌, ◌++◌, map,
  leb, ◌==◌, if◌then◌else◌, select, take, is_some,
}
use fiqhmind_ai_backend.Text.{Text, codes}
use fiqhmind_ai_backend.Retrieval.Scores.{Floats}
use fiqhmind_ai_backend.Retrieval.Order.{sort_desc}
use fiqhmind_ai_backend.Retrieval.Types.{Payload, SearchHit, RankedHit, RetrievedChunk}
use fiqhmind_ai_backend.Retrieval.Fusion.{or_text, or_zero}
use fiqhmind_ai_backend.Retrieval.Merge.{is_in}

-- the four substitutions of `normalize_arabic`, of one character
abbrev pub fold_char : ℕ → ℕ
fold_char c =
    if c == 0x623 || c == 0x625 || c == 0x622 || c == 0x671
    then 0x627
    else if c == 0x649
    then 0x64A
    else if c == 0x629
    then 0x647
    else if c == 0x624 || c == 0x626
    then 0x621
    else c

-- `_COMBINING_RE`
abbrev pub is_combining : ℕ → Bool
is_combining c =
    leb 0x64B c && leb c 0x65F || c == 0x670 || leb 0x6D6 c && leb c 0x6ED || c == 0x640

-- `strip_diacritics`
abbrev pub strip_diacritics : Text → Text
strip_diacritics text = select (λ c. not (is_combining c)) text

-- `normalize_arabic`
abbrev pub normalize_arabic : (Text → Text) → Text → Text
normalize_arabic nfc text = strip_diacritics (map fold_char (nfc text))

-- a field of a payload, `None` without one
abbrev pub field : {A : Type 0} → (Payload → Option A) → Option Payload → Option A
field get none = none
field get (some payload) = get payload

-- `payload.get("text", "") or ""`
abbrev pub text_of_payload : Option Payload → String
text_of_payload payload = or_text (field (λ p. p.text) payload) ""

-- `bool(payload.get("verified", False))`
abbrev pub is_verified : Option Payload → Bool
is_verified none = false
is_verified (some payload) = payload.verified

module _ (fl : Floats) where
  -- the settings, the reranker and the library functions of `RetrievalRunner`
  pub record Runner : Type 0 where
    pub reranking_enabled : Bool
    pub evidence_floor : fl.F
    pub default_top_n : ℕ
    -- `int(self._settings.retrieval_candidates)`
    pub candidates : ℕ
    -- the score of each of the texts; `DefaultReranker`, the only one that can be made, raises nothing
    pub score : String → List String → List fl.F
    pub nfc : Text → Text
    pub sha256 : Text → String

  -- Python's `max` of two: the first of them unless the second is greater
  abbrev pub max_of : fl.F → fl.F → fl.F
  max_of a b = if fl.lt a b then b else a

  -- `hit.payload.get("text", "") or ""`
  abbrev pub text_of_hit : SearchHit fl → String
  text_of_hit hit = text_of_payload hit.payload

  -- the hit without reranking
  abbrev pub unranked : SearchHit fl → RankedHit fl
  unranked hit = record {
    max_score = hit.score;
    arabic_score = none;
    original_score = none;
    hit = hit;
  }

  abbrev pub ranked_hit : SearchHit fl → fl.F → fl.F → RankedHit fl
  ranked_hit hit a_score o_score = record {
    max_score = max_of (max_of a_score o_score) (or_zero fl hit.dense_score);
    arabic_score = some a_score;
    original_score = some o_score;
    hit = hit;
  }

  -- the comprehension over `zip(merged, arabic_scores, original_scores)`
  unfoldable pub ranked_hits : List (SearchHit fl) → List fl.F → List fl.F → List (RankedHit fl)
  ranked_hits (hit ∷ hits) (a ∷ arabic) (o ∷ original) =
      ranked_hit hit a o ∷ ranked_hits hits arabic original
  ranked_hits _ _ _ = []

  -- `item.max_score`
  abbrev pub max_score_of : RankedHit fl → fl.F
  max_score_of item = item.max_score

  -- `_rerank`; of no hits it is empty, as the code's first test says
  unfoldable pub rerank : Runner → List (SearchHit fl) → String → String → List (RankedHit fl)
  unfolding ranked_hits sort_desc
  rerank r merged canonical_arabic original_query =
      if r.reranking_enabled
      then sort_desc fl max_score_of (
          ranked_hits merged (r.score canonical_arabic (map text_of_hit merged))
            (r.score original_query (map text_of_hit merged)))
      else map unranked merged

  -- `_signature`
  abbrev pub signature : Runner → SearchHit fl → String
  signature r hit =
      let book =
        or_text (field (λ p. p.book_id) hit.payload)
          (or_text (field (λ p. p.book_name) hit.payload) "") in
      let topic = or_text (field (λ p. p.topic) hit.payload) "" in
      let text = take 200 (normalize_arabic r.nfc (codes (text_of_hit hit))) in
      r.sha256 (codes book ++ codes ":" ++ codes topic ++ codes ":" ++ text)

  -- `RetrievedChunk(…)` of an item
  abbrev pub chunk_of : RankedHit fl → RetrievedChunk fl
  chunk_of item =
      let payload = item.hit.payload in
      record {
        chunk_id = item.hit.chunk_id;
        text = text_of_payload payload;
        book_name = field (λ p. p.book_name) payload;
        volume = field (λ p. p.volume) payload;
        printed_page_start = field (λ p. p.printed_page_start) payload;
        printed_page_end = field (λ p. p.printed_page_end) payload;
        kitab = field (λ p. p.kitab) payload;
        bab = field (λ p. p.bab) payload;
        fasl = field (λ p. p.fasl) payload;
        topic = field (λ p. p.topic) payload;
        region = field (λ p. p.region) payload;
        lang = field (λ p. p.lang) payload;
        verified = is_verified payload;
        rerank_score = item.max_score;
        arabic_score = item.arabic_score;
        original_score = item.original_score;
      }

  -- `self._settings.retrieval_reranking_enabled and item.max_score < floor`
  abbrev pub is_below : Runner → RankedHit fl → Bool
  is_below r item = r.reranking_enabled && fl.lt item.max_score r.evidence_floor

  -- the loop of `_compress`, with `seen` and `len(chunks)`
  unfoldable pub compress_from :
      Runner → ℕ → List String → ℕ → List (RankedHit fl) → List (RetrievedChunk fl)
  compress_from r top_n seen count [] = []
  compress_from r top_n seen count (item ∷ rest) =
      let sign = signature r item.hit in
      let old = is_in sign seen in
      let later =
        compress_from r top_n (if old then seen else sign ∷ seen) (if old then count else suc count)
          rest in
      if is_below r item
      then []
      else if old
      then later
      else chunk_of item ∷ (if leb top_n (suc count) then [] else later)

  -- `top_n or self._settings.retrieval_top_n`
  abbrev pub top_n_of : Runner → Option ℕ → ℕ
  top_n_of r none = r.default_top_n
  top_n_of r (some n) = if n == 0 then r.default_top_n else n

  -- `_compress`
  unfoldable pub compress : Runner → List (RankedHit fl) → Option ℕ → List (RetrievedChunk fl)
  unfolding compress_from
  compress r ranked top_n = compress_from r (top_n_of r top_n) [] 0 ranked
