-- ===== src/Retrieval/Types.antt =====
-- The data of app/services/hybrid_search.py and app/services/retrieval.py. A payload is a
-- dictionary under the contract of app/services/indexing.py: a record of the keys that are read.
use fiqhmind_ai_backend.Prelude.{ℕ, Bool, String, Option}
use fiqhmind_ai_backend.Retrieval.Scores.{Floats}

-- the payload of a point; no payload and an empty one are both `none`
pub record Payload : Type 0 where
  pub chunk_id : Option String
  pub text : Option String
  pub book_id : Option String
  pub book_name : Option String
  pub volume : Option String
  pub printed_page_start : Option ℕ
  pub printed_page_end : Option ℕ
  pub kitab : Option String
  pub bab : Option String
  pub fasl : Option String
  pub topic : Option String
  pub region : Option String
  pub lang : Option String
  pub verified : Bool

module _ (fl : Floats) where
  -- `ScoredPoint`, with `str(point.id)`
  pub record ScoredPoint : Type 0 where
    pub id : String
    pub score : fl.F
    pub payload : Option Payload

  -- `SearchHit`
  pub record SearchHit : Type 0 where
    pub chunk_id : String
    pub score : fl.F
    pub payload : Option Payload
    pub dense_score : Option fl.F

  -- `_RankedHit`
  pub record RankedHit : Type 0 where
    pub max_score : fl.F
    pub arabic_score : Option fl.F
    pub original_score : Option fl.F
    pub hit : SearchHit

  -- `RetrievedChunk`
  pub record RetrievedChunk : Type 0 where
    pub chunk_id : String
    pub text : String
    pub book_name : Option String
    pub volume : Option String
    pub printed_page_start : Option ℕ
    pub printed_page_end : Option ℕ
    pub kitab : Option String
    pub bab : Option String
    pub fasl : Option String
    pub topic : Option String
    pub region : Option String
    pub lang : Option String
    pub verified : Bool
    pub rerank_score : fl.F
    pub arabic_score : Option fl.F
    pub original_score : Option fl.F
