-- ===== src/Retrieval.antt =====
-- app/services/hybrid_search.py and app/services/retrieval.py: fusion of the two searches, the
-- merge of the candidate queries' results, and the compression of the evidence.
pub mod Scores
pub mod Order
pub mod Dict
pub mod Types
pub mod Fusion
pub mod Merge
pub mod Compress
pub mod Search
