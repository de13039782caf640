-- ===== src/Chunking.antt =====
-- app/services/chunking.py: the chunking engine. The children are its stages, in the order in
-- which `extract_chunks` runs them, and the proofs about each.
pub mod Types
pub mod Sentences
pub mod Pack
pub mod Ranges
pub mod Boundaries
pub mod Context
pub mod Engine
