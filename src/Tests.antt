-- ===== src/Tests.antt =====
-- The theorems applied to small documents, job tables, search results and answers.
mod ChunkingRuns
mod JobsRuns
mod RetrievalRuns
mod GenerationRuns
mod EvalRuns
mod RateRuns
mod ExtractionRuns
mod LayoutRuns
mod MetadataRuns
mod UploadRuns
mod CacheRuns
mod IndexRuns
