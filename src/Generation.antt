-- ===== src/Generation.antt =====
-- app/services/generation: the loop that asks the model for an answer and validates it.
pub mod Service
pub mod Json
pub mod Parse
pub mod Validation
pub mod Citations
