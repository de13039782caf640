-- ===== src/Metadata.antt =====
-- app/services/metadata.py: the bibliographic fields, the printed page numbers and the headings of a
-- book, from its filename and its extracted pages. The regular expressions are parameters.
pub mod Types
pub mod Blocks
pub mod Fields
pub mod Footer
pub mod Structures
pub mod Document
