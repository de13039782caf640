-- ===== src/Extraction.antt =====
-- app/services/extraction.py with the rows of app/db/repositories/extraction.py. Floats and
-- PyMuPDF, what a document and its pages answer, are parameters.
pub mod Types
pub mod Parse
pub mod Slices
pub mod Rows
pub mod Runner
