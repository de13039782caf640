-- ===== src/Layout.antt =====
-- app/services/layout.py: the rule-based layout analysis of a page. Floats are the parameter of the
-- extraction.
pub mod Sort
pub mod Columns
pub mod Reading
pub mod Regions
pub mod Page
pub mod Runner
