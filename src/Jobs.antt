-- ===== src/Jobs.antt =====
-- The ingestion jobs: the rows and their repository (app/db/models.py, app/db/repositories/base.py,
-- app/db/repositories/ingestion_jobs.py), the Celery tasks over them (app/tasks/ingestion.py), and
-- the graph of a book (app/tasks/book.py).
pub mod Types
pub mod Repository
pub mod Tasks
pub mod Book
