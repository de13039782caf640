-- ===== src/Lib.antt =====
-- The core logic of the FiqhMind backend: the pipeline that cuts the pages of a book into chunks, the
-- jobs and tasks that carry a book through it, the search over the chunks, and the loop that has a
-- model answer a question from them.
--
-- The parts and their files
--   Prelude, Text: shared helpers. Text is a list of code points with the methods of Python's str
--     that the program calls; numbers are natural numbers.
--   Extraction: app/services/extraction.py with app/db/repositories/extraction.py. Types has the
--     dataclasses and the rows, Parse makes a page of what PyMuPDF answers, Slices deals the pages to
--     the workers, Rows has the repository, and Runner the run with its checkpoints and resumption.
--   Layout: app/services/layout.py, on the pages that Extraction parses. Sort and Columns cluster the
--     blocks, Reading has the direction and the order, Regions the bands of a page, Page composes
--     them (_analyze_page), and Runner writes the result to the rows.
--   Metadata: app/services/metadata.py, on the same pages. Blocks has the tests of a block, Fields
--     the fields of a book, Footer the printed page numbers, Structures the headings and their
--     sections, and Document the whole document and the runner. What the regular expressions match
--     is a parameter (Patterns).
--   Uploads: app/services/uploads.py, with the rows of app/db/repositories/uploads.py and
--     sanitize_filename of app/core/storage.py. It receives the file that Extraction opens.
--   Indexing: app/services/indexing.py, the points of the chunks and the loop that puts them in the
--     store in place of the old ones; Retrieval finds them.
--   Cache: app/services/cache.py. Whether Redis answers a call is an argument of each operation.
--   Chunking: app/services/chunking.py. A page is a list of units (_Unit); Boundaries has the cut
--     points and _split_range, Ranges has _ranges, Sentences the split of a text into sentences, Pack
--     has _sentence_pack and _tail_sentences, Context the headings above a chunk, and Engine has
--     extract_chunks, which composes them. Files below these hold the proofs.
--   Jobs: app/db/repositories/ingestion_jobs.py and base.py (Repository), the Celery tasks of
--     app/tasks/ingestion.py (Tasks) and app/tasks/book.py (Book), over the rows of
--     app/db/models.py. A session is what its objects hold and what it has committed; a rollback
--     returns to the latter. The tasks call the runners of the services, which are arguments: what
--     such a runner does to the session, and how it ends. The chunking engine is behind one of them.
--   Retrieval: app/services/hybrid_search.py (Fusion) and app/services/retrieval.py (Merge,
--     Compress, Search), with the normalization of app/services/query_preprocessing.py. It reads the
--     payloads that indexing made of the chunks. Floats are a parameter (Scores) with the laws of
--     the order on floats that are no NaN; Python's stable sort is an insertion sort (Order); a
--     dictionary is an association list in the order of its insertions (Dict).
--   Generation: app/services/generation/service.py (Service, Citations) and validation.py
--     (Json, Parse, Validation). It takes the chunks that Retrieval returns; the provider is a parameter,
--     what it does at each attempt; whether the validated payload can be assembled is one too.
--   Eval: app/services/eval/metrics.py, the scores of a run of the retrieval against gold data
--     (Retrieved) and the matrix of refusals (Refusals).
--   RateLimit: app/services/rate_limit.py, the sliding window of one scope.
--   Tests: the theorems applied to small inputs.
--
-- Bounds and fuel: Jobs.Tasks.deliver counts deliveries; a task is delivered once and retried at most
-- three times (MAX_RETRIES), so four are enough from the start, which deliver-Settled assumes as
-- max_retries < retries + fuel. Text.decimal uses as many rounds as the number is large.
-- Extraction.Slices.slices_from and Indexing.batches_from use as many rounds as there are pages or
-- chunks, since each round takes one at least. All other loops recurse on their lists or on the number
-- of attempts left. No machine integers occur: Python's are unbounded.
--
-- Concurrency: the searches of one query run at the same time in the code and do not depend on each
-- other, so their results are lists here. The workers of an extraction share nothing, and their
-- results come in the order of their slices. Tasks are deliveries one after another.
--
-- Parameters: floats with their operations, what a PDF document answers, what regular expressions
-- match, the classes of characters (isalpha, isprintable), SHA-256, json, the embedder, the id of a
-- point, and how each call of a provider, of the store or of Redis ends. Where a theorem needs it, no
-- two texts have one digest.
--
-- Not modelled: the providers of models, the vector store and its client, the HTTP endpoints and
-- their schemas, configuration and migrations, since they are calls of vendors, Qdrant and FastAPI;
-- the texts of synthesized answers, which are parameters of the loop; query expansion, language
-- detection and translation, which are parameters of the search and may raise; the rows that
-- MetadataRepository saves; the runner of the evaluation; times to live; the paths of the file
-- storage and its failures. The units of a page are an input of Chunking. What the code computes
-- from the float overlap is a parameter. The database answers every statement, and Celery delivers
-- a task again when it asks for it.
pub mod Prelude
pub mod Text
pub mod Extraction
pub mod Layout
pub mod Metadata
pub mod Uploads
pub mod Cache
pub mod Indexing
pub mod Chunking
pub mod Jobs
pub mod Retrieval
pub mod Generation
pub mod Eval
pub mod RateLimit
pub mod Tests
