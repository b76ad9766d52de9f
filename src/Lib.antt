-- ===== src/Lib.antt =====
-- AuditFlow: questions on contracts, answered by a language model from the chunks of one document, with
-- every claim checked by a second model against the chunk that it cites; and the sign-in of its users.
--
-- The parts, and the file of each (paths from the repository's root):
--
-- - Pipeline.antt: src/auditflow/orchestration/pipeline.py. `ask` and every helper of it. The
--   `SessionState` that the Python mutates is the state (Session/State.antt); the worlds of the layer
--   below and of the judge are carried along. It calls Retry and Verify.
-- - Retry.antt: src/auditflow/orchestration/retry_layer.py. The context of one document, and one retry
--   with a reformulated query. Retrieval and generation are the fields of `Layer`, as they are
--   arguments of `generate_with_bounded_retry` in the Python.
-- - Verify.antt: src/auditflow/verification/verify.py. The pre-checks, the loop on the judge, the batch.
-- - Generate.antt: src/auditflow/generation/generate.py and generate_groq.py.
-- - Attempt.antt: one attempt at a call of a model, as the three loops make it.
-- - JsonExtraction.antt: core/json_extraction.py.
-- - Auth: src/auditflow/auth/refresh.py (Auth/Refresh.antt) and routes.py (Auth/Routes.antt), over the
--   tables of alembic/versions/0001 and 0002, with the transactions of `_cursor` in
--   src/auditflow/ingest/store/document_store.py.
-- - Auth/Access.antt: src/auditflow/auth/dependencies.py, with the policy of src/auditflow/RBAC/policy.csv.
-- - Ingest: src/auditflow/ingest/ingestion_service.py and index/faiss_index.py (Ingest/Service.antt),
--   store/document_store.py and index/bm25_index.py (Ingest/Store.antt). A document's update as a diff
--   over the registry and the two indexes.
-- - Chunking: src/auditflow/ingest/title_parser.py (Chunking/Titles.antt, over the matcher of
--   Chunking/Regex.antt), chunker.py and preamble.py (Chunking/Records.antt) and pre_flight_check.py
--   (Chunking/Preflight.antt): the record of a document, which Ingest takes, and the check before a build.
-- - Identity.antt: src/auditflow/ingest/identity_extraction.py. Two models in turn, and the cache.
-- - Retrieval: src/auditflow/retrieval/retrieve.py: the fusion of ranked lists (Retrieval/Fusion.antt), the
--   report on the documents (Retrieval/Consistency.antt), the caches and their reload
--   (Retrieval/Caches.antt) and the query (Retrieval/Context.antt). Retrieval/Scope.antt gives them to
--   Retry as its `Layer`.
-- - Watcher.antt: src/auditflow/retrieval/cache_watcher.py, whose callbacks reload those caches.
-- - Session: `SessionStore` of src/auditflow/orchestration/session_store.py and history_queue.py
--   (Session/Store.antt), and `ask_endpoint` of src/main.py (Session/Endpoint.antt), which calls `ask`.
-- - Schemas: schemas/*.py, core/http_handlers.py and src/auditflow/ingest/models.py.
-- - Exec.antt: calls that change state and may raise. Base: the shared helpers; Python's `dict` is an
--   association list in insertion order, a `str` is the native String.
-- - Tests: stand-ins for what the program calls, and runs.
--
-- What the program takes from others is a parameter: `Judge`, `Generator` and `Layer` hold the
-- clients of the models, the JSON reader, pydantic's validation and the retrieval, each over a
-- state of its own, so that a call may answer differently each time; `Crypto` holds hashing,
-- randomness, bcrypt and JWT; `Redis` holds Redis, its queue and the JSON of a session; `Engine`
-- holds FAISS, the embedder, the files and the outcome of each transaction of the registry;
-- `Engines` holds FAISS, BM25, the embedder and the reranker for queries; `Chunker` holds the
-- text splitter and SHA-256; `Extractor` holds the two models and the file of the cache; `Access`
-- holds JWT and the Casbin engine; `Tables` and `Titling` hold Python's tables of white space,
-- word characters, digits and case; `Floats` holds the arithmetic of float. The loops over
-- attempts recurse on the number of attempts left, which is max_retries + 1 as in the Python, so
-- no other fuel is needed.
--
-- Not modelled: logging, metrics other than the count of reused tokens and the watcher's, the
-- semaphores (`asyncio.gather` and `as_completed` are the calls in order), failures of the
-- database other than a duplicate token hash and a writing transaction of the registry (reads
-- answer), and requests that overlap in time. The worker that writes the history and the scripts
-- are not modelled. A repetition of the matcher of regular expressions recurses on the length of
-- the text that is left, which is enough because what it repeats takes a code point each time.
pub mod Base
pub mod Exec
pub mod Schemas
pub mod JsonExtraction
pub mod Attempt
pub mod Verify
pub mod Generate
pub mod Retry
pub mod Session
pub mod Pipeline
pub mod Auth
pub mod Ingest
pub mod Retrieval
pub mod Watcher
pub mod Chunking
pub mod Identity
pub mod Tests
