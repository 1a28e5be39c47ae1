-- ===== src/Lib.antt =====
-- EKA is a multi-tenant knowledge assistant: documents are registered, their content is uploaded and
-- ingested in the background, and questions are answered from the ingested chunks. This library
-- models its Python code (paths from the repository's root):
--
--   Prelude       Boolean tests and lists over the native numbers, Python's strings and integers,
--                 exceptions as values (src/eka/shared/domain/errors.py) and stateful actions
--   Shared        pagination (src/eka/shared/domain/pagination.py), units of work over a database
--                 session, and what is used of Python's float, sorted, split and [a-z0-9]+
--   Documents     src/eka/modules/documents: Document is the aggregate (domain/document.py) with its
--                 lifecycle and events, Repository the table and its adapter (infrastructure),
--                 Commands the handlers and the lifecycle service (application), Queries get and
--                 list, Http the routes and schemas (presentation)
--   Ingestion     src/eka/modules/ingestion: Jobs is the queue over its table (application/jobs.py,
--                 infrastructure/queue.py), JobQueries its list, Chunking the chunker, Chunks the
--                 chunk and content tables, Uploads the upload of content (application/content.py),
--                 Pipeline the ingestion of one job and the worker's batch (application/pipeline.py,
--                 src/eka/worker.py), Embedding the hashing embedder (infrastructure/embedding.py),
--                 Worker the polling loop, Completion an upload with the attempt at its job, Http the
--                 routes and schemas
--   Retrieval     src/eka/modules/retrieval: Search is the handler with its cache, Retriever the
--                 hybrid retriever and the fusion of rankings, Reranker the lexical reranker, RedisCache the
--                 cache of the running application, Http the route
--   Generation    src/eka/modules/generation: Answers is the prompt, the guard and the stream of
--                 events, LocalModel the local language model, Http the route
--   Evaluation    src/eka/modules/evaluation: Metrics, Gate with the report and the harness, InMemorySearcher
--                 the search over the corpus, RunEval the script src/scripts/run_eval.py
--   Identity      src/eka/modules/identity and src/eka/api/security.py: bearer tokens
--   Config        src/eka/config.py: the settings and their bounds
--   Api           src/eka/api: the codes and statuses of exceptions (errors.py), Endpoint what FastAPI
--                 does around a route, Routes the application's routes with their dependencies
--                 (app.py, dependencies.py, health.py), Middleware the headers (middleware.py)
--
-- A handler that changes stored data is an action: from a state to a result, which is a value or the
-- exception that was raised, and the new state. A unit of work runs its body on a session over the
-- stored tables and keeps only what was committed; a commit checks the constraints of the tables. The
-- upload and the pipeline work on one world of documents, store and jobs; each part of them opens the
-- session that the code opens. Identifiers and instants are numbers, new ones are arguments, and so
-- are the readings of the clock. Strings are lists of code points. The loops are structural
-- recursions on lists, and the chunker recurs on its list of separators; the worker's polling loop
-- alone runs on fuel, the number of its tests of the stop event, and one more than the turn at which
-- the event is set is enough. A request is served by one function from the request and the server's
-- state, the database and the cache, to the reply and the new state; what one request takes from the
-- settings, the libraries and the clock is its Context.
--
-- Parameters stand for the code that is not in the repository: the sorts of the database, which keep
-- the rows (KeepsItems), its scan of the vector index, which can lose rows (InventsNothing), and its
-- full-text match; row locks of other transactions; the JWT library with its laws (TokenLaws); SHA-256,
-- str and str.lower; the compiled patterns of the guard; floats (Floats); SHA-1; the Redis client, which
-- can fail at every call, and JSON (CodecLaws); Starlette's headers (HeaderLaws). The pipeline takes any
-- embedding model and the answers any language model, as the ports of the code do.
--
-- Not modelled: logging, metrics, tracing, the construction of engines and sessions, migrations, the
-- access log, CORS, the reading of the evaluation's JSON and what its script prints. Signals reach the
-- worker as the stop event. Two units of work do not interleave, except that a dequeue skips rows that
-- others hold; what other workers and requests do to the tables falls between two turns of the
-- worker's loop (Turn). The database's own failures are modelled where the queue ends a job (Clock) and
-- for the readiness of the application; elsewhere the database raises what its constraints refuse. A
-- body that is not JSON is a request of its own, and one that is no text at all is left out. Messages of
-- exceptions leave out the values that the code formats into them.
pub mod Prelude
pub mod Shared
pub mod Documents
pub mod Ingestion
pub mod Retrieval
pub mod Generation
pub mod Evaluation
pub mod Identity
pub mod Api
pub mod Config
