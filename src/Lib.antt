-- ===== src/Lib.antt =====
-- A verification library for the RAG platform, a multi-user retrieval-augmented generation backend
-- (app/). A request passes a rate limiter (app/core/rate_limiter.py) and gets its user from an access
-- token (app/dependencies.py, app/core/security.py, app/services/auth_service.py). A question goes
-- from its route (app/api/v1/query.py), with the last turns of its session
-- (app/services/session_service.py, app/cache/session_cache.py), to the pipeline
-- (app/pipelines/query_pipeline.py), which retrieves by two searches and fuses their ranks
-- (app/services/retrieval_service.py), reranks (app/services/reranker_service.py), builds a prompt
-- within token budgets and asks an LLM (app/services/generation_service.py), and has a second LLM
-- check the answer (app/services/critic_service.py), with a bounded retry; the route then writes the
-- audit trail (app/services/audit_service.py) and the turns. A document is written with its chunks to
-- an outbox in one commit (app/services/ingestion_service.py), from which a task feeds the vector store
-- and the search index (app/tasks/outbox_relay.py). Exceptions become HTTP responses in one place
-- (app/core/error_handlers.py).
--
-- Which file models what:
--   Prelude and its children: shared names, tests on numbers, lists over the native numbers,
--     Python's stable sort, str and dict.
--   Errors: the exception classes of app/core/exceptions.py, with message and code;
--     Errors.Handlers: app/core/error_handlers.py, handle_app_error and the other handlers.
--   Exec: calls that change a state and may raise; the state comes back beside the exception.
--   Retrieval: _rrf_fuse and hybrid_retrieve of app/services/retrieval_service.py.
--   Reranker: rerank, _rerank_local and _rerank_cohere of app/services/reranker_service.py.
--   Generation: build_context and generate_answer of app/services/generation_service.py;
--     Generation.Format: str.format on the template.
--   Json, Critic: check_groundedness and _strip_json_fences of app/services/critic_service.py.
--   Pipeline: run_query_pipeline of app/pipelines/query_pipeline.py. Pipeline.Rounds,
--     Pipeline.Outcome and Pipeline.Total hold the proofs about it.
--   RateLimit: sliding_window_check, get_rate_limiter and get_ip_rate_limiter of
--     app/core/rate_limiter.py over the Redis commands they send. RateLimit.History is a limiter that
--     forgets nothing, RateLimit.Window shows that both agree, RateLimit.Bound what follows.
--   SessionCache: app/cache/session_cache.py over the Redis commands it sends; SessionCache.Commands
--     has the effect of each operation on the list.
--   Sessions: SessionService of app/services/session_service.py; Sessions.Route:
--     app/api/v1/sessions.py and _update_session_status of app/tasks/summarization.py.
--     Sessions.Lookup, Sessions.Coherence, Sessions.Memory, Sessions.Ending and
--     Sessions.Closing hold the proofs.
--   Auth: app/core/security.py and app/services/auth_service.py (login, refresh, logout, logout_all);
--     Auth.Routes: app/api/v1/auth.py with app/schemas/auth.py; Auth.Current: get_current_user and
--     require_admin of app/dependencies.py; Auth.Scanning: logout_all and its scan. Auth.Tokens,
--     Auth.Single, Auth.Login, Auth.Scanned and Auth.Everywhere hold the proofs.
--   FileValidation: app/core/file_validation.py.
--   Documents: IngestionService of app/services/ingestion_service.py over the tables of documents and
--     outbox rows; Documents.Routes: the handlers of app/api/v1/documents.py. Documents.Owners and
--     Documents.Tenants are about the requests of several users.
--   Outbox: relay_outbox_batch and its helpers of app/tasks/outbox_relay.py. Outbox.Rows, Outbox.Ready,
--     Outbox.Writes, Outbox.Ingested and Outbox.Stores hold the proofs, Outbox.Reached is about the
--     tables that uploads, deletions, facts and runs of the relay reach in any order. Outbox.Counting,
--     Outbox.Marks and Outbox.Delivered are about a run with stores that answer.
--   Audit: app/services/audit_service.py and app/api/v1/audit.py.
--   Query: app/api/v1/query.py; Query.Trail has the proofs.
--   Chunker: chunk_text and _snap_to_sentence_boundary of app/ingestion/chunker.py; Chunker.Windows has
--     the proofs.
--   Users: RegisterRequest of app/schemas/user.py and register of app/api/v1/users.py; Users.Registered
--     and Users.Returning hold the proofs. Users.Admin: scripts/create_admin_user.py.
--   Stores: the stores of chunks. Stores.Qdrant: app/vector_store/qdrant_client.py and
--     app/vector_store/qdrant_search.py; Stores.Elastic: app/search/es_client.py and
--     app/search/es_search.py. Stores.Compartments, Stores.Isolation and Stores.Traffic show that users
--     do not meet in them, Stores.Reading that what is written is what is read, Stores.Failures how the
--     functions fail, Stores.Blocking what becomes of a question with the client of the code.
--   Ingest: run_ingest_pipeline of app/pipelines/ingest_pipeline.py and app/vector_store/embedder.py;
--     Ingest.Parsers: the parsers of app/ingestion. Ingest.Parsed and Ingest.Raises hold the proofs.
--   Logging: _redact_sensitive_fields and the processors of app/core/logging.py; Logging.Redacted and
--     Logging.Secrecy hold the proofs.
--   Service: app/main.py (lifespan, the documentation urls of create_app), app/core/middleware.py and
--     the validators of app/config.py; Service.Started and Service.Requests hold the proofs.
--   Facts: app/services/memory_service.py.
--   Tests: witnesses and runs.
--
-- How the program is read:
--   Text is a list of code points, a dict an association list in insertion order, a Python integer
--   that is never negative a native number. A float is an interface of the operations that the scores
--   use, with a total order assumed where a theorem speaks of sorting (no NaN). str.strip, lower and
--   capitalize act on ASCII. What is not in the repository is an argument: the tokenizer, the LLMs,
--   json.loads, the embedding model, the reranking models, the searches, the clock. Each call of these
--   acts on a world of any type and may raise.
--   The retry loop runs on fuel MAX_CRITIC_RETRIES + 2; it makes at most MAX_CRITIC_RETRIES + 1
--   rounds, and the theorems show that the fuel is not used up.
--   A table is a list of rows and a UUID its canonical text; a query of one row takes the first match,
--   since ids are unique. A statement of the database does not fail, except the commit of an
--   ingestion, the refresh after it, and the commit of a fact. A rollback undoes what is not committed.
--   Redis is a record of the commands that the code sends, with what Redis documents of them as named
--   laws; new ids and the clock are arguments. Stores, JWT, password hashing, SHA-256, libmagic and
--   tiktoken are records of calls; tiktoken refuses some texts with a ValueError, as documented.
--   The window loop of the chunker runs on as much fuel as there are tokens, which is enough.
--   The scan loop of logout_all runs on fuel; as many rounds as the full iteration has that
--   Redis documents are enough. A UUID has no character that is special in the pattern of the scan.
--   The log context of a request after `call_next` is a function of the contexts before it and at its
--   end, since Starlette runs the inner application in a task of its own.
--   The two searches of hybrid_retrieve run concurrently in the program and one after the other here;
--   they share no data.
--   The clients of Qdrant and Elasticsearch are records of the calls that the code makes; a call of
--   Qdrant gives a value or a coroutine, and awaiting a value is a TypeError. An event of the log is a
--   dictionary of JSON shape: a value of another type passes the redaction as it is.
--   Log lines are left out, and so is the lazy loading of models and clients.
--   Not modelled: the remaining schemas, the pools of connections, and concurrent
--   transactions and row locks.
pub mod Audit
pub mod Auth
pub mod Chunker
pub mod Critic
pub mod Documents
pub mod Errors
pub mod Exec
pub mod Facts
pub mod FileValidation
pub mod Generation
pub mod Ingest
pub mod Json
pub mod Logging
pub mod Outbox
pub mod Pipeline
pub mod Prelude
pub mod Query
pub mod RateLimit
pub mod Reranker
pub mod Retrieval
pub mod Service
pub mod SessionCache
pub mod Sessions
pub mod Stores
pub mod Tests
pub mod Users
