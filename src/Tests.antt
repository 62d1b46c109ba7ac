-- ===== src/Tests.antt =====
-- The theorems at concrete inputs, and runs of the model.
mod Samples
mod Errors
mod Retrieval
mod Answers
mod Pipeline
mod RateLimit
mod Sessions
mod Tokens
mod Auth
mod Outbox
mod Query
mod Audit
mod Chunker
mod Users
mod Stores
mod Ingest
mod Logging
mod Documents
mod Delivered
mod Stored
mod Everywhere
mod Service
