-- ===== src/Lib.antt =====
-- Personal Knowledge OS: a model of the Rust service in src/ of the repository, and what is proved of it.
--
-- The service keeps sources (notes, captured conversations) in Postgres, cut into overlapping chunks;
-- memories, which start as candidates and are approved, rejected or superseded, each with the sources
-- that it rests on; and a queue of jobs that a worker leases. Its handlers (src/api) validate a request
-- and call the storage (src/storage.rs); the worker (src/services/worker.rs) runs the jobs that they
-- leave in the queue: it embeds chunks and memories, and runs the extraction
-- (src/services/memory_extraction.rs), which asks a language model for memories and verifies each
-- proposal before it reinforces, promotes or creates a memory. Entities and relations between them, with
-- the time in which they hold, are a graph beside (src/storage_graph.rs). A search
-- (src/services/retrieval.rs) merges what the words and the embeddings find.
--
-- Files. Paths are from the repository's root.
--   Prelude, Text, Values   Boolean tests, lists and All/Any; text with trim, search and ASCII case;
--                           signed integers, 32-bit floats and JSON
--   AppError                src/error.rs
--   Auth                    src/auth.rs
--   Models                  src/models.rs
--   Db                      the tables (Tables), the clauses of SQL (Sql), what runs inside a transaction
--                           (Tx), handlers as sequences of transactions that may fail (Action), and the
--                           functions of packages (Libs)
--   Chunking                src/services/chunking.rs
--   Extraction              src/services/memory_extraction.rs: Verifier (validate_candidate and below),
--                           Response (content_to_text, parse_extraction), Client (the prompt and the
--                           request), Statements (its own SQL), Process (process_source)
--   Services                what the clients take from reqwest and serde_json: a parameter
--   Embedding               src/services/embedding.rs
--   Worker                  src/services/worker.rs
--   System                  the methods of the handlers, searches and the rounds of the worker, in turns
--   Config                  src/config.rs
--   Storage.Sources         src/storage.rs: ingest_source, get_source, chunks
--   Storage.Memories        src/storage.rs: the methods on memories
--   Storage.Jobs            src/storage.rs: lease_jobs, complete_job, fail_job
--   Storage.Search          src/storage.rs: the search queries, record_retrieval, ping
--   Retrieval               src/services/retrieval.rs
--   Storage.Operations      the writing methods of src/storage.rs as one type, and runs of them
--   Storage.Graph           src/storage_graph.rs
--   Api                     src/api/sources.rs, src/api/capture.rs, src/api/memories.rs,
--                           src/api/graph.rs, src/api/timeline.rs, src/api/search.rs, src/api/health.rs
--   Tests                   runs at concrete inputs
-- Functions keep the names of the source; `f_tx` is what `f` runs between BEGIN and COMMIT, and
-- `…_row` the SET clause or the inserted row of a statement.
--
-- Conventions.
--   Text is a list of Unicode scalar values; `str::len` is `byte_len`, its length in UTF-8. A UUID is a
--   number, a time is a number of microseconds, a finite f32 is a multiple of 2^-149. An `as i32` cast
--   keeps 32 bits.
--   A transaction, or a statement outside of one, takes a tick; at each tick `Env` says what time it is,
--   which new UUIDs are drawn, and whether the database fails. A transaction takes effect as a whole or
--   not at all, and transactions follow one another: rows that are locked by another worker (SKIP LOCKED)
--   are those that it has already updated. Errors are values, so what a handler does after each one is
--   part of the model. A statement fails on the keys and the CHECK constraints of
--   migrations/0001_init.sql that its rows can violate.
--   Functions of packages and of Postgres (UUID text, lower case by Unicode, SHA-256, RFC 3339, the
--   collation of texts) are fields of `Libs`, a parameter; the answers of the language model and of the
--   embedding provider are fields of `Services`, by the tick of the request. A call takes a tick.
--   A task that panics is an outcome of its own: it is gone, and what it had written stays.
--   The turns of System are whole methods and whole rounds: a handler does not come between two
--   transactions of one round of the worker. A memory that the extraction reinforces and the source that
--   it reads are rows that are never deleted, so the foreign keys of the evidence hold.
--   ORDER BY resolves ties by the order in the table. The order of the entries of a JSON map is not
--   observed. The sums `attempts + 1` and `recurrence_count + 1` do not wrap.
--   `chunk_text` is a recursion on fuel, with one round more than there are characters; it is proved
--   that this is enough.
--
--   The worker's loop never ends but by an error or a panic; `Worker.run` is a number of its rounds, and
--   the theorems on it hold for every number.
--   An f64 is its 64 bits; its arithmetic and total_cmp, what pgroonga matches and scores, the distance
--   of vectors, the order of a HashMap and the time that passes are fields of `Ranks` and `Searcher`.
--
-- Not modelled: start and routing (src/main.rs, src/lib.rs but the record of the shared services,
-- src/api/mod.rs), which are wiring of frameworks; the MCP gateway and the scripts, which are clients in
-- other languages.
pub mod Prelude
pub mod Text
pub mod Values
pub mod AppError
pub mod Db
pub mod Models
pub mod Storage
pub mod Extraction
pub mod Chunking
pub mod Auth
pub mod Api
mod Tests
pub mod Config
pub mod Services
pub mod Embedding
pub mod Worker
pub mod Retrieval
pub mod System
