-- ===== src/Lib.antt =====
-- A verification library for querix-semantic-search, a multi-tenant semantic search service with an
-- analytics portal, written in Python. Each definition translates the code that it names; what the
-- code calls outside the repository (SQLite, Redis, HTTP, scrypt, regular expressions, Unicode
-- tables) is an argument of the definitions.
--
-- The parts, and how they work together. Requests of a tenant pass a token bucket (rate limiter); a
-- pool gives each the search service that reads the index generation which the tenant's manifest
-- says is active, and swaps services when a generation is promoted or rolled back; a search gathers
-- candidates (retrieval) for a query plan that a cache keeps, and orders them by a hosted reranker,
-- whose providers have their own request windows and stand in for each other; each search leaves an
-- event that a worker spools on disk, and a scheduled delivery moves it to the tenant's database;
-- calls are also counted in a monthly ledger; the log buffer feeds the administrators' page; the
-- analytics portal has its own accounts and sessions.
--
-- Prelude: Boolean tests, lists by native numbers, texts as code points, `dict`s as association
-- lists, results. It models no code.
-- Limits.Window, Limits.Bucket: `RequestWindowLimiter` and
-- `TokenBudgetLimiter` of src/core/request_limit.py and `TenantRateLimiter` of
-- src/core/rate_limit.py (`allow`, `_allow_memory`, the constructors). A clock reading is a whole
-- number of ticks; a token is cut into as many parts as make refilling exact, so that the theorems
-- are about the arithmetic that the floating-point code approximates. A lock makes each call one
-- step, so a concurrent run is some sequence of calls; a call reads its clock before it takes the
-- lock, and the theorems are about runs whose readings do not go back.
-- Auth: `AnalyticsAuthStore` of src/analytics_service/auth.py. `Types` has the tables, `Passwords`
-- the normalisation and the scrypt encoding, `Login` `authenticate`, `Sessions` `resolve_session`,
-- `revoke_session` and `prune_expired_sessions`, `Accounts` `create_user`, `set_password` and
-- `set_active`. A call is one step on the three tables: its commit, or an exception that leaves them
-- as they were (`revoke_session` runs its statements without an explicit transaction; a failure
-- between them is not modelled). Times are microseconds; a timestamp column may hold a text that does
-- not parse. Not modelled: `list_users`, `readiness`, the schema migrations.
-- Generations: src/storage/index_generations.py. `Manifest` has the manifest, its file and its
-- validation, `Operations` `ensure_generation_state`, `resolve_generation`, `candidate_generation`,
-- `record_candidate_ready`, `promote_candidate` and `restore_active_slot`, as functions on the file.
-- Not modelled: `seed_candidate_from_active`, which copies tables and files.
-- Pool: `TenantServicePool` of src/api/tenants.py. `Services` has the pool with its retired services
-- and `get`, `Swaps` `activate_candidate`, `rollback_generation` and `reload_generation` over the
-- manifests of Generations. Each takes two locks; what other threads and the ingestion do between
-- the build and the swap is an argument. The opening of an engine is an argument, and a process has
-- one pool. Not modelled: `close`, `readiness_checks`, the prewarming at startup.
-- AdminLogs: src/observability/admin_logs.py. `Buffer` has the classification, `emit` and
-- `snapshot`.
-- Reranker: src/search/reranker.py. `Hosted` has `HostedReranker.compute_score` over the limiters
-- of Limits.Window, `Fallback` the chain of providers, `Ranking`
-- `prioritize_verified_within_relevance_bands` and `rerank`, and `Rank` `SearchRankingMixin.rank` of
-- src/search/ranking.py. Scores are of any type; in the ranking their order, and when two are within
-- a band, are arguments. Not modelled: `SharedReranker`, `load_reranker`.
-- Retrieval: src/search/retrieval.py. `Products` has `extract_product_ids` and
-- `filter_candidates_by_ad_type`, `Tail` `related_tail_product_ids`, `Filters`
-- `metadata_matches_filters`, `VectorSearch` `vector_where_filter` and `vector_search`, and `Fusion`
-- `merge_results`. The loop of the related tail runs on fuel; one more than the number of rows that
-- the index lists is enough, since a full page moves the offset. The loop of the vector search runs
-- on fuel too, and 4 are enough, since each TypeError takes one of three options away. Prices are
-- whole hundredths or NaN; the fusion's scores are any type with a strict weak order. `PgFilter` has
-- the conditions of `_metadata_filter_sql` in src/storage/pgvector.py, as PostgreSQL evaluates them;
-- how a number is written, and which texts are decimals, are arguments. Not modelled:
-- the search of the collection itself, and `bm25_search`, which reshapes the rows of the index.
-- PlanCache: `_cached_plan`, `_cache_memory_plan` and `_cache_plan` of
-- src/search/engine_support.py, with the shared cache's answers as an argument.
-- Analytics: src/storage/search_analytics.py and src/storage/search_analytics_spool.py. `Events` has
-- the events and their totals, `Destination` the two MySQL tables and
-- `write_search_analytics_events`, whose transaction commits, is rolled back, or commits with its
-- answer lost; `Spool` the spool table and `deliver_search_analytics_spool`, with the rows that the
-- service inserts meanwhile; `Worker` the queue, the counters and the worker that the two stores
-- have in common, cut into the steps between which other threads run; `Saves` what each worker does
-- with an event. The delivery's loop runs on fuel; one more than the company has rows is enough,
-- since every round deletes a row of the snapshot. A measure is a whole number of thousandths. The
-- JSON text of an event, and the sanitising of its context, are arguments. Not modelled: the
-- migrations of the tables, and the files that SQLite keeps.
-- Usage: `MonthlyUsageStore` of src/storage/usage.py. `Ledger` has the table and its `record` and
-- `summary`; which texts `strptime` reads as a month is an argument. Not modelled: `readiness`.
-- The other components (planner, engine, databases, ingestion, HTTP routing, analytics reports) are
-- not modelled: they are mostly input and output.

pub mod Prelude
pub mod Limits
pub mod Auth
pub mod Generations
pub mod AdminLogs
pub mod Reranker
pub mod Retrieval
pub mod PlanCache
pub mod Analytics
pub mod Pool
pub mod Usage
