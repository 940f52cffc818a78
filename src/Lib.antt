-- ===== src/Lib.antt =====
-- Web Access MCP server: a Python service that searches the web, retrieves pages and stores their
-- contents for AI clients. This library models its application services and the infrastructure
-- that bounds what they do.
--
-- The parts and how they interact. A request is a batch. The retrieval service runs each URL of it
-- through the fetcher and the content pipeline, under a tracker of execution phases that tells
-- what is uncertain. The search service runs each query through the
-- registry, the cache and its single flight, and the attempts at a provider; an attempt asks the
-- two limiters in Redis and the store of billable attempts first. Both batches put their items
-- together by the operation contract. The content pipeline stores a body as a Content: a row of the
-- table that is staged, published or failed, and a blob in the content-addressed store.
--
-- The files and the code, whose paths start at src/web_access (alembic stands beside src):
-- - Base: lists, tests and the effects. A block of code that may raise changes a state and gives a
--   result or an exception, and what it wrote before a raise stays written.
-- - Common/Results, Common/Auth: application/common/results.py, errors.py and auth.py, with the
--   names of the enumerations and functions kept.
-- - Retrieval/Phase: application/retrieval/retry.py, the tracker (`advance`, `effects`).
-- - Retrieval/Transport: application/retrieval/ports.py and domain/retrieval/models.py.
-- - Retrieval/Service, Retrieval/Batch: application/retrieval/service.py, `_fetch_item` with its
--   two try statements (`process`, `acquire`, `on_failure`) and `fetch`.
-- - Retrieval/Fetcher, Retrieval/Body: infrastructure/retrieval/fetcher.py, the redirect loop
--   (`round`, `fetch_loop`) and the bounded stream (`read_chunk`, `flush_tail`).
-- - Retrieval/Security, Retrieval/Client: infrastructure/retrieval/security.py, resolver.py and
--   client.py: `validate_url`, `validate_addresses`, `resolve`, and the session of the client as a
--   state that is started, lost and closed (`step`).
-- - Content/Model: domain/content/models.py. Content/Repository: infrastructure/database/content.py,
--   the table under the unique keys of alembic/versions/0003_content_core.py, each update a
--   compare-and-set on state and revision.
-- - Content/Storage: infrastructure/content/filesystem.py (`stat`, `link` for finalize, `unlink` for
--   remove) and the tasks of application/content/service.py and maintenance.py around the advisory
--   lock of a storage key, as events (`step`) whose list is any interleaving.
-- - Content/Reading: application/content/service.py, `_read_bounded` and `_read_utf8_chunk`.
-- - Content/Access, Content/Read: application/content/service.py, `_load_authorized` and `read` with
--   the codecs configured, and a client that follows the cursors. Content/Inspect: `inspect`, with the
--   writes of other tasks between its sessions. Content/Batch: `inspect_many` and
--   `native_parse_many`.
-- - Content/Cursor: infrastructure/content/cursor.py, the codec that Content/Read takes (`codec`), with
--   the laws that it asks for.
-- - Search/Registry: application/search/registry.py and the models that it reads.
-- - Search/Attempts, Search/Item, Search/Batch: application/search/service.py, `_execute_attempts`,
--   `_search_item` and `search`, with the services behind application/search/ports.py as records of
--   answers.
-- - Search/Usage: infrastructure/search/usage.py, the table of billable attempts.
-- - Search/Flow, Search/Leases, Search/Rate: infrastructure/search/admission.py, the Lua scripts
--   over an explicit Redis state, with clock, key expiry and restarts that lose state.
-- - Search/Cache, Search/Flight: infrastructure/search/cache.py: entries of Redis with their expiry,
--   the flight of an identity as events of several clients (`step`), and the loop of `acquire` on the
--   turns that are left.
-- - Search/Providers, with Searxng, Yandex and Xml: infrastructure/search/searxng.py and yandex.py:
--   `search` as `prepare`, `receive` (the request and the body) and `interpret` (the answer).
-- - Examples: tests on concrete inputs, and each theorem at inputs that meet its hypotheses.
--
-- What is outside of the code is a parameter: the client, the clock, zlib, the parsers, JSON,
-- base64, the splitting of URLs and the classes of addresses answer by arbitrary functions,
-- exceptions and cancellation included; the two tables of PostgreSQL are lists of rows under their
-- unique keys. A function that is asked again takes the number of the call.
--
-- Bounds and fuel: the redirect loop runs on `max_redirects` + 1 rounds of fuel, which is enough as
-- a round that goes on adds a hop, and the code gives up at `max_redirects` hops. The loop over
-- attempts recurses on the attempts that are left. Numbers are natural: a time is in milliseconds,
-- a rate is an exact fraction where the code has floating point, and a subtraction stops at 0 where
-- the code takes a maximum with 0. A reader of pages has one page of fuel more than characters,
-- which is enough as a page that goes on holds one at least; without fuel it gives none, which is
-- not the result of a reader that ended. A bounded wait for a flight has one
-- turn of fuel for each millisecond and one more, as a turn that goes on sleeps for one at least.
--
-- Not modelled: messages, telemetry and hints beyond their codes; most pydantic bounds of fields;
-- interleavings of concurrent items, whose shared state is the Redis scripts'; the parsers, the
-- staging files, symbolic links and the expiry of contents; a task that goes on after its database
-- session, and so its lock, is lost; losses of Redis under a flight; the readiness checks; the REST
-- and MCP transports, configuration, start-up, migrations and workers.
pub mod Base
pub mod Common
pub mod Content
pub mod Retrieval
mod Examples
pub mod Search
