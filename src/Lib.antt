-- ===== src/Lib.antt =====
-- Procurement parser: a durable service that discovers the entities of two procurement sites,
-- extracts them and stores them in PostgreSQL. This library models the parts of
-- src/procurement_parser that decide, and proves what makes them correct.
--
-- How the parts work together. A discovery run (application/pipeline.py) reads the pages of a
-- catalogue in windows and puts the entities that it finds into the task queue, which is a set of
-- PostgreSQL tables. Workers claim tasks from the queue under a lease, extract the entity through the
-- adapter of its site, store it, enqueue what it refers to, and complete the task, or give it back
-- with a delay, or give it up. The adapters send their requests through lanes: each lane has a
-- circuit breaker and a proxy, and the proxies rotate.
--
-- Prelude: what the other files share: Boolean tests and lists over the native numbers, signed
--   integers, Python's dictionaries, its stable sort, and a walk round a list.
-- Domain: src/procurement_parser/domain. Errors has the exceptions as values and `Result`, Models the
--   identities and the values that cross the components, CsvSafety the escape of spreadsheet formulas.
-- Network: src/procurement_parser/infrastructure/network. CircuitBreaker has a record for the object
--   and a function for each method (`allow`, `record_status`, `restore`, …); a method holds the
--   breaker's lock and is one step. ProxyPool is `ProxyPoolCursor` with `next` and `mark_failed`.
--   The clock is an argument of both.
-- Persistence: src/procurement_parser/infrastructure/persistence/postgres/repositories.py, with the
--   tables of schema.py as records of rows (Tables). Enqueue, Refresh, Claim and Settle have a function
--   for each method of `PostgresFrontierRepository` on tasks. `complete` and `fail` read a row and
--   delete it later, and what others commit in between is their argument; each other method is one
--   statement, or holds its rows from the first statement on, and so is one step. The rows that
--   another transaction has locked are an argument of `claim`. Calls puts the methods
--   together: a call is a value, and a sequence of calls an interleaving of the workers. Checkpoints
--   has the two methods on the table of discovery checkpoints, Jobs the leases of the recurring jobs
--   of maintenance.py with runs of calls of several coordinators. EntityTables, EntityContents and
--   Entities are `PostgresEntityRepository`: the tables, the parts of `_persist_envelope`, and
--   `persist` as one transaction, which is an exception where a constraint is violated.
-- Scheduler: src/procurement_parser/entrypoints/scheduler.py: a round of the coordinator, and a job
--   with its actions and its outcome.
-- Pipeline: src/procurement_parser/application/pipeline.py. Window is `classify_discovery_window`,
--   Discovery the loop of `DiscoveryService.run` over an interface for the frontier, Batch the
--   validation of what an adapter extracted, Task the method `_process_task` as the trace of its
--   calls, Drain `_drain_complete`, Worker the loop of one worker.
-- Sources: src/procurement_parser/infrastructure/sources. Strategies is `ZakupStrategyStack` of
--   zakup_sk/strategies.py, BundleCache the download of zakup_sk/bundle_cache.py, Lanes the choice
--   and the replacement of a lane in eep_mitwork/client.py. Json has the values that orjson gives.
--   ZakupParser, ZakupFields, ZakupDelivery, ZakupDocuments, ZakupProcurement and ZakupDetail are
--   zakup_sk/parser.py, from the identities to `parse_detail`; NoticeLots is the paging of
--   zakup_sk/adapter.py over the lots of a notice, ZakupPool its pool of stacks, ZakupRequest the loop
--   of `_request`, which asks the stacks through Strategies, and ZakupAdapter its `discover` and
--   `extract`.
-- Examples: concrete runs on which the results apply.
--
-- Bounds and fuel. The loop of a discovery run may never end, since a catalogue may have a page for
-- every number; its fuel is one unit for a window, and more fuel than there are pages before the
-- first that is empty or failed is enough. The loop of a download has one unit for a chunk, and more
-- fuel than the bundle has bytes is enough. The loop over the lots of a notice has one unit for a
-- page, and more fuel than the total that the pages report is enough. The loop of a worker goes on
-- until a shutdown, and takes the list of what happens in its turns instead; the loop of `_request`
-- may wait for a stack without end, and takes the list of its passes, of which `max_attempts` are
-- enough where the stacks are free and have no limit of time. All other functions recur on their data.
--
-- What is left out. Instants are whole numbers of seconds. Python's integers and the numbers of
-- the tables are unbounded. Logs and metrics are left out, but for the outcomes in the trace of a
-- task. Cancellation is modelled where the code handles it in a task, in a batch of tasks and in
-- a call of a stack, not in a discovery run. What the browser, the HTTP clients and the sites
-- answer is a parameter. The command line, the reading of the settings, the parser of the site
-- that gives HTML, the export and the migrations are not modelled. What Python's `str`, `Decimal`
-- and dates make of a text is a record of functions.
pub mod Prelude
pub mod Domain
pub mod Network
pub mod Persistence
pub mod Pipeline
pub mod Scheduler
pub mod Sources
pub mod Examples
