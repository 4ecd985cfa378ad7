-- ===== src/Lib.antt =====
-- quantStock1, a market-data platform: its collection, with the queue, the scheduler, the worker
-- and the executor, the tasks of the later stages, the lineage graph, and the read side of the
-- data context.
--
-- The program (app/) collects market data from a provider into RAW tables, cleans and checks it,
-- and serves it to research and backtests. A scheduler and operators enqueue tasks; a task has
-- slices, one for each request; workers claim slices under a lease, call the provider, write
-- rows, and settle the slice. The state is a PostgreSQL database.
--
-- How the files correspond to the code:
--
-- - Base: the shared names; tables as lists of rows with SELECT, UPDATE, COUNT and ORDER BY LIMIT
--   1 (Base/Tables, Base/Rows, Base/Order), exceptions as values (Base/Result), JSON columns
--   (Base/Json), texts (Base/Text).
-- - Collect/StateMachine: app/collect/state_machine.py; its two tables as relations in
--   Collect/StateMachine/Edges.
-- - Collect/Model: the rows of app/storage/models that the queue works on, and the database as a
--   record of tables (Store).
-- - Collect/Repository, Collect/Recovery: app/collect/repository.py, class TaskRepository.
-- - Collect/Idempotency: app/collect/idempotency.py, with the order of keys (Canonical);
--   Base/TextOrder is the order of texts that sorts them.
-- - Collect/Planners: app/collect/planners, with the slices of a calendar (TradeCalendar, Cover);
--   dates and times of Shanghai are in Base/Calendar, decimal numerals in Base/Decimal.
-- - Collect/Creation: create_task_idempotent, and what every function that enqueues does with the
--   task that it has built; one task for a key (Once). Collect/MarketData:
--   app/collect/market_data_service.py and trade_calendar_service.py, called again (Repeat).
-- - Collect/RateLimit: app/collect/rate_limit.py, the window of one key, with its bound (Bound)
--   and the end of a wait (Progress); the clock's readings are given, in microseconds.
-- - Collect/Executor: app/collect/executor.py: the fields that are asked for (Fields), pages and
--   chunks (Paging), the rows that an execution holds (Rows), the RAW rows (Raw), failures
--   (Settle), the end of a task (Finalize), and what an execution makes of its lease (Ends). The
--   provider is a function from requests to answers.
-- - Collect/Worker: app/collect/worker.py, one turn of the loop, up to the executors of the later
--   stages, and how it leaves the slice (Ending), and the registry of workers (Registry).
--   Collect/Scheduler: app/collect/scheduler.py, the scan and the days that it goes through
--   (Dates, Exact, Candidates).
-- - Governance/Tasks: app/governance/tasks.py, the tasks that clean and check, with an operator's
--   rerun (Latest).
-- - Ops/Service: app/ops/service.py, the operations pause_task, resume_task, cancel_task,
--   retry_task.
-- - Collect/Queue: theorems about these operations together: claims (Claiming), lease tokens
--   (Leases), recovery (Recovering, Reopening), the step relation of the queue (Steps), its
--   invariant (Invariant) and its statuses (Transitions). Ops/Stored and Ops/Claims: what
--   requests mean for later claims.
-- - DataContext/Query, DataContext/Cutoff: app/datacontext/query.py and time_semantics.py.
-- - DataContext/Readers: app/datacontext/readers, with the shared conditions in Readers/Gate;
--   their answers in Readers/Answer, Readers/Exact and Readers/Events, and the two readers that
--   name columns which their tables do not have in Readers/Refused. Prices are values of a type
--   Num, and the database's order on codes is a test code_before; nothing is assumed of either.
-- - DataContext/Adjustment: app/datacontext/adjustment.py, with the base of a code (Anchor) and
--   the marked rows (Gaps). DataContext/Alignment: app/datacontext/alignment.py, with its groups
--   (Groups) and its weeks (Weeks). Arithmetic on prices and the month of a day are parameters.
-- - DataContext/Context: app/datacontext/context.py, the facade that makes the context of each
--   query and adjusts and aligns the bars of a daily one.
-- - DataContext/Snapshot: app/datacontext/snapshot_builder.py, with the inputs of a snapshot
--   (Inputs); the hash is a parameter.
-- - Datasource/Errors, Datasource/Capability: app/datasource/errors.py and capability.py, with
--   what a probe means for the claims (Stops).
-- - Lineage: app/lineage/service.py, the graph of edges and its traversal, against the walks from
--   the start (Walks).
-- - Governance/MinuteRules: app/governance/minute_rules.py, the grid of a trading day (Grid).
-- - Collect/Samples, Collect/Queue/Examples, Collect/MarketData/Examples,
--   Collect/Executor/Examples, Collect/Scheduler/Examples, Collect/RateLimit/Examples,
--   Ops/Examples, DataContext/Examples and the Examples beside Datasource/Capability, Lineage,
--   Adjustment, Alignment, Snapshot and MinuteRules: concrete data, tests, and instances.
--
-- How the model reads the source. An operation takes the instants that it reads from the clock
-- and the ids that it draws as arguments, and returns the database that it leaves. A table is the
-- list of its rows, in the order in which the database returns them; theorems hold for every
-- order, so for every way to break a tie of ORDER BY. Rows that other transactions have locked
-- (SKIP LOCKED) are a test that the claim is given. Instants are numbers of microseconds, ids are
-- numbers (texts in the snapshots). A ValueError leaves the database as it was, since the
-- caller's transaction is rolled back. In the queue a status column is a data type with the texts
-- that the program uses; the read side compares texts. A reader's answer is the rows themselves;
-- the shape of the mappings that hold them is left out. `upper` on texts is modelled on ASCII
-- letters. The SHA-256 of canonical JSON is a parameter `digest` on JSON values, of which nothing
-- is assumed; the numbers in JSON are natural numbers, and the provider's other scalars are
-- texts.
--
-- Recursion is structural, but for the loops of the minute grid, whose fuel is the number of
-- minutes of a session and which Grid proves enough, of the slices of a calendar, whose fuel is
-- the number of its days (Cover), and of the chunks of an insert, whose fuel is the number of
-- rows (Chunks); the limiter's loop recurs on the list of the instants that the clock will read.
--
-- Not modelled: the clean and quality executor, the reports of the lineage of a batch, the
-- catalog, which stand outside the parts above; the HTTP API and the command line (glue),
-- configuration and logging, the SQL of the migrations, the measurements of storage, the
-- provider's SDK.
pub mod Base
pub mod Collect
pub mod Ops
pub mod DataContext
pub mod Governance
pub mod Lineage
pub mod Datasource
