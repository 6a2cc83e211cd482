-- ===== src/Lib.antt =====
-- A verification library for rag-eval, an evaluator of retrieval-augmented generation systems.
--
-- rag-eval runs benchmark cases against a target system, keeps everything that it learns in a
-- database, and computes metrics from the observations. The parts modelled here are those that
-- decide what is sent to the target and how its answer is read, what becomes of the results, how a run
-- lives and dies, how its cases are scored, how runs are compared, and where a target's secrets go.
--
-- Execution (src/rag_eval/execution):
--   Execution/Circuit: the circuit breaker that the workers of one target share
--     (circuit_breaker.py). A method is a function of the breaker and the time; `run_calls` runs an
--     interleaving of the workers' calls.
--   Execution/Errors, Execution/Retry: error records (models/target.py) and the retry policy
--     (retry.py, with RetryConfig of config/models.py).
--   Execution/Store: the rows of one case execution (db/test_models.py), with the repository's
--     lookups and updates (db/test_repository.py). `calls` counts the requests sent to the target.
--   Execution/Recovery: the recovery decision from durable state (recovery.py).
--   Execution/Transactions, Execution/Executor: `_execute_case` of the benchmark executor (engine.py),
--     which asks Recovery, registers an attempt, calls the target and commits the outcome. Each
--     transaction is one function of the durable state, in Transactions.
--   Execution/Runs: how an executor claims a run, ends it and sums it up (engine.py, and the claim of
--     db/test_repository.py), from the statuses of its cases.
--   Execution/Cases, Execution/Selection, Execution/Pool: the rows of a run's cases, which of them an
--     execution selects, and the workers that take them from a queue (engine.py). `Pool.Step` is one
--     step of one worker, so that a reachable pool is one interleaving.
--   Execution/Attempts, Execution/Worker: the retry loop of the resilient worker (worker.py), which
--     uses Circuit for admission, Retry for its decisions and Store for what it persists. The
--     identities of its requests, its transactions and the unique constraints on its rows are in
--     Attempts.
--   Execution/CaseWorker: the resilient worker above that loop (worker.py), which follows Recovery's
--     decision for one case.
-- Services (src/rag_eval/services):
--   Services/Lifecycle: start, pause, resume, retry, recover and cancel of a run (test_service.py). Its
--     `Steps.Step` interleaves them with the executor's claim and end of a run, from Execution/Runs.
--   Services/Status: the progress of a run (test_service.py).
--   Services/Secrets: the secrets of a target's configuration (secret_service.py), over the rows that
--     db/target_repository.py keeps. Names tells which fields are secret, Store has the rows, Sanitize
--     the service; an operation is a function of the store that ends with a value or an error.
-- Metrics (src/rag_eval/metrics):
--   Metrics/Registry: the registry of metrics (registry.py) over the metric's interface (base.py).
--   Metrics/Presence: which data a case has for its metrics (context.py, engine.py).
--   Metrics/Engine: the selection, the execution and the persistence of metrics (engine.py, and
--     `persist_metric` of db/test_repository.py); it uses Registry and Presence.
--   Metrics/Aggregation: the aggregates of a metric over a run (aggregation.py).
--   Metrics/Decision: the metrics of decisions and abstentions (decision.py).
--   Metrics/Matching: `match_gold_evidence` (helpers.py).
--   Metrics/Spans: `compute_span_union_length` (helpers.py).
--   Metrics/Retrieval: the retrieval metrics (retrieval.py) over the stages of an observation
--     (context.py). Recall uses Matching. Metrics/Retrieval/Staged has its later classes, from
--     F1AtK on.
--   Metrics/StageDelta: the comparisons of two stages (stage_delta.py) that read their items.
-- Adapters/Http (src/rag_eval/adapters): the declarative HTTP adapter (generic_http.py), whose errors
--   (errors.py) go to Execution/Retry. Paths reads a path from a JSON value, Templates renders a
--   request, Transport judges an exchange, Protocol reads the declared operation, Query puts them
--   together, Retrieve has the retrieval and the capabilities, Health the health check.
-- Reporting/Stats: the statistics of comparisons (reporting/stats.py).
-- Reporting/Compare: the comparison of two runs (reporting/compare.py).
-- Config/Matrix: the expansion of experiment matrices (config/matrix.py).
-- Json is the data model of configurations, requests and responses. Prelude holds the shared tests,
-- list functions, dicts and integers, Examples the runs on concrete inputs.
--
-- Times are whole milliseconds, computed delays quarters of a millisecond, so that the jitter range
-- is whole. A metric's value is the exact fraction that the source computes in floats and rounds; of
-- the percentiles, of which the source rounds some and not others, the rounding is a parameter.
-- The values of Reporting/Stats are integers in a common unit, and a quotient is left as its terms.
-- The worker's loop runs on fuel, the attempts left plus one, and is proved never to run out of it.
-- The decimal digits of an index run on fuel above their number. All other recursion is on lists and
-- on JSON values. Numbers are unbounded, as the source's integers are.
--
-- Parameters of the models: the target's answers, the clock, random draws, hashes and identifiers,
-- the artifact store's contents, the validation of the response models, the normalizer and the
-- scoring service, the rounding of floats, the cipher and the ids that the secret service draws,
-- and the client's exchange with an HTTP target. Opaque types stand for responses and
-- observations, for ciphertexts, for the numbers of a JSON value and for validated models.
--
-- Not modelled: the database itself (a transaction commits whole or not at all), log lines and
-- reason texts, adapters other than the declarative one, the HTTP interface and the command line,
-- the web frontend, the services that manage targets, benchmarks and datasets, the export of
-- reports, and the metrics other than those of retrieval.py, decision.py and, in part,
-- stage_delta.py. Of stats.py, cohens_dz needs square roots and is left out. Of compare.py the
-- warnings about incompatible runs are left out, and of the statistics of each metric all but the
-- p-values and their corrections.
pub mod Prelude
pub mod Json
pub mod Execution
pub mod Services
pub mod Reporting
pub mod Config
pub mod Metrics
pub mod Adapters
pub mod Examples
