-- ===== src/Lib.antt =====
-- Task Relay (linear-pi-orchestrator): a durable runner of workflows over work items. A trigger
-- finds a work item, a workflow run is opened for it in a ledger, and on every tick each job of the
-- run is decided from the persisted state alone: it is run, held, or settled. A job that runs is
-- claimed by an attempt under a token, executed, and completed under the same token.
--
-- Which file models which part:
--   Domain               packages/domain/src/index.ts: the records, and Status the predicates on
--                        statuses and needSatisfaction.
--   Domain/Needs         needSatisfaction against the ways on that a status has.
--   Domain/Key           createWorkflowRunKey and createRunKey, with JSON.stringify of texts.
--   Expressions          src/workflows/expressions.ts: evaluateCondition around a given evaluator.
--   StringNeed           src/workflows/needs.ts: resolveStringWorkflowNeed.
--   Reconciler           src/workflows/reconciler.ts: decideJob; Groups has jobInstances, instancesOf
--                        and aggregate, Contexts has expressionContexts and expressionStatus,
--                        Outcome has jobTimedOut, runOutcome and timedOut.
--   RunStore             src/application/in-memory-workflow-run-store.ts: the methods of the ledger;
--                        Job has what they do to the state of one job, Ops has the calls as data.
--   Execution            packages/application/src/execute-job.ts: ExecuteJob; Host has the host's
--                        operations and the results, Values run-time values, Outcomes the checks of
--                        an outcome, Protocol and Order the order of the host's calls, Selection the
--                        choice among outcomes.
--   Operations           packages/application/src/reconcile-operations.ts: ReconcileOperations, with
--                        its data and the host's operations in Ports.
--   Advance              packages/application/src/workflow-engine.ts: AdvanceWorkflow, one pass over the
--                        jobs of a run; Preserved and Passes have what a pass keeps.
--   Cancellation         packages/application/src/workflow-engine.ts: CancelWorkflow (cancelJob, cancel
--                        and expire) over the ledger of RunStore.
--   Starting             packages/application/src/workflow-engine.ts: StartWorkflow and
--                        workflowOccurrence; Touches, Clearing and Exclusive are about its groups.
--   LegacyPipeline       packages/application/src/legacy-pipeline.ts: legacyPipelineToWorkflow.
--   Config               src/config/v2.ts: workflows and jobs as configured; JobGraph has
--                        validateJobGraph and dependencyCycles.
--   Graph                src/workflows/graph.ts: the graph of a workflow and needParts; FromRelay has
--                        relayWorkflowToGraph, ToRelay graphToRelayWorkflow, Validate
--                        validateWorkflowGraph; Valid says what a well-formed graph is.
--   Cycles               the depth-first searches in src/workflows/graph.ts and src/config/v2.ts.
--   Domain/Runs          packages/domain/src/index.ts: the run of a worker and workerChildren.
--   Storage/Runs         packages/storage-sqlite/src/index.ts: the runs of workers in the SQLite ledger;
--                        Limit, Steps and Active count the active ones, Generations is about
--                        late writes.
--   Storage/Actions      packages/storage-sqlite/src/index.ts: the executions of actions; Calls,
--                        Taken and Once are about sequences of calls.
--   Storage/Workflows    packages/storage-sqlite/src/index.ts: the workflow runs, their revisions and
--                        the outbox; View, Seen and Refines relate them to the ledger in memory,
--                        Groups and Exclusive are about concurrency groups.
--   Storage/Lookup       packages/storage-sqlite/src/index.ts: findRunsForItem and select.
--   Workers              packages/application/src/manage-workers.ts: ManageWorkers.dispatch; Ending has
--                        finishObservedRun, reconcilePersistedRuns, the loop of stopWorker and
--                        stopAndCleanupActiveRuns. Cases and Settled are about one dispatch;
--                        Dispatching, Stopping and Limited about what all of them do to the ledger.
--   Prelude              lists, tables, texts, results and Boolean tests.
--   Examples             concrete inputs.
--
-- State. The ledger is a table from run keys to records in order of insertion, as a Map is, and each
-- method takes the table and returns it with its result. A JavaScript object with string keys is a
-- table too. A field that may be missing is an Option, and `x || y`, `x ? y : z` and `x ?? y` keep
-- their different readings of the empty text, zero and undefined. An exception is `none` or a value
-- of a result type.
--
-- A SQL table of the SQLite ledger holds each record as JSON text under its primary key, so it is a
-- table of records as well; a method that runs in a transaction is one step, and a transaction that
-- throws leaves the state as it was. The JSON text of a job, by which a write is seen to have changed
-- it, is a parameter, and the random id of an attempt is given by the caller.
--
-- Times are milliseconds since the epoch. The source compares ISO texts that `toISOString` wrote,
-- which order as their times do; a time text from elsewhere is read by `Date.parse`.
--
-- What the host or a plugin supplies (claims, executions, writes, observers) is a record of functions
-- that answer from all calls so far, so it may answer anything, differently each time; the calls that
-- have an effect are kept in a log, which is what is proved about. Whether `Date.parse` reads a text is
-- a parameter. The timer that renews a lease during an execution is one answer: the first failure of
-- the renewals, if there is one.
--
-- Loops are structural recursion over lists and texts. Only the searches for cycles take fuel, the
-- number of ids with edges and two more: the ids on a path are different and all but the last have
-- edges, so no call is nested deeper (Cycles/Fuel).
--
-- CancelWorkflow and AdvanceWorkflow are modelled up to the sweeps of workers, the counters and the
-- events, which change neither the ledger nor the result. The clock stands still during one pass or
-- one cancellation. What refreshJobs, executeJob and the reconciliation of operations do in a pass is
-- a parameter: the calls on the ledger that they make, and what they return or throw. A pass that ends
-- by what is thrown, there or in a decision, keeps what was written before. In StartWorkflow the
-- template engine, the printers of numbers and items and the revisions of plugins are parameters.
--
-- What others write to the ledger while ManageWorkers.dispatch resolves the agent, and while it works on
-- the run that it has claimed, is a parameter, and so is whether a write of that run throws; in the other
-- operations of ManageWorkers no other process writes and no write throws. The reports to a source, but
-- for that of a claim, change nothing. A reference to workers is given by the workers it resolves to.
--
-- Not modelled: input and output (processes, tmux, git, HTTP, SQL), the browser interface, the
-- command line and the wiring of components. The expression language of @actions/expressions is a
-- parameter of the decisions.
pub mod Prelude
pub mod Domain
pub mod Expressions
pub mod Storage
pub mod Starting
pub mod Workers
pub mod StringNeed
pub mod Reconciler
pub mod Execution
pub mod Operations
pub mod Advance
pub mod Cancellation
pub mod LegacyPipeline
pub mod RunStore
pub mod Config
pub mod Cycles
pub mod Graph
pub mod Examples
