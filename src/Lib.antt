-- ===== src/Lib.antt =====
-- graph-coder: a verified model of the core of the library in src/graph_coder.
--
-- graph-coder plans work as a graph of nodes, checks the graph, tells which nodes may be
-- dispatched, and records what happens in a hash-linked ledger. The parts modelled here:
--
-- - Base: what the models share of Python: lists, texts as code points, dictionaries in the order
--   of insertion, stable sorting, and code that raises as a result value.
-- - Walk: the worklist search behind `_ancestors` (a stack) and `block_descendants` (a queue),
--   with its invariant and the fuel that is enough for it.
-- - Graph (src/graph_coder/graph.py): the data in Graph/Node; `ExecutionGraph.validate` in
--   Graph/Validate, with a module for each check: Graph/Artifacts, Graph/Order (cycles, depth and
--   the topological sort), Graph/Writes over Graph/Ancestors and Graph/Scope, and
--   Graph/Authority; `ready_frontier` in Graph/Ready and `compile_plan_units` in Graph/Units.
-- - Execution (src/graph_coder/execution.py): the state machine in Execution/States, manager
--   reviews in Execution/Review, `block_descendants` in Execution/Blocking and `compute_frontier`
--   in Execution/Frontier.
-- - Ledger (src/graph_coder/events.py, src/graph_coder/redaction.py and the table `events` of
--   src/graph_coder/db.py): Ledger/Redaction and Ledger/Events.
-- - Values: JSON and YAML values, and the record Library of what the code uses of Python's
--   `json`, `re`, `hashlib`, `str` and `repr`, a parameter of the ledger and of what else needs
--   it.
-- - Routing (src/graph_coder/routing.py): the data in Routing/Models, `_hard_filter_reasons` in
--   Routing/Filter, `_apply_subscription_first` in Routing/Subscription, `_score_candidate` in
--   Routing/Scores, the Pareto frontier, the fallback and the selection key in Routing/Selection,
--   `route_model` in Routing/Decision over Routing/Candidates, and `build_route_receipt` in
--   Routing/Receipts. Floating-point numbers are the interface Floats of Routing/Floats; its
--   record IsOrder states the laws of IEEE 754 comparisons that some theorems use.
-- - Plans (src/graph_coder/plans.py): the documents in Plans/Documents; `parse_markdown_plan` in
--   Plans/Parsing over Plans/Entries and the checks in Plans/Checks, Plans/Trace and
--   Plans/Readiness; the semantic hash of a unit and approvals in Plans/Hashes;
--   `reconcile_completed_units` in Plans/Reconcile. PyYAML, the matches of the two regular
--   expressions that split the Markdown, and `str.strip` are the record Markdown.
-- - Recovery (src/graph_coder/recovery.py): the stored ready frontier, a query over the tables of
--   nodes and edges, in Recovery/Stored; interrupted attempts, reopened units and
--   `resume_human_required` over the tables and the ledger in Recovery/Restart.
-- - Statistics (src/graph_coder/llm_stats.py): what the client is given of the network, the clock
--   and the cache file in Statistics/Data; `_request_json` with its retries in
--   Statistics/Requests, pages and cursors in Statistics/Pages, the cache in Statistics/Cache.
-- - Examples: a sample plan and ledger on which every theorem with hypotheses is used.
--
-- The modules below each of these hold the proofs and are named for what they prove. An exception
-- is a value of an error type with a constructor for each message. A set is a list of its members;
-- only membership and sorted output are read. `validate` writes the producer of each output into
-- the graph, so its model returns the graph that it leaves.
--
-- Loops over a growing queue run on fuel. The searches get one round for each id that is ever
-- pushed (Walk/Facts), and the two topological loops one round for each node (Graph/Order): each
-- round pops one id, and an id is pushed once for each time that it is named. The pages of the
-- statistics service are followed on fuel too: one round for each cursor that the service may
-- give, and two more, are enough (Statistics/Pages).
--
-- Python's `json`, `re`, `hashlib` and `str.lower` are the record Library of Values, a parameter.
-- The texts of JSON columns are taken to be JSON, since `json.loads` of another text raises, which
-- is not modelled for the tables of the ledger and of the graph.
-- `PurePosixPath` and `fnmatch` are written out in Graph/Scope, with the lower case of ASCII.
-- A power of numbers that may raise OverflowError is an error value of the routing.
--
-- Not modelled: files, processes, the network and the database connection; the command line; the
-- snapshots of plans; the report of `recover` and the projections of the ledger; and the modules
-- of the registry, the configuration, the contracts and the jcode adapter.
pub mod Base
pub mod Values
pub mod Walk
pub mod Graph
pub mod Execution
pub mod Ledger
pub mod Examples
pub mod Routing
pub mod Plans
pub mod Recovery
pub mod Statistics
