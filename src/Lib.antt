-- ===== src/Lib.antt =====
-- A model of core parts of AI Composer, in which agents write specifications in CVL, the language
-- of the Certora prover, and read the prover's results. Paths are from the repository's root.
--
-- The parts and how they interact: an agent's specification is a value of the CVL schema; the
-- pretty printer makes the text that the prover is given. While a specification is written from
-- natural-language requirements, the stubs and the files that the prover compiles stand in two
-- registries over a shared store. The author of a specification for source code works by tools on
-- one state, one call after the other, and publishes a result when the judge and the prover have
-- accepted its text; the author of Foundry tests works the same way, with runs of forge. A run of
-- the prover is a process with a link to results, in the cloud or on disk: it leaves a tree view,
-- which is flattened to results, on whose statuses the prover's stamp depends, and checks, which
-- the report rolls up to a verdict for each rule and joins with the properties and their groups.
-- The pipeline gives the report the results of all components with the links of their runs. The
-- agents keep answers in an index over the store, their events go through a queue to the handler,
-- and a timeline shows what a thread has said; what a run spends is counted in its summary.
--
-- - Prelude, Text, Dict: the names and lemmas that the other modules share; Python's operations
--   on texts (join, repetition, decimals) and its dictionaries with texts for keys.
-- - Sets, KeyMap, KeyTotals, Counter, Sorting: Python's sets, dictionaries with keys of any type,
--   sums over their values, counters and `sorted`, on lists.
-- - Cvl: composer/cvl/schema.py. A union of classes is a data type with a constructor for each
--   class, a class a record with the class's fields (VMType is VmType). A list of expressions or
--   commands inside an expression or a command is a data type of its own.
-- - Printer: composer/cvl/pretty_print.py. A method `_print_x` is `print_x`. A method that writes
--   to the line builder is a function of the builder's state to a new state or an error; `with`
--   blocks are `with_line` (line_builder) and `with_indent` (indent). Printer/Precedence is the
--   table and needs_parentheses, Types, Expression, Command, Block, Method and File hold the
--   printers, Lines the builder. Emits and Appends are rules for what a printer writes; Layout is
--   the reference that has lists of lines in place of a builder, and its refinement; Grammar is
--   the expression grammar by levels; Ambiguity shows trees with one text.
-- - Registry: composer/spec/natspec/registry.py. Store is what the registries use of langgraph's
--   BaseStore, Files is FileEntry and FileRegistry, Stubs is StubRegistry and its agent, with
--   request_field in Stubs/Field and acreate in Stubs/Create. A request under its contract's lock
--   is one step; the reply, the registry that it leaves and the events that it writes are its
--   outcome. A failed assertion and a missing key are values of Error.
-- - Prover: composer/prover/ptypes.py and composer/prover/results.py. Types holds the nodes and
--   the results, TreeView/Flatten is flatten_tree_view with its branches, TreeView/Final is
--   get_final_treeview and read_and_format_run_result, TreeView/CallTrace is calltrace_to_xml. A
--   set of messages is a list without repetitions, in the order of insertion. Run is core.py of
--   composer/prover: the options, and run_prover with its callbacks in order and its outcome, a
--   message, a report or what it raises; Statuses is what the statuses of a report say, Reading
--   what a report says of the results that were read, Reported what a report rests on. Cloud is cloud.py, the link, the polling and the results' root,
--   Polled what it yields.
-- - Report: composer/spec/source/report. Verdict is `_Verdict` and `_fetch_verdicts` of
--   collect.py, Rollup what the roll-up of a run's checks keeps, Schema is schema.py, Collect is
--   `collect` with a function for each part of its loops, Table and Resolved the rules that it
--   leaves; Grouping is grouping.py, Status what a group's status says; Coverage is `validate` of
--   coverage.py with Partition, what it accepts; Build is run_autoprove_report, Keys and Complete
--   what it returns.
-- - Generation: composer/spec/cvl_generation.py with composer/core/edit.py and the tools of
--   composer/cvl/tools.py, composer/spec/source/author.py and composer/spec/source/prover.py.
--   Gate is the reducers, the digest and check_completion, Mapping is validate_property_rules,
--   Edit is replace_unique, Tools has a step of the state for each tool, and a run is a list of
--   calls; Config is ConfigEditTool. Frame is what the steps keep, Skips which skips there are,
--   Approvals what a stamp rests on, Published what a published result does, Verified the tool
--   with the run of the prover; Fits and Mapped say which mappings are valid, Links what an edit
--   does.
-- - Foundry: composer/foundry/state.py, author.py and runner.py. State is the state's fields with
--   the stamps and the gate, which is that of the specifications, Mapping is
--   validate_property_tests, Quiet its loops without a problem, Tied the mappings that it
--   accepts. Runner is what is read of forge's output and when a run is clean, Clean what that
--   says; Tools has a step of the state for each tool and the result of a batch; History and
--   Steps are what the stamps rest on, and Certified what a batch returns.
-- - Agent: AgentIndex of composer/spec/agent_index.py. Index is its layers, aput and aget, Merge
--   is asearch. Writes is what a write leaves, Pools, Round and Ranked are what a merge gives.
-- - Io: AsyncDataQueue of composer/io/stream.py. Stream is the queue with its consumer as a step
--   relation, Delivery the order in which events are yielded, Progress that all of them are.
--   Timeline is load_timeline of composer/io/thread_timeline.py, Summarized the test for a summarization, Grown
--   what the loops add, Faithful what a timeline has of a history, Walk that the walk ends.
-- - Timing: RunSummary of composer/diagnostics/timing.py. Summary is its operations, Amounts what
--   they count, Accounts that the counts agree.
-- - Pipeline: Slugs is slugify_filename of composer/spec/util.py and slugified_name of
--   composer/spec/system_model.py; Components is the end of generate_all_component_cvl of
--   composer/spec/source/common_pipeline.py, Linked which links the report is given; Rounds is the
--   extraction of properties by composer/spec/prop_inference.py, Unique that their titles differ.
-- - Examples: the theorems at concrete inputs, and runs of the printers and registries.
--
-- Fuel: `replace` has one unit for each character of the text, and one more: each round drops at
-- least one. The merge of hits has one unit for each hit, and one more: each round pops one.
-- `decimal` has the number itself, and one more: each round divides it by ten. The walk along a
-- thread's checkpoints has one unit for each checkpoint, and one more: each is older than the one
-- before. The polling of a job has a number of rounds, after which the source's timeout ends it.
-- All other recursion is on the structure of the data.
--
-- Parameters: the store, with the law that a read after a write has what was written; pydantic's
-- dump and validation of a stub's state, with the law that the one undoes the other; the verdict
-- of the Solidity compiler; what the agent proposes, one result after the other; which paths the
-- materializer has; what the prover's files hold, read and validated; the checks that the
-- prover's output has for a run, and the type of their durations; the language model's grouping
-- of the properties, if it gives one; the hash of the digest; what the parser, the judge and the
-- prover answer, call by call; the store's search, its scores with their order, and the hash of a
-- question; what a process of the prover or of forge prints and returns, what JSON, addresses and
-- queries hold, the answers of the prover's server, the archive, the analysis of a counterexample
-- and the text of a report; the checkpointer's reads, where a law says that a parent is older;
-- times with their sum.
--
-- Not modelled: the report's rendering; the texts of messages to an agent; asyncio's
-- interleavings of requests for different contracts, and of the analyses of a run, whose
-- callbacks are listed rule by rule; log messages; the tools' schemas and prompts. The
-- initialisations that acreate gathers are run in the dictionary's order. Negative numbers occur
-- as the sizes of static arrays only. Of the rest of the program most is calls of databases, of
-- terminals, of processes and of language models.
pub mod Prelude
pub mod Text
pub mod Timing
pub mod Cvl
pub mod Printer
pub mod Dict
pub mod Sets
pub mod Generation
pub mod Foundry
pub mod KeyMap
pub mod KeyTotals
pub mod Counter
pub mod Sorting
pub mod Agent
pub mod Io
pub mod Registry
pub mod Prover
pub mod Report
pub mod Pipeline
pub mod Examples
