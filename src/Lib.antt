-- ===== src/Lib.antt =====
-- The Python reference implementation of UEnv: the SDK that runs datasets, environments, agents, tools
-- and scorers in processes which a Rust Worker manages.
--
-- The parts and their files. Paths are those of the repository; SDK is reference/sdk/src/uenv/sdk.
--   Agent            SDK/agent_context.py and SDK/agents.py: the Agent's view of the Worker and
--                    `PlainAgent`, its loop of generations and tool calls. Config has its configuration.
--   Tools            SDK/tools.py: `ToolHost`. Execute has `execute`, Freeze has `freeze`,
--                    Declare the decorator `tool`.
--   Modeling         SDK/modeling.py: typed models, their envelopes, and the JSON Schema that is
--                    generated from them (Schema).
--   Scoring          SDK/__init__.py: scoring contexts and results; Trajectory and Lines have
--                    `read_scoring_trajectory`, Harness has `evaluate_harness`.
--   Task             SDK/__init__.py: `task_from_wire`.
--   Session          SDK/session.py: files and processes of the session, and its freezing.
--   ScorerHost       SDK/scorer_host.py.
--   EnvironmentHost  SDK/environment_host.py. State has its record and what it stands on.
--   ComponentHost    SDK/component_host.py: the agent process. Preparing has `prepare_agent`, Running
--                    `run_agent` with the `bind_task` of SDK/agent_context.py.
--   Rpc              SDK/rpc.py: the pending requests of a peer and the turns of its reader.
--   SchemaRegistry   SDK/schema_registry.py: registration of schemas; Defaults has `apply_defaults`.
--   Provider         SDK/model_provider.py: one generation by an OpenAI-compatible endpoint. Chat has the
--                    request and the reply.
--   Packages         reference/package_loader.py: `select_manifest` and `lookup_tool`; Declarations and
--                    Fields check a package, Runs has `expand_run`.
--   Datasets         reference/datasets: Adapters has `normalize`, Prompts the parts of a first observation,
--                    Answers what a text scorer reads, and each package has a file (the four of SWE-bench
--                    under Swe) with its classes, its adapter, `reset` and `score`.
--   Rules            reference/shared/src/uenv_reference_rules/__init__.py: Braces, Numeric, Labels and
--                    Scores, with the scores of the four text data sets.
--   Examples         reference/examples: Counter is the counter environment, its tool and its scorer.
--   Strings, Json    what the sources use of `str` and of `json.dumps`, on native strings.
--   Wire, Value, Result, Exec, Base   the objects of the wire, JSON, exceptions, methods with state, and
--                    what all of them share.
--   Tests            runs on concrete inputs.
-- A file for a component has its state as a record and one function per method, named as in Python, or
-- after the class where two classes have the method. The files beneath it hold the proofs.
--
-- How the parts interact. The Worker starts a role process and sends requests to its host over the
-- peer. The environment host keeps the environment, the session and a tool host; a tool host assembles
-- its table from the bindings that the Worker resolved, runs one call at a time under its lock, and
-- freezes before anything is scored. The agent reaches the Worker by `generate` and `step`. The
-- scorer host reads frozen trajectories and runs harnesses through the Worker. The agent process has
-- a tool host of its own for the tools that keep agent state. A dataset package makes samples of rows;
-- their input goes to the environment and to the agent in an envelope, their private data to the scorer
-- alone.
--
-- What stands for other code. `Agent.Worker` is the peer with the Worker behind it; `Tools.Checks` the schema
-- registry's validation, the JSON Schema validator and `json.dumps`; `Tools.Execute.Process` threads,
-- tasks and shutdown functions; `Session.System` the file system and `subprocess`;
-- `EnvironmentHost.State.Plugin` the environment of a package and `ScorerHost.ScorerWorld` its scorer;
-- `Scoring.Lines.Decoder`, `SchemaRegistry.Codec` and `Provider.ProviderWorld` hashes, JSON, the clock
-- and the HTTP client; `ComponentHost.ComponentWorld` the classes of agents, MCP and the event loop;
-- `Packages.Runs.RunRegistry` the registry that a submission uses, and `Rules.Numeric.Floats` the floats of
-- Python. Tool functions are any function on an unknown state of the process. A check of
-- those may accept or refuse anything.
-- A task of asyncio runs to its next await alone, and a lock admits one call at a time; what remains of
-- concurrency is the order of the steps, which `Tools.Freezing.Event`, `Rpc.Pending.Step` and the
-- requests of the hosts make explicit. Copies that the source makes with `deepcopy` are the values themselves.
--
-- A host takes one request after the other: its dispatcher has eight threads, but the Worker's `call_with`
-- (reference-control/src/rpc.rs) sends a request and waits for its answer before it sends the next.
-- `Result.no_answer` stands for a call that never returns: a tool of an agent process that has closed.
-- `Rpc.Pending.Step` is finer: each use of the peer's lock is a step. Only the reader closes a peer.
--
-- Bounds. Python's own limit on nested calls is the fuel of `Modeling.restore`,
-- `Modeling.Schema.part_schema`, `SchemaRegistry.Defaults.expand` and `Packages.Fields.check_fields`, with
-- `RecursionError` as its result. It counts the calls of the functions that are modelled, not the frames
-- of their callers and of the library. The loop of `_numeric` over a command has as many rounds as the text has
-- characters, which is enough, since each round makes the text shorter. The loop of `PlainAgent` has fuel,
-- and more fuel than the Worker's budget of generations is enough. Integers of Python have no width.
-- Times are natural numbers of microseconds and floats are kept as texts.
--
-- Not modelled: generated protobuf code, the Rust control plane, the scripts that build and validate
-- the repository's documents, the OpenHands and MCP adapters, the wrapper that runs a declared tool,
-- the fixture plan, the scorer of generation_scoring.py, and the parts of the package loader that import
-- modules and write files. The texts that `repr` gives for lists and dicts are a parameter.
pub mod Agent
pub mod Base
pub mod ComponentHost
pub mod Datasets
pub mod EnvironmentHost
pub mod Examples
pub mod Exec
pub mod Json
pub mod Modeling
pub mod Packages
pub mod Provider
pub mod Result
pub mod Rpc
pub mod Rules
pub mod SchemaRegistry
pub mod ScorerHost
pub mod Scoring
pub mod Session
pub mod Strings
pub mod Task
pub mod Tests
pub mod Tools
pub mod Value
pub mod Wire
