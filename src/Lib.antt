-- ===== src/Lib.antt =====
-- A verification library for the Conduit Python client, `src/conduit`: a builder of pipelines, a
-- gRPC client that submits them to an engine and watches them, the provisioning of the engine's
-- binary, and the supervision of an engine on the same host. Paths are those of the repository.
--
-- How the parts work together. `Pipeline` collects calls and renders them into a `BuildPlan`.
-- `Client.run` sends the plan, request by request, over the stubs of a channel, and returns a
-- `Run`, which asks for the status of its pipeline and waits for it. Every failed RPC goes through
-- `ConduitError.from_rpc_error`. `ensure_binary` downloads, checks and installs the binary of an
-- engine; `local` starts it in a process, waits for it, and stops it when its client is closed.
--
-- The files, and the code that they are about:
--   Prelude          the parts of Python's standard library that the code uses, on texts,
--                    dictionaries, integers and lines, with their lemmas
--   Errors           src/conduit/errors.py: `ConduitError`, `from_rpc_error`, `_code_from_status`,
--                    `__str__`; the classes of exceptions that the program tells apart, and
--                    `Outcome`, a value or an exception
--   Wire             src/conduit/_grpc/api/v1/api_pb2.pyi: the messages that the client builds and
--                    reads, the RPCs that it calls, and protobuf's check of `int32` and `uint64`
--   Pipeline         src/conduit/pipeline.py: `_settings`, the specs, `source`, `destination`,
--                    `process`, `dlq`, `build_requests`
--   Exec             methods on a state that may raise: the state comes back with the exception
--   Client           src/conduit/client.py: `_call`, `get_info` (here `get_engine_info`), `run`,
--                    `close`, `connect`. `World` is the state of a client: that of the engine, the
--                    flag of `close`, and a trace of what the client has done to the outside, which
--                    only the theorems read
--   Run              src/conduit/run.py: `_strip_enum_prefix`, `RunStatus`, `Run.status`,
--                    `wait_running`, `stop`
--   Session          src/conduit/client.py and src/conduit/run.py together: any calls on one client and
--                    its handles, in any order, and the `with` block around them (`__enter__`,
--                    `__exit__`)
--   Package          src/conduit/__init__.py: what the package imports and exports
--   Quickstart       examples/quickstart.py: the pipeline of the example, and the program that starts an
--                    engine, runs a pipeline, waits for it, prints its status and stops it
--   Imports          src/conduit/_grpc/__init__.py: the directory of the generated code on `sys.path`
--   Checksums        src/conduit/_provision.py: `_verify_checksum`
--   Install          src/conduit/_provision.py: the end of `ensure_binary`, from `mkdir` on. `Host` is
--                    the files, now and at each earlier moment, and the URLs that have been
--                    fetched; `Faults` says which calls on the file system fail. `Install/Changes` has
--                    an installation as the list of the changes that it makes, for two at a time
--   Provision        src/conduit/_provision.py: the rest of it
--   Process          src/conduit/_local.py: the process and its log file, `_terminate`,
--                    `_atexit_kill` and the exit of the host, `_log_tail`. `Machine` is the operating
--                    system; `Supervised` is the state of a `LocalConduit`, with a record of what has
--                    been done to the process
--   Local            src/conduit/_local.py: `_wait_ready`
--   Local/Launch     src/conduit/_local.py: the constructor of `LocalConduit`, `local`, and `run`,
--                    `get_info`, `close` and the `with` block
--   Stubs            src/conduit/_grpc/api/v1/api_pb2_grpc.py: the stubs, and the handlers that a
--                    server registers, a child for each service, the generated servicers, and the
--                    classes of the experimental API, as tables; what grpc does with them is not
--                    modelled
--   Tests            a small engine, a small network, and the theorems at concrete data
--
-- The parameters. `Engine` answers each RPC in any way, may change its state with it, and may raise
-- any exception; it has the clock too. `Surroundings` has the network, the platform, the archive
-- formats, SHA-256 and UTF-8. `Machine` is an operating system whose calls may fail and whose
-- process may exit at any time. What grpc, grpc_status and protobuf make of a failed call is data
-- of the failure (`Call`, `StatusLookup`, `Detail`).
--
-- What the theorems assume of these is in named hypotheses: that a clock does not go back and a
-- sleep moves it on (`IsClock`, `IsMachineClock`), if it is not interrupted; that the file of
-- `mkstemp` is a new one; for the check of a checksum, that UTF-8 decodes to the listing. What is
-- sure to happen needs more: for a wait that succeeds, an engine that answers in bounded time and
-- whose pipeline runs from some time on (`IsPrompt`, `IsHealthy`); for a start that succeeds, a
-- process that lives and whose API answers from some time on (`IsServing`); for a program that
-- succeeds, an engine that creates the pipeline that it is sent, accepts what belongs to it, starts
-- it, and keeps it started and not degraded while the client waits for it (`IsAccepting`, `IsKept`,
-- `IsWorking`), and of which nothing is supposed for other pipelines or behind a stop; for a process
-- that exits, a system whose reports are true, whose signals arrive, and where nothing else starts the
-- process (`IsReported`, `IsDelivered`, `IsSole`, `IsLasting`). The hook of a client is any
-- function; where it matters, one that lets no raw failure out (`HookTranslates`).
--
-- The choices. Times are milliseconds in ℕ, so the 5.0 seconds of `Run.status` are 5000. Integers
-- that a caller gives are ℤ, checked where protobuf checks them. The number of an enum is any ℤ, as
-- proto3 enums are open; the text of the `ValueError` for one without a name is without that number.
-- The `str()` of a setting that is no Boolean is given with the setting. The builder's methods
-- return the changed object, since it has one owner and they return it. `lower` is that of ASCII, as
-- the names that it is applied to are. Paths are POSIX paths in texts, on every system. A file is
-- there when it has a content, and asking whether it is there does not fail; the path of the
-- binary is never a directory. So a version that begins with `/` is a part of a path like any other.
--
-- Fuel. The loops of `wait_running` and `_wait_ready` run on fuel, and `none` is a loop that has
-- run out of it. Each round sleeps, by at least 1 on the clock, so the fuel that the theorems ask
-- for is one round more than the milliseconds of the timeout. All other loops are recursive on the
-- list that they run over.
--
-- Not modelled: the messages of the API that the client does not use; the options that the classes
-- of the experimental API pass on to grpc; a crash of the operating system, which may lose what it
-- has not written to its disk yet; two threads on one client. An interrupt from the keyboard may
-- come out of every sleep and of every call of a parameter that returns an `Outcome`, so of an RPC,
-- a download, the start of the process and the wait for its end; one that arrives between two of
-- these is not modelled, as behind `Popen` and in front of the `try` around the wait for the
-- engine.
pub mod Prelude
pub mod Errors
pub mod Wire
pub mod Pipeline
pub mod Exec
pub mod Client
pub mod Run
pub mod Session
pub mod Imports
pub mod Checksums
pub mod Install
pub mod Provision
pub mod Package
pub mod Quickstart
pub mod Process
pub mod Local
pub mod Stubs
mod Tests
