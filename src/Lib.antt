-- ===== src/Lib.antt =====
-- A small system of web services and the tools around it, modelled and verified.
--
-- The program. Clients call api-gateway, which forwards `POST /process` to service-a. Service-a squares
-- the items of a request by parallel calls of service-b, or by a queue of workers or a thread pool, may
-- ask cpp-worker for a sum of squares, and aggregates the values. Service-b also keeps a store of keys
-- and values. fault-injector stops and starts containers and sets latency and error rates. Every service
-- is built on shared/: the environment, the retries, the metrics, the middleware and the payloads. On
-- the host, orchestration/ probes the services, restarts a container whose service stays down and brings
-- the stack up and down; monitoring/ gathers logs and metrics.
--
-- The files, and the code that each one models:
--   Prelude       helpers: Boolean tests, lists, integers, texts, results that may be exceptions, and
--                 Python's dict as pairs in the order of insertion
--   Floats, Http  the float operations and the parts of httpx that the code relies on, as records
--   CommandLine   what the commands use of argparse: options, flags, abbreviations, and how a parse ends
--   Shared        shared/utils.py (Env: env_str, env_int, env_float; Retry: retry_async; Timed: timed;
--                 Metrics: MetricsState), shared/fastapi_app.py (App: create_service_app, its middleware
--                 and its routes; App/Traffic: requests that interleave in it), shared/models.py
--                 (Models), shared/logging_config.py (Logging)
--   Orchestration orchestration/__init__.py (Targets), health_check.py (Health), recovery.py (Recovery:
--                 RecoveryWatcher with _tick as react and react_all, _recover as recover; History),
--                 orchestrator.py (Orchestrator: _parse_args, _docker_compose as run_compose,
--                 _wait_until_healthy, _amain as amain, lifecycle, supervise and watch, and main);
--                 Recovery/Loop is the watcher with the containers that it starts, Recovery/Command the
--                 command of recovery.py
--   ServiceA      services/service-a/app: worker.py (FanOut: fan_out_to_service_b; Queue:
--                 queue_pipeline; Calls: one call), main.py (Main: process in its three flavours; Info:
--                 info), config.py (Config)
--   ServiceB      services/service-b/app: storage.py (Storage), main.py (Main)
--   Gateway       services/api-gateway/app: main.py (Proxy, Health), config.py (Config)
--   FaultInjector services/fault-injector/app: injector.py (Injector), main.py (Main)
--   System        api-gateway in front of service-a, each behind its middleware (Answers, Refusals), service-a in
--                 front of service-b (Squares; Agree: its three flavours), the fault injector beside the
--                 watcher over the same containers (Chaos), the metrics collector over a service
--                 (Metrics), the start of each service (Startup), and the way of a service's log line
--                 into the aggregator (Logs)
--   Monitoring    monitoring/log_aggregator.py (LogAggregator; Main: _amain and its child process;
--                 Arguments: _parse_args), metrics_collector.py (MetricsCollector; Main: _amain;
--                 Arguments: _parse_args and the paths of the two files)
--   Tests         every theorem below at a concrete input
--
-- State and concurrency. A component's state is a record, and an operation takes it and returns it. What
-- the world does is an argument: what a request meets (`Exchange`), what docker and `docker compose`
-- answer, the clock, the random draws. The event loop of asyncio is explicit where its order matters: a
-- schedule of the fan-out or of the queue is a list of moves, each a step between two awaits, and a
-- theorem holds for all of them. Requests that are in a service at a time are tasks of a step relation,
-- and what holds of them is proved by induction on what can be reached. Handlers that do not await
-- between a read and a write are single steps. An exception is a value: `HandlerError` tells an
-- `HTTPException` from one that goes up to the middleware.
--
-- Bounds and fuel. There is no fuel to run out of. The loop of retry_async and the wait for the stack
-- recurse on the attempts that are left, which the code bounds too. A run of the watcher, of the metrics
-- collector or of the log aggregator reaches as far as the rounds or lines that it is given; the results
-- of the first two say whether the loop has ended. The fan-out and the queue are relations on schedules:
-- their length is bounded by twice the number of items, and a schedule that is shorter can go on.
--
-- Floats are a type with operations and no law, so what is stated holds for the binary64 numbers of the
-- interpreter; integers are exact, as Python's are. Texts are read as ASCII where characters are tested.
--
-- Whether the docker binary can be started is an argument, of `docker compose` and of `docker start`, and so is what
-- `docker compose` exits with and prints, a line over the limit of the stream included; a command of `docker compose` or
-- `docker start` that has been started is taken to end, but for the child of the log aggregator.
-- The URLs that the services and the tools are configured with are taken to be ones that httpx
-- accepts; `httpx.InvalidURL`, which is no `HTTPError`, does not occur in `Exchange`.
--
-- Not modelled: cpp-worker, which is C++; structlog, whose processors are parameters; the lifespans of
-- the HTTP clients; a platform without signal handlers, where a signal ends a command instead of
-- requesting its stop; Docker, compose and test files; the cancellation of a request inside a handler;
-- texts of numbers of more than 4300 digits, which `int` and `str` refuse.
pub mod Prelude
pub mod Floats
pub mod Http
pub mod Shared
pub mod Orchestration
pub mod Monitoring
pub mod ServiceB
pub mod ServiceA
pub mod CommandLine
pub mod FaultInjector
pub mod Gateway
pub mod System
pub mod Tests
