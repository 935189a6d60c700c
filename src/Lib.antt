-- ===== src/Lib.antt =====
-- cpip, a package manager for Android that installs, builds and runs packages with the help of a
-- cloud: a model of its Python code and theorems about it.
--
-- The client resolves a package to a strategy (client/resolver.py), tries the strategies in their
-- order (client/installer.py) and keeps wheels in a cache of bounded size (client/cache.py). It
-- talks to the server in messages (shared/protocol.py), with retries and a circuit breaker
-- (runtime/fallback.py), and puts streamed results together (runtime/streaming.py). The server
-- limits the rate of requests (server/auth/rate_limiter.py), holds the connections and the
-- sessions of devices (server/ws/), answers their calls at its WebSocket endpoint (server/app.py)
-- and keeps builds and executions for its REST interface (server/services/). Builds wait in a
-- queue (builder/queue.py) for a worker that compiles, scans and signs (builder/worker.py,
-- builder/scanner.py). Executions take containers from a pool (executor/container.py). Virtualized
-- packages are fetched in ranges (virtualization/fetcher.py), kept as layers that are composed and
-- mounted on the import path (virtualization/layers.py, mount.py) and loaded when they are first read
-- (loader.py), with manifests in a registry (registry.py). The settings are in a file (client/config.py), the users of the REST interface
-- (server/api/) have tokens (server/auth/). Imports of packages that are registered for the cloud
-- make proxies (runtime/hooks.py), whose calls are sent (runtime/interceptor.py) with serialized
-- arguments (runtime/serialization.py). Agents run pipelines of tasks (agent/), and wheels are signed and their
-- signatures verified (builder/signer.py, security/).
--
-- The modules, and the code that each models:
--   Common                      numbers, lists, tests, dicts and times that the others share
--   Files                       paths, a disk, what hashlib and stat read of a file
--   Client.Cache                client/cache.py, class CacheManager: a state that each method takes
--                               and returns. State has the index and its file, Evict `_maybe_evict`,
--                               Wheels `get_wheel` and `store_wheel`, Layers `get_layer` and
--                               `store_layer`, Metadata the two methods on metadata, Maintain `clear`
--                               and `verify_integrity`
--   Client.Config               client/config.py: the settings, their files and defaults; Toml has the
--                               text of the file, Saving `save_config` and `save_auth`
--   Client.Resolver             client/resolver.py, class PackageResolver
--   Client.Installer            client/installer.py, class PackageInstaller, on a world of the cache,
--                               the processes that ran and the packages with a proxy
--   Client.Sync                 client/sync.py: SyncManager
--   Client.Daemon               client/daemon.py: CpipDaemon, its connection and its calls; Messages
--                               has what comes from the cloud
--   Runtime.Fallback            runtime/fallback.py: FallbackChain, retry_async, CircuitBreaker
--   Runtime.Hooks               runtime/hooks.py, on what `sys` holds; runtime/proxy.py: ProxyFactory
--   Runtime.Interceptor         runtime/interceptor.py: CloudSession, on the messages of its connection
--   Runtime.Scheduler           runtime/scheduler.py: ExecutionScheduler
--   Runtime.Serialization       runtime/serialization.py: Values has the Python values and the libraries,
--                               Encode the `serialize_` functions, Decode the `deserialize_` ones
--   Runtime.Streaming           runtime/streaming.py: StreamReceiver, StreamManager
--   Server.Api                  server/api/: the handlers of builds, executions and packages, over the
--                               services, the tokens and the rate limiter; Typed says which they
--                               answer: the 422 and 500 of the framework are outside of it
--   Server.Auth.Tokens          server/auth/jwt_handler.py, server/auth/middleware.py, server/api/auth.py
--   Server.Auth.RateLimiter     server/auth/rate_limiter.py: RateLimiter and check_rate_limit
--   Server.Services.Builds      server/services/build_service.py: BuildService
--   Server.Services.Execution   server/services/execution_service.py: ExecutionService
--   Server.Services.Packages    server/services/package_service.py: PackageService
--   Server.Ws.Hub               server/ws/hub.py: ConnectionHub
--   Server.Ws.Sessions          server/ws/sessions.py: SessionManager
--   Server.Ws.Rpc               server/ws/rpc.py: RPCDispatcher
--   Server.Ws.Endpoint          server/app.py: websocket_endpoint, as events of its tasks
--   Shared.Json                 the values of JSON and their truth
--   Shared.Protocol             shared/protocol.py: MessageType, RPCMessage, the make_ functions
--   Builder.Queue               builder/queue.py: BuildQueue
--   Builder.Scanner             builder/scanner.py: PackageScanner
--   Builder.Worker              builder/worker.py: BuildWorker
--   Executor.Container          executor/container.py: ContainerPool
--   Executor.Sandbox            executor/sandbox.py: Sandbox
--   Executor.Runtimes           executor/gpu_runtime.py: GPURuntime; executor/browser_runtime.py
--   Executor.Routing            executor/pool.py: ExecutionPool
--   Virtualization.Fetcher      virtualization/fetcher.py: ChunkDownloader
--   Virtualization.Layers       virtualization/layers.py: LayerManager
--   Virtualization.Mount        virtualization/mount.py: VirtualMount
--   Virtualization.Registry     virtualization/registry.py: PackageRegistry
--   Virtualization.Loader       virtualization/loader.py: LazyModule, LazyFinder, LazyLoader
--   Virtualization.Linker       virtualization/linker.py: DynamicLinker
--   Agent.Orchestrator          agent/orchestrator.py: Orchestrator, on a heap of the objects that the
--                               steps of a pipeline share
--   Agent.Router                agent/router.py: ModelRouter
--   Security.Signing            builder/signer.py: PackageSigner; security/signing.py: SignatureVerifier
--   Security.Crypto             security/crypto.py: CryptoManager
--   Security.Audit              security/audit.py: AuditLogger
--   Security.Policy             security/sandbox.py: SandboxSecurityConfig
-- A module's children hold its proofs, and Tests its runs.
--
-- Conventions. A class is a record, a method a function that takes the record and returns it beside
-- its result, under the method's name without the leading underscore; a Python dict is an association
-- list in the order of insertion (Common.Dict). A reading of the clock is an argument, a natural
-- number of microseconds, so that a difference of times stops at 0; a float that is compared only is a
-- natural number. What an exception does is a result. Coroutines run one after the other up to an
-- await; where an order of several is open, it is an argument or a sequence of events.
--
-- Loops are by recursion on the list that they run over, or on fuel: an eviction takes an entry in
-- each round, so the length of the index is enough; the padding of a stream adds an element in
-- each round, so the index and one are enough; the loop over the ranges of a download advances
-- with each round if the chunk size is positive, so the size of the file is enough; `last_part` of
-- an address leaves a shorter text with each cut, so its length is enough; a number has no more digits than its value and one, so the number is enough for its
-- text. The endless loops of the worker and of the heartbeats are run for a given number of rounds.
--
-- Parameters are the code outside the repository: hashlib and stat (Files.Os), HTTP servers, processes
-- (pip, pkg, apt, docker), JSON texts, tar files, the signing and the decoding of tokens (jose),
-- tomllib, base64, pickle and numpy, Ed25519 and AES-GCM, the handlers of calls.
--
-- Not modelled: errors of the operating system other than those in Files.OsError, a directory in
-- the place of a wheel, an index file with entries that lack a key; printing and logging; the
-- database, the command line, the detection of the platform, the tools of the agent; links in tar
-- files, and members of one that need a file and a directory at one path; texts of another form than the code writes, as keys of dicts that are no text; rounded
-- numbers for display.
pub mod Common
pub mod Files
pub mod Agent
pub mod Builder
pub mod Client
pub mod Executor
pub mod Runtime
pub mod Security
pub mod Server
pub mod Shared
pub mod Virtualization
