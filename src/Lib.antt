-- ===== src/Lib.antt =====
-- capi-shell-mcp is an MCP server for the workload clusters of Cluster API. Its tools take cluster
-- targets, "kubeconfig/context/namespace/name", or prefixes of them; the server selects the clusters,
-- fetches their kubeconfigs through a cache, keeps the sshuttle tunnels that some of them need, and
-- runs commands in them. The tools of kubernetes-mcp-server are embedded behind the same selection.
--
-- The files, and the code of the repository that each one is about:
-- - Base and Base/*: what the modules share. Text (strings as lists of code points, the functions of
--   the package strings), Maps (Go maps as association lists), Errors and Effects (results with an
--   error, and functions on a state that may fail and keep what they changed), FanOut (the goroutines
--   of a WaitGroup that each write one slot of a slice), Integers (durations), Lists, Numbers, Sort,
--   Tests.
-- - Capi/Target: FormatTarget and ParseTarget of internal/capi/target.go. Capi/Pattern:
--   internal/capi/target_pattern.go. Capi/Resolve: ResolveClusterPatterns and dedupePreserveOrder of
--   internal/capi/resolve_patterns.go. Capi/Keys: the cache keys of internal/capi/store.go.
-- - Config: the records of internal/config/config.go. Config/Env: expandEnv. Config/Yaml: the decoded
--   values and the type assertions. Config/Load: Load and LoadConfig with the parsers.
-- - Capi/Jq: evalCustomFields of clusters.go, and transform.go. Capi/Kube: clusters.go,
--   kubeconfig_fetch.go and openstack.go of internal/capi. Capi/ReadOnly: internal/capi/readonly.go.
-- - Cache: internal/cache/cache.go, Get, Set, Delete (`remove`) and Clear.
-- - Shell: the types of internal/shell/shell.go. Shell/Run: its ExecFile, with limitedWriter.Write in
--   parts. Exec: WithKubeconfig of internal/exec/exec.go. Exec/Temp:
--   its writeTempKubeconfig, and the file on the disk.
-- - Proxy/Process: internal/proxy/manager.go for tunnels that are child processes, with the timers of
--   internal/proxy/clock.go. Proxy/Systemd: the same file for units of systemd, and EnsureProxy.
--   Proxy/Spawn: DefaultSpawnProcess, IsUnderSystemd and the startup window.
-- - Server: the state of the ToolServer of internal/server/server.go. Server/Clusters: resolve.go,
--   target.go and the listing helpers of server.go. Server/Kubeconfig: kubeconfig.go and
--   ResolveTarget. Server/Tools: the tools of tools.go that list clusters and return kubeconfigs.
--   Server/Execution: those that run commands. Server/Build: build.go and types.go.
--   Server/Clients: clients.go, and internal/capi/kubeconfig.go. Server/Kept: what every tool keeps
--   of the state. Server/Owner: whose kubeconfigs the cache of cachedKubeconfig holds and the tools
--   use, and, in Server/Owner/Calls, the same for calls of cachedKubeconfig that interleave.
-- - Embed/FanOut: the wrapped handler of internal/embed/fanout.go. Embed/Provider:
--   internal/embed/provider.go. Embed/Mount: mount.go, and the schemas of fanout.go.
-- - HttpServer: server.go, middleware.go and notify.go of internal/httpserver.
-- - Main: cmd/capi-shell-mcp/main.go. Main/Port: strconv.Atoi, which reads the port. Main/Kept and
--   Main/Owner: Server/Kept and Server/Owner for every run of the daemon. Main/Provider: the provider
--   of managers over the ToolServer, with calls for managers that interleave.
-- A child module of a component has its theorems, and the modules named Examples have tests and
-- instances of the theorems.
--
-- How state is modelled. A method is a function from the state to a result and the next state. The
-- world behind client libraries, files, processes and the clock is a type parameter `W`, and what the
-- code calls there is a field of a record (KubeApi, RbacApi, System, TempFiles, OsExec, ProcessOs,
-- Outside, Library, Coding, Jq, TargetResolver, Host, Network, ClientLibrary, ToolLibrary, Mcp).
-- Of these nothing is assumed, but where a theorem says so: the contract of the RBAC objects
-- (Capi/ReadOnly/Converges), files that keep what is written to them (Exec/Temp), what os/exec reports
-- of a run (Shell/Run/Whole), and the names in Kubernetes, which have no colon (Server/Owner).
-- A time is a natural number of nanoseconds, long after 0, and a duration an integer. The map of tunnels holds addresses of a heap, since the code keeps
-- pointers. Goroutines of a fan-out run one after the other, in an order that is an argument and over
-- which the theorems quantify, and the daemon runs on a sequence of events, each as a whole; a method
-- under a mutex is one step. A request for a mounted tool is a dialogue with the server, which it
-- reaches through the TargetResolver alone. After the tear-down of the tunnels, handlers for which the
-- shutdown has not waited may still run. Four places take the code apart and let the parts interleave in any
-- way: the operations of the manager of tunnels (Proxy/Process/Race and Proxy/Process/Interleave), the
-- calls of cachedKubeconfig (Server/Owner/Calls) and of managerForTarget (Main/Provider/Calls), and the
-- Writes to the two buffers of a command, which share a counter without a lock (Shell/Run).
-- There is fuel in `itoa`, where a number has fewer digits than its value plus one, and in `expand`,
-- where each round takes at least one character, so that the length of the text is enough
-- (Config/Env/Fuel: more fuel changes nothing).
--
-- Not modelled: jq, the YAML and JSON packages, the MCP package, client-go, os/exec and the tools of
-- kubernetes-mcp-server (parameters), JSON texts of results (kept as data), the descriptions of tools,
-- the ServeMux, logging, and the passing on of contexts and their cancellation. A number of seconds
-- is not bounded: the overflow of time.Duration is left out.
-- In Proxy/Process/Interleave an exchange of a timer is whole, and so is the arming of a timer with
-- the storing of its entry; Proxy/Process/Unwatched has the halves of the latter.
pub mod Base
pub mod Config
pub mod Capi
pub mod Cache
pub mod Shell
pub mod Exec
pub mod Proxy
pub mod Server
pub mod Embed
pub mod HttpServer
pub mod Main
