-- ===== src/Main.antt =====
-- cmd/capi-shell-mcp/main.go. What happens while the daemon serves is a sequence of events, each as a
-- whole: the state that they share is behind mutexes.
pub mod Port
pub mod Kept
pub mod Daemon
pub mod Guard
pub mod Owner
pub mod Provider
pub mod Examples
use capi_shell_mcp.Base.{
  seconds, ℕ, ◌*◌, GoString, lit, List, [], ◌∷◌, Option, none, some, Result, ok, err, plain_about,
  wrapped, Exec, bind, lift, map_error, with_error, if◌then◌else◌, is_empty,
}
use capi_shell_mcp.Cache
use capi_shell_mcp.Config.{ℤ, pos, negsuc, AppConfig}
use capi_shell_mcp.Config.Load.{Host, load}
use capi_shell_mcp.Capi.Kube.{KubeApi}
use capi_shell_mcp.Proxy.Process
use capi_shell_mcp.Proxy.Process.{Manager, fire_timer, reap_exited, kill_all_process_proxies}
use capi_shell_mcp.Server.{Store, new_store, ServerState, Outside, on_world, kubeconfig_ttl}
use capi_shell_mcp.Server.Clusters.{list_targets}
use capi_shell_mcp.Server.Kubeconfig.{resolve_target}
use capi_shell_mcp.Server.Tools.{ToolOutside, ToolResult}
use capi_shell_mcp.Server.Build.{ToolCall, call_tool}
use capi_shell_mcp.Embed.{TargetResolver}
use capi_shell_mcp.Embed.FanOut.{Coding}
use capi_shell_mcp.Embed.Mount.{ToolLibrary, mount_tools}
use capi_shell_mcp.HttpServer
use capi_shell_mcp.HttpServer.{HttpRequest, Response, Network, Listener, host_check_middleware}
use capi_shell_mcp.Main.Port.{atoi}

abbrev pub default_port : ℤ
default_port = pos 4737

-- What is done with the server before an answer is there: targets are resolved and listed, with the
-- results at hand, and the world is changed and looked at.
pub data Dialogue (W : Type 0) : Type 0 where
  answers : Response → Dialogue W
  asks_target : GoString → (Result GoString → Dialogue W) → Dialogue W
  asks_all : (Result (List GoString) → Dialogue W) → Dialogue W
  works : (W → W) → (W → Dialogue W) → Dialogue W

-- The MCP package on the bodies of requests and responses.
pub record Mcp (W : Type 0) : Type 0 where
  -- The call of one of the program's own tools, if the body is one.
  pub decode_call : GoString → Option ToolCall
  pub encode : Result ToolResult → Response
  -- Any other body: the messages of the protocol, and the calls of the mounted tools, which reach the
  -- server through the TargetResolver alone; what these tools keep for themselves is in the world.
  pub answer : GoString → Dialogue W

pub data Event (W : Type 0) : Type 0 where
  -- A request, and the order of the goroutines that its tool starts.
  request : HttpRequest → List ℕ → Event W
  -- An embedded tool resolves a target, or lists all.
  resolves : GoString → Event W
  lists_targets : Event W
  timer_fires : ℕ → ℕ → Event W
  -- The process of the tunnel with that key and address exits.
  process_exits : GoString → ℕ → Event W
  world_changes : (W → W) → Event W

-- What may still happen when the tunnels have been torn down: a handler for which the shutdown has not
-- waited, a timer, the exit of a process, or a change of the world.
pub data Straggler (W : Type 0) : Type 0 where
  calling : ToolCall → List ℕ → Straggler W
  conversing : Dialogue W → Straggler W
  firing : ℕ → ℕ → Straggler W
  exiting : GoString → ℕ → Straggler W
  moving : (W → W) → Straggler W

abbrev pub store_of : AppConfig → Store
store_of cfg = new_store (seconds cfg.cache.cluster_list_ttl_seconds) (kubeconfig_ttl cfg)

-- NewStore, New and NewToolServer.
unfoldable pub new_tool_server : {W : Type 0} → AppConfig → W → ServerState W
new_tool_server cfg w = record {
  cluster_list = (store_of cfg).cluster_list;
  kubeconfig = (store_of cfg).kubeconfig;
  proxy_manager = Process.new;
  world = w;
}

unfoldable pub port_of : GoString → Result ℤ
port_of p = if is_empty p then ok default_port else elim (atoi p) [
  | none ↦ err (plain_about (lit "invalid CAPI_SHELL_MCP_PORT") p)
  | some port ↦ ok port
]

abbrev pub on_manager : {W : Type 0} → (Manager → Manager) → ServerState W → ServerState W
on_manager f s = record s { proxy_manager = f s.proxy_manager }

-- What `run` leaves. Without a configuration there is no manager.
pub record Ended (W : Type 0) : Type 0 where
  pub result : Result (Unit {0})
  pub manager : Option Manager
  pub world : W

-- os.Exit(1) after an error.
abbrev pub exit_code : Result (Unit {0}) → ℕ
exit_code (ok _) = 0
exit_code (err _) = 1

module _ {W C O : Type 0} (api : KubeApi W C O) (out : Outside W C) (tool : ToolOutside W)
    (network : Network W) (mcp : Mcp W) where
  module _ (cfg : AppConfig) where
    unfoldable pub converse : Dialogue W → ServerState W → Response × ServerState W
    converse (answers r) s = (r, s)
    converse (asks_target t k) s = let (r, s') = resolve_target api out cfg t s in converse (k r) s'
    converse (asks_all k) s = let (r, s') = list_targets api out cfg s in converse (k r) s'
    converse (works f k) s = converse (k (f s.world)) (record s { world = f s.world })

    unfoldable pub straggle : Straggler W → ServerState W → ServerState W
    unfolding converse
    straggle (calling call order) s = (call_tool api out tool cfg call order s).1
    straggle (conversing d) s = (converse d s).1
    straggle (firing i now) s = on_manager (fire_timer i now) s
    straggle (exiting k a) s = on_manager (reap_exited k a) s
    straggle (moving f) s = record s { world = f s.world }

    unfoldable pub straggle_all : List (Straggler W) → ServerState W → ServerState W
    unfolding straggle
    straggle_all [] s = s
    straggle_all (x ∷ xs) s = straggle_all xs (straggle x s)

    unfoldable pub mcp_handler : List ℕ → HttpRequest → ServerState W → Response × ServerState W
    unfolding converse
    mcp_handler order r s = elim (mcp.decode_call r.body) [
      | none ↦ converse (mcp.answer r.body) s
      | some call ↦
          let (result, s') = call_tool api out tool cfg call order s in (mcp.encode result, s')
    ]

    unfoldable pub happen : ℕ → Event W → ServerState W → ServerState W
    unfolding mcp_handler
    happen port (request r order) s = (host_check_middleware port (mcp_handler order) r s).1
    happen port (resolves t) s = (resolve_target api out cfg t s).1
    happen port lists_targets s = (list_targets api out cfg s).1
    happen port (timer_fires i now) s = on_manager (fire_timer i now) s
    happen port (process_exits k a) s = on_manager (reap_exited k a) s
    happen port (world_changes f) s = record s { world = f s.world }

    unfoldable pub serve : ℕ → List (Event W) → ServerState W → ServerState W
    unfolding happen
    serve port [] s = s
    serve port (e ∷ events) s = serve port events (happen port e s)

    abbrev pub resolver : TargetResolver (ServerState W)
    resolver = record {
      resolve_target = resolve_target api out cfg;
      list_targets = list_targets api out cfg;
    }

    -- From the mounting of the tools to the end of the shutdown, `late` being what happens after the
    -- signal.
    unfoldable pub up_and_down :
        {J : Type 0}
        → Coding J
        → ToolLibrary (ServerState W)
        → List (Event W)
        → List (Event W)
        → Exec (ServerState W) (Unit {0})
    unfolding serve
    up_and_down coding library events late =
        bind
          (lift (
            map_error (wrapped (lit "mounting kubernetes-mcp-server tools"))
              (mount_tools coding resolver library []).0))
          λ _. bind (lift (port_of (network.getenv (lit "CAPI_SHELL_MCP_PORT")))) λ port.
            bind
              (λ s.
                with_error (wrapped (lit "starting HTTP server"))
                  (on_world (HttpServer.start network port) s))
              λ ln s.
                let served = serve ln.port events s in
                let (r, closed) = on_world (HttpServer.close network) served in
                (r, serve ln.port late closed)

  -- `after` is what happens when the tunnels have been torn down, before the process ends: Close gives
  -- up waiting for the handlers after ten seconds.
  unfoldable pub run :
      {J : Type 0}
      → Host
      → Coding J
      → ToolLibrary (ServerState W)
      → List (Event W)
      → List (Event W)
      → List (Straggler W)
      → W
      → Ended W
  unfolding up_and_down new_tool_server straggle_all
  run host coding library events late after w = elim (load host) [
    | err e ↦ record { result = err (wrapped (lit "loading config") e); manager = none; world = w }
    | ok cfg ↦
        let (r, s) = up_and_down cfg coding library events late (new_tool_server cfg w) in
        let ended = straggle_all cfg after (on_manager kill_all_process_proxies s) in
        record { result = r; manager = some ended.proxy_manager; world = ended.world }
  ]
