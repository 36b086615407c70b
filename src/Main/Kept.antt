-- ===== src/Main/Kept.antt =====
-- Properties of the state that every event of the daemon keeps.
use capi_shell_mcp.Base.{
  ℕ, GoString, lit, List, [], ◌∷◌, Result, ok, err, lift, Preserves, bind-Preserves, Option-cases,
  inl, inr, map_error, with_error, wrapped, arith,
}
use capi_shell_mcp.Config.{AppConfig}
use capi_shell_mcp.Capi.Kube.{KubeApi}
use capi_shell_mcp.Proxy.Process.{fire_timer, reap_exited}
use capi_shell_mcp.Server.{ServerState, Outside, on_world}
use capi_shell_mcp.Server.Tools.{ToolOutside}
use capi_shell_mcp.Server.Kept.{
  IsKept, on_world-Preserves, resolve_target-Preserves, list_targets-Preserves,
}
use capi_shell_mcp.Server.Build.Kept.{call_tool-Preserves}
use capi_shell_mcp.Embed.FanOut.{Coding}
use capi_shell_mcp.Embed.Mount.{ToolLibrary, mount_tools}
use capi_shell_mcp.HttpServer
use capi_shell_mcp.HttpServer.{Network, HttpRequest, Listener, host_check_middleware}
use capi_shell_mcp.Server.Clusters.{list_targets}
use capi_shell_mcp.Server.Kubeconfig.{resolve_target}
use capi_shell_mcp.Main.{
  Mcp, Dialogue, answers, asks_target, asks_all, works, converse, Event, request, resolves,
  lists_targets, timer_fires, process_exits, world_changes, mcp_handler, happen, serve, resolver,
  up_and_down, port_of, on_manager,
}

module _ {W C O : Type 0} (api : KubeApi W C O) (out : Outside W C) (tool : ToolOutside W)
    (network : Network W) (mcp : Mcp W) where
  module _ (cfg : AppConfig) (P : ServerState W → Type 0) (k : IsKept api out cfg P)
      (fires : (i now : ℕ) → (s : ServerState W) → P s → P (on_manager (fire_timer i now) s))
      (exits : (key : GoString) (a : ℕ)
        → (s : ServerState W) → P s
        → P (on_manager (reap_exited key a) s)) where
    converse-Preserves : (d : Dialogue W) → Preserves P (converse api out tool network mcp cfg d)
    unfolding converse
    converse-Preserves (answers r) s v = v
    converse-Preserves (asks_target t next) s v =
        converse-Preserves (next (resolve_target api out cfg t s).0) _
          (resolve_target-Preserves api out cfg P k t s v)
    converse-Preserves (asks_all next) s v =
        converse-Preserves (next (list_targets api out cfg s).0) _
          (list_targets-Preserves api out cfg P k s v)
    converse-Preserves (works f next) s v =
        converse-Preserves (next (f s.world)) _ (k.world s (f s.world) v)

    mcp_handler-Preserves :
        (order : List ℕ) (r : HttpRequest)
        → Preserves P (mcp_handler api out tool network mcp cfg order r)
    unfolding mcp_handler
    mcp_handler-Preserves order r s v = elim (Option-cases (mcp.decode_call r.body)) [
      | inl other ↦ rw (other, mcp_handler) (converse-Preserves (mcp.answer r.body) s v)
      | inr (call, decoded) ↦
          rw (decoded, mcp_handler) (call_tool-Preserves api out tool cfg P k call order s v)
    ]

    happen-keeps :
        (port : ℕ) (e : Event W) (s : ServerState W)
        → P s
        → P (happen api out tool network mcp cfg port e s)
    unfolding happen host_check_middleware
    happen-keeps port (request r order) s v = ground (arith, v, mcp_handler-Preserves order r s v)
    happen-keeps port (resolves t) s v = resolve_target-Preserves api out cfg P k t s v
    happen-keeps port lists_targets s v = list_targets-Preserves api out cfg P k s v
    happen-keeps port (timer_fires i now) s v = fires i now s v
    happen-keeps port (process_exits key a) s v = exits key a s v
    happen-keeps port (world_changes f) s v = k.world s (f s.world) v

    pub serve-keeps :
        (port : ℕ) (events : List (Event W)) (s : ServerState W)
        → P s
        → P (serve api out tool network mcp cfg port events s)
    unfolding serve
    serve-keeps port [] s v = v
    serve-keeps port (e ∷ events) s v =
        serve-keeps port events (happen api out tool network mcp cfg port e s)
          (happen-keeps port e s v)

    pub up_and_down-Preserves :
        {J : Type 0} (coding : Coding J) (library : ToolLibrary (ServerState W))
        (events late : List (Event W))
        → Preserves P (up_and_down api out tool network mcp cfg coding library events late)
    unfolding up_and_down
    up_and_down-Preserves coding library events late =
        bind-Preserves P
          (lift (
            map_error (wrapped (lit "mounting kubernetes-mcp-server tools"))
              (mount_tools coding (resolver api out tool network mcp cfg) library []).0))
          _ (λ s v. v)
          λ _.
            bind-Preserves P (lift (port_of (network.getenv (lit "CAPI_SHELL_MCP_PORT")))) _
              (λ s v. v)
              λ port.
                bind-Preserves P
                  (λ s.
                    with_error (wrapped (lit "starting HTTP server"))
                      (on_world (HttpServer.start network port) s))
                  _
                  (λ s v.
                    started (on_world (HttpServer.start network port) s)
                      (on_world-Preserves api out cfg P k (HttpServer.start network port) s v))
                  λ ln s v. serve-keeps ln.port late _ (
                    on_world-Preserves api out cfg P k (HttpServer.close network) _
                      (serve-keeps ln.port events s v))
      where
        started :
            (r : Result Listener × ServerState W)
            → P r.1
            → P (with_error (wrapped (lit "starting HTTP server")) r).1
        started (ok ln, s) v = v
        started (err e, s) v = v
