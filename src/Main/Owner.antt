-- ===== src/Main/Owner.antt =====
-- The clusters in which the daemon runs commands, and whose kubeconfigs it hands out.
mod Examples
use capi_shell_mcp.Base.{
  ℕ, GoString, List, [], str_eq, lookup, Option, some, ok, Bool, true, false, nub, nat_eq,
  get_elem?, contains, Lacks, All, Option-cases, none, ◌⊎◌, inl, inr, ◌≡◌,
}
use capi_shell_mcp.Cache
use capi_shell_mcp.Capi.Keys.{colon}
use capi_shell_mcp.Capi.Kube.{KubeApi, none_of}
use capi_shell_mcp.Capi.Target.{TargetParts, parse_target}
use capi_shell_mcp.Capi.Resolve.Strict.{HasFour}
use capi_shell_mcp.Config.{AppConfig}
use capi_shell_mcp.HttpServer.{Network}
use capi_shell_mcp.Server.{ServerState, Outside}
use capi_shell_mcp.Server.Tools.{ToolOutside, ClusterExecResult, executions}
use capi_shell_mcp.Server.Execution.{any_exec_error, exec_in_cluster_fan_out}
use capi_shell_mcp.Server.Owner.{NamesHaveNoColon, HasPlainNames, OwnsCache}
use capi_shell_mcp.Server.Owner.Execution.{RanIn}
use capi_shell_mcp.Server.Owner.Kept.{OwnsCache-IsKept, exec_in_cluster-RanIn}
use capi_shell_mcp.Server.Owner.Handed.{Handed}
use capi_shell_mcp.Main.{Mcp, Event, serve, new_tool_server}
use capi_shell_mcp.Main.Kept.{serve-keeps}

module _ {W C O : Type 0} (api : KubeApi W C O) (out : Outside W C) (tool : ToolOutside W)
    (network : Network W) (mcp : Mcp W) (cfg : AppConfig) where
  pub new_tool_server-OwnsCache : (w : W) → OwnsCache api out cfg (new_tool_server cfg w)
  unfolding new_tool_server Cache.new lookup
  new_tool_server-OwnsCache w key e there = absurd (cc)

  module _ (no_colon : NamesHaveNoColon api) (names : HasPlainNames cfg) where
    serve-OwnsCache :
        (port : ℕ) (events : List (Event W)) (w : W)
        → OwnsCache api out cfg
            (serve api out tool network mcp cfg port events (new_tool_server cfg w))
    serve-OwnsCache port events w =
        serve-keeps api out tool network mcp cfg (OwnsCache api out cfg)
          (OwnsCache-IsKept api out cfg no_colon names) (λ i now s v. v) (λ key a s v. v) port
          events (new_tool_server cfg w) (new_tool_server-OwnsCache w)

    -- Let no secret be found under a name with a colon, and no kubeconfig be configured under one.
    -- Whatever the daemon has done before, each event as a whole, a call of exec_in_cluster or exec_in_cluster_readonly whose
    -- command and list are not empty and whose entries are full targets gives results, and if the
    -- goroutine of the i-th distinct entry runs, and the namespace and the name in this entry have no
    -- colon, then its result has no exit code, or it is that of a run with the admin kubeconfig of the
    -- very cluster that the entry names and the OpenStack variables of that cluster, or for the
    -- read-only tool with a kubeconfig made from that admin kubeconfig and no variables.
    pub exec_in_own_cluster :
        (readonly : Bool) (command : List GoString) (stdin : GoString) (port : ℕ)
        (events : List (Event W)) (w : W) (clusters : List GoString) (order : List ℕ) (i : ℕ)
        (t : GoString) (id : TargetParts)
        → none_of command ≡ false
        → none_of clusters ≡ false
        → All HasFour clusters
        → get_elem? (nub clusters) i ≡ some t
        → contains order i ≡ true
        → parse_target t ≡ ok id
        → Lacks colon id.namespace
        → Lacks colon id.name
        → (results : List ClusterExecResult) × (s' : ServerState W) × (r : ClusterExecResult)
          × (exec_in_cluster_fan_out api out tool cfg clusters command stdin readonly order
                (serve api out tool network mcp cfg port events (new_tool_server cfg w))
              ≡ (ok (record { text = executions results; is_error = any_exec_error results }), s'))
          × (get_elem? results i ≡ some r)
          × ((r.exit_code ≡ none) ⊎ RanIn api out tool cfg readonly command stdin id r)
    exec_in_own_cluster readonly command stdin port events w clusters order i t id some_command
          some_cluster full at runs parsed plain_ns plain_n =
        let (results, s', r, called, there, own) =
          exec_in_cluster-RanIn api out cfg no_colon names tool readonly command stdin clusters
            order (serve api out tool network mcp cfg port events (new_tool_server cfg w)) i t
            (serve-OwnsCache port events w) some_command some_cluster full at runs in
        (
          results,
          s',
          r,
          called,
          there,
          elim (Option-cases r.exit_code) [
            | inl nothing ↦ inl nothing
            | inr (code, ran) ↦ inr (own id code parsed plain_ns plain_n ran)
          ],
        )
