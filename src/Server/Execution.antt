-- ===== src/Server/Execution.antt =====
-- execOneTarget and execInClusterFanOut of internal/server/tools.go.
pub mod Results
pub mod ReadOnly
mod Examples
use capi_shell_mcp.Base.{
  whole_seconds, ℕ, ◌+◌, ◌*◌, GoString, lit, List, [], ◌∷◌, ◌++◌, Map, lookup, keys, str_eq, Option,
  none, some, Result, ok, err, if◌then◌else◌, is_empty, Exec, bind, pure, fail, lift, continue, map,
  Bool, true, false, plain_about, GoError, leb, ltb, ◌||◌, ◌&&◌, nat_beq, ◌≡◌, ◌≢◌, refl, ◌≤◌,
  arith, ◌≡◌, Bool-cases, inl, inr, Option-cases, Result-cases, str_beq, str_beq_iff, ◌↔◌, ◌⊎◌, sym,
  ap, ◌∙◌,
}
use capi_shell_mcp.Cache
use capi_shell_mcp.Cache.{TtlCache}
use capi_shell_mcp.Cache.Laws.{read, read-set, read-get}
use capi_shell_mcp.Capi.Target.{CapiCluster, TargetParts, parse_target, format_target}
use capi_shell_mcp.Capi.Keys.{cluster_list_key, kubeconfig_key}
use capi_shell_mcp.Config.{
  KubeconfigSource, KubeconfigTransforms, AppConfig, CacheConfig, ℤ, pos, negsuc,
}
use capi_shell_mcp.Capi.Kube.{
  KubeApi, list_clusters_for_context, fetch_workload_kubeconfig, fetch_api_server_info, none_of,
}
use capi_shell_mcp.Shell.{Command, Executed}
use capi_shell_mcp.Proxy.Process.{Manager, StartOutcome}
use capi_shell_mcp.Proxy.Systemd.{ensure_proxy}
use capi_shell_mcp.Server.{
  ServerState, Outside, on_world, ProxyTarget, CachedKubeconfig, kubeconfig_ttl,
}
use capi_shell_mcp.Base.{fan_out, plain, has_empty_text, contains}
use capi_shell_mcp.Capi.Resolve.{resolve_cluster_patterns}
use capi_shell_mcp.Capi.ReadOnly.{
  RbacApi, ClusterInfo, ReadOnlyKubeconfig, create_read_only_kubeconfig,
}
use capi_shell_mcp.Capi.Kube.{fetch_openstack_env}
use capi_shell_mcp.Exec.{System, ExecResult, with_kubeconfig}
use capi_shell_mcp.Server.Clusters.{ResolvedCluster, all_resolved_clusters, all_known_clusters}
use capi_shell_mcp.Server.Kubeconfig.{cached_kubeconfig, resolve_target}
use capi_shell_mcp.Server.Tools.{
  ClusterExecResult, ToolText, message, clusters_required, executions, ToolResult, ToolOutside,
  read_only_kubeconfig,
}

abbrev pub exec_failed : ClusterExecResult → Bool
exec_failed r = elim r.error [
  | some e ↦ true
  | none ↦ elim r.exit_code [
    | none ↦ false
    | some none ↦ true
    | some (some n) ↦ if nat_beq n 0 then false else true
  ]
]

unfoldable pub any_exec_error : List ClusterExecResult → Bool
any_exec_error [] = false
any_exec_error (r ∷ rs) = if exec_failed r then true else any_exec_error rs

abbrev pub no_parts : TargetParts
no_parts = record { kubeconfig_name = []; context = []; namespace = []; name = [] }

abbrev pub exec_error : TargetParts → GoError → ClusterExecResult
exec_error id e = record {
  cluster = id;
  stdout = none;
  stderr = none;
  exit_code = none;
  error = some e;
}

-- The zero value of a result.
abbrev pub no_execution : ClusterExecResult
no_execution = record {
  cluster = no_parts;
  stdout = none;
  stderr = none;
  exit_code = none;
  error = none;
}

abbrev pub non_empty : GoString → Option GoString
non_empty s = if is_empty s then none else some s

abbrev pub exec_done : TargetParts → ExecResult → ClusterExecResult
exec_done id r = record {
  cluster = id;
  stdout = non_empty r.stdout;
  stderr = non_empty r.stderr;
  exit_code = some r.exit_code;
  error = none;
}

abbrev pub exec_outcome : TargetParts → Result ExecResult → ClusterExecResult
exec_outcome id (ok done) = exec_done id done
exec_outcome id (err e) = exec_error id e

module _ {W C O : Type 0} (api : KubeApi W C O) (out : Outside W C) (tool : ToolOutside W)
    (cfg : AppConfig) where
  -- What the command gets besides the admin kubeconfig, or in place of it.
  unfoldable pub access_with :
      Bool
      → GoString
      → KubeconfigSource
      → TargetParts
      → Exec (ServerState W) (GoString × Map GoString GoString)
  access_with true kc src id = bind (read_only_kubeconfig api out tool cfg kc) λ ro. pure (ro, [])
  access_with false kc src id = bind (on_world (out.clients_for_context src id.context)) λ client.
      bind (on_world (fetch_openstack_env api client id.namespace id.name)) λ vars. pure (kc, vars)

  -- The kubeconfig and the variables that the command gets.
  unfoldable pub exec_access :
      Bool
      → KubeconfigSource
      → TargetParts
      → Exec (ServerState W) (GoString × Map GoString GoString)
  exec_access readonly src id =
      bind (cached_kubeconfig api out cfg src id.context id.namespace id.name)
        λ kc. access_with readonly kc src id

  unfoldable pub run_in :
      Bool
      → List GoString
      → GoString
      → KubeconfigSource
      → TargetParts
      → Exec (ServerState W) ExecResult
  run_in readonly command stdin src id =
      bind (exec_access readonly src id)
        λ (kc, vars). on_world (with_kubeconfig tool.system kc vars command stdin)

  unfoldable pub exec_one_target :
      Bool → List GoString → GoString → GoString → ServerState W → ClusterExecResult × ServerState W
  unfolding run_in exec_access access_with
  exec_one_target readonly command stdin target s = elim (parse_target target) [
    | err e ↦ (exec_error no_parts e, s)
    | ok id ↦ elim (lookup id.kubeconfig_name cfg.kubeconfigs) [
      | none ↦ (exec_error id (plain_about (lit "unknown kubeconfig: ") id.kubeconfig_name), s)
      | some src ↦ let (r, s') = run_in readonly command stdin src id s in (exec_outcome id r, s')
    ]
  ]

  unfoldable pub exec_in_cluster_fan_out :
      List GoString → List GoString → GoString → Bool → List ℕ → Exec (ServerState W) ToolResult
  exec_in_cluster_fan_out clusters command stdin readonly order s =
      if none_of command
      then (err (plain (lit "exec_in_cluster: command must be non-empty")), s)
      else if none_of clusters
      then (ok (record { text = clusters_required; is_error = true }), s)
      else elim (resolve_cluster_patterns clusters (λ t. (ok [], t)) true s).0 [
        | err e ↦ (ok (record { text = message e; is_error = true }), s)
        | ok targets ↦
            let (results, s') =
              fan_out no_execution (exec_one_target readonly command stdin) targets order s in
            (ok (record { text = executions results; is_error = any_exec_error results }), s')
      ]

  abbrev pub exec_in_cluster :
      List GoString → List GoString → GoString → List ℕ → Exec (ServerState W) ToolResult
  exec_in_cluster clusters command stdin order =
      exec_in_cluster_fan_out clusters command stdin false order

  abbrev pub exec_in_cluster_readonly :
      List GoString → List GoString → GoString → List ℕ → Exec (ServerState W) ToolResult
  exec_in_cluster_readonly clusters command stdin order =
      exec_in_cluster_fan_out clusters command stdin true order
