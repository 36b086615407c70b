-- ===== src/Main/Owner/Examples.antt =====
-- Instances for the clusters of commands and kubeconfigs.
use capi_shell_mcp.Base.{
  ℕ, List, [], ◌∷◌, nat_eq, str_eq, none, some, ok, false, get_elem?, ◌≡◌, ◌⊎◌, refl, GoString, lit,
  true, ◌+◌, split, contains, sort_strings, lookup, insert, keys, fan_out, run_goroutines,
  trim_space, add_duration, seconds,
}
use capi_shell_mcp.Server.{ServerState, kubeconfig_ttl}
use capi_shell_mcp.Server.Owner.Examples.{
  strict_api, strict_api-no_colon, cfg-HasPlainNames, plain_namespace, plain_name,
}
use capi_shell_mcp.Server.Examples.{
  out, tool, cfg, full, full_parts, kubectl, full-HasFour, full_first, first_runs, full_accepted,
}
use capi_shell_mcp.Server.Tools.{
  ToolOutside, kubeconfig_task, ClusterExecResult, executions, read_only_kubeconfig,
}
use capi_shell_mcp.Capi.ReadOnly.{RbacApi, create_read_only_kubeconfig, ensure_read_only_rbac}
use capi_shell_mcp.Server.Execution.{exec_one_target, any_exec_error, exec_in_cluster_fan_out}
use capi_shell_mcp.Server.Owner.Execution.{RanIn}
use capi_shell_mcp.Server.Kubeconfig.{
  cached_kubeconfig, fetch_kubeconfig, transform_of, proxy_for, store_kubeconfig, use_cached,
  resolve_target,
}
use capi_shell_mcp.HttpServer.{host_check_middleware}
use capi_shell_mcp.Server.Build.{call_tool}
use capi_shell_mcp.Exec.{with_kubeconfig}
use capi_shell_mcp.Cache
use capi_shell_mcp.Capi.Target.{parse_target}
use capi_shell_mcp.Capi.Keys.{kubeconfig_key}
use capi_shell_mcp.Capi.Kube.{
  list_clusters_for_context, fetch_workload_kubeconfig, fetch_openstack_env,
}
use capi_shell_mcp.Capi.Resolve.{
  resolve_cluster_patterns, is_seen, add_one, add_new, dedupe_preserve_order,
}
use capi_shell_mcp.Server.Clusters.{
  all_resolved_clusters, resolve_contexts, list_clusters_cached, sorted_kubeconfigs, list_targets,
}
use capi_shell_mcp.Main.{Event, lists_targets, world_changes, serve, new_tool_server}
use capi_shell_mcp.Main.Examples.{network, mcp, events}
use capi_shell_mcp.Main.Owner.{exec_in_own_cluster}
use capi_shell_mcp.Server.Owner.Handed.{Handed}

-- The command has run.
command_ran :
    (exec_one_target strict_api out tool cfg false kubectl [] full
      (serve strict_api out tool network mcp cfg 4737 events (new_tool_server cfg 5))).0.exit_code
    ≡ some (some 0)
unfolding exec_one_target parse_target split lookup cached_kubeconfig Cache.get serve
    host_check_middleware call_tool exec_in_cluster_fan_out resolve_cluster_patterns fan_out
    run_goroutines dedupe_preserve_order add_new add_one is_seen new_tool_server Cache.new
    fetch_kubeconfig fetch_workload_kubeconfig contains transform_of proxy_for store_kubeconfig
    fetch_openstack_env Cache.set insert kubeconfig_key kubeconfig_ttl with_kubeconfig use_cached
    add_duration seconds
command_ran = refl

exec_in_own_cluster_example :
    (results : List ClusterExecResult) × (s' : ServerState ℕ) × (r : ClusterExecResult)
    × (exec_in_cluster_fan_out strict_api out tool cfg
          (full ∷ [])
          kubectl
          []
          false
          (0 ∷ [])
          (serve strict_api out tool network mcp cfg 4737 events (new_tool_server cfg 5))
        ≡ (ok (record { text = executions results; is_error = any_exec_error results }), s'))
    × (get_elem? results 0 ≡ some r)
    × ((r.exit_code ≡ none) ⊎ RanIn strict_api out tool cfg false kubectl [] full_parts r)
exec_in_own_cluster_example =
    exec_in_own_cluster strict_api out tool network mcp cfg strict_api-no_colon cfg-HasPlainNames
      false kubectl [] 4737 events 5 (full ∷ []) (0 ∷ []) 0 full full_parts refl refl
      (full-HasFour, tt) full_first first_runs full_accepted plain_namespace plain_name

-- The clusters have been listed, and the time has gone on.
abbrev listing : List (Event ℕ)
listing = lists_targets ∷ world_changes (λ w. w + 1) ∷ []

-- A workload cluster that has none of the objects, and gives a token.
abbrev rbac : RbacApi ℕ
rbac = record {
  create_service_account = λ ns n w. (none, w);
  create_cluster_role = λ r w. (none, w);
  update_cluster_role = λ r w. (none, w);
  create_binding = λ b w. (none, w);
  update_binding = λ b w. (none, w);
  delete_binding = λ n w. (none, w);
  create_token = λ ns n seconds w. (ok (lit "token"), w);
}

abbrev read_only_tool : ToolOutside ℕ
read_only_tool = record tool {
  rbac_for = λ kc w. (ok rbac, w);
  parse_clusters = λ kc. ok (record { server = []; certificate_authority_data = [] } ∷ []);
  render = λ kc. ok (lit "read-only");
}

-- It is handed out.
handed_out :
    (kubeconfig_task strict_api out read_only_tool cfg true full
      (serve strict_api out read_only_tool network mcp cfg 4737 listing (new_tool_server cfg 5))).0
    ≡ record { cluster = full; kubeconfig = lit "read-only"; error = none }
unfolding kubeconfig_task resolve_target parse_target split lookup cached_kubeconfig Cache.get serve
    list_targets all_resolved_clusters sorted_kubeconfigs sort_strings keys resolve_contexts
    list_clusters_cached new_tool_server Cache.new list_clusters_for_context fetch_kubeconfig
    fetch_workload_kubeconfig contains transform_of proxy_for store_kubeconfig read_only_kubeconfig
    create_read_only_kubeconfig ensure_read_only_rbac trim_space
handed_out = refl

-- A prefix of the only target.
abbrev prefixes : List GoString
prefixes = lit "prod/admin" ∷ []
