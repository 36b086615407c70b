-- ===== src/Server/Build/Kept.antt =====
-- A property of the state that `IsKept` describes holds after a call of any tool.
use capi_shell_mcp.Base.{
  arith, some, ◌≡◌, ℕ, GoString, List, [], ◌∷◌, lookup, str_eq, Preserves, bind-Preserves,
  fan_out-Preserves, Option-cases, Result-cases, Bool-cases, inl, inr, subst, sym, Bool, true,
  false, ok, map,
}
use capi_shell_mcp.Config.{AppConfig, KubeconfigSource}
use capi_shell_mcp.Capi.Target.{TargetParts, parse_target}
use capi_shell_mcp.Capi.Kube.{KubeApi, none_of, fetch_openstack_env}
use capi_shell_mcp.Capi.Resolve.{resolve_cluster_patterns}
use capi_shell_mcp.Capi.Resolve.Select.{resolve_cluster_patterns_lists_once}
use capi_shell_mcp.Capi.ReadOnly.{create_read_only_kubeconfig}
use capi_shell_mcp.Exec.{with_kubeconfig}
use capi_shell_mcp.Base.{whole_seconds}
use capi_shell_mcp.Server.{ServerState, Outside, on_world, kubeconfig_ttl}
use capi_shell_mcp.Server.Clusters.{ResolvedCluster, all_resolved_clusters, all_known_clusters}
use capi_shell_mcp.Server.Kubeconfig.{cached_kubeconfig, resolve_target}
use capi_shell_mcp.Server.Kept.{
  IsKept, on_world-Preserves, resolve_target-Preserves, all_resolved_clusters-Preserves,
  all_known_clusters-Preserves,
}
use capi_shell_mcp.Server.Tools.{
  ToolOutside, list_clusters, read_only_kubeconfig, kubeconfig_for, kubeconfig_task,
  get_cluster_kubeconfig_fan_out,
}
use capi_shell_mcp.Server.Execution.{
  access_with, exec_access, run_in, exec_one_target, exec_in_cluster_fan_out, no_execution,
}
use capi_shell_mcp.Server.Build.{
  ToolCall, call_tool, call_list_clusters, call_get_cluster_kubeconfig,
  call_get_cluster_kubeconfig_readonly, call_exec_in_cluster, call_exec_in_cluster_readonly,
}

module _ {W C O : Type 0} (api : KubeApi W C O) (out : Outside W C) (tool : ToolOutside W)
    (cfg : AppConfig) (P : ServerState W → Type 0) (k : IsKept api out cfg P) where
  read_only_kubeconfig-Preserves :
      (kc : GoString) → Preserves P (read_only_kubeconfig api out tool cfg kc)
  unfolding read_only_kubeconfig
  read_only_kubeconfig-Preserves kc =
      bind-Preserves P (on_world (tool.rbac_for kc)) _
        (on_world-Preserves api out cfg P k (tool.rbac_for kc))
        λ rbac. on_world-Preserves api out cfg P k (
          create_read_only_kubeconfig rbac tool.parse_clusters tool.render kc
            (whole_seconds (kubeconfig_ttl cfg)))

  kubeconfig_for-Preserves :
      (readonly : Bool) (t : GoString) → Preserves P (kubeconfig_for api out tool cfg readonly t)
  unfolding kubeconfig_for
  kubeconfig_for-Preserves true t =
      bind-Preserves P (resolve_target api out cfg t) _ (resolve_target-Preserves api out cfg P k t)
        read_only_kubeconfig-Preserves
  kubeconfig_for-Preserves false t =
      bind-Preserves P (resolve_target api out cfg t) _ (resolve_target-Preserves api out cfg P k t)
        (λ _ s v. v)

  pub kubeconfig_task-Preserves :
      (readonly : Bool) (t : GoString) → Preserves P (kubeconfig_task api out tool cfg readonly t)
  unfolding kubeconfig_task
  kubeconfig_task-Preserves readonly t = kubeconfig_for-Preserves readonly t

  pub resolved-keeps :
      (patterns : List GoString) (strict : Bool) (s : ServerState W)
      → P s
      → P (resolve_cluster_patterns patterns (all_known_clusters api out cfg) strict s).1
  resolved-keeps patterns strict s v =
      elim (resolve_cluster_patterns_lists_once (all_known_clusters api out cfg) s patterns
        strict) [
          | inl same ↦ subst P (sym same) v
          | inr listed ↦ subst P (sym listed) (all_known_clusters-Preserves api out cfg P k s v)
        ]

  get_cluster_kubeconfig-Preserves :
      (patterns : List GoString) (readonly : Bool) (order : List ℕ)
      → Preserves P (get_cluster_kubeconfig_fan_out api out tool cfg patterns readonly order)
  unfolding get_cluster_kubeconfig_fan_out
  get_cluster_kubeconfig-Preserves patterns readonly order s v =
      let picked = resolve_cluster_patterns patterns (all_known_clusters api out cfg) false s in
      let v1 = resolved-keeps patterns false s v in
      elim (Result-cases picked.0) [
        | inr (e, bad) ↦ rw (bad, get_cluster_kubeconfig_fan_out) v1
        | inl (targets, good) ↦
            rw (good, get_cluster_kubeconfig_fan_out)
              (fan_out-Preserves P (kubeconfig_task api out tool cfg readonly)
                (kubeconfig_task-Preserves readonly) _ targets order picked.1 v1)
      ]

  access_with-Preserves :
      (readonly : Bool) (kc : GoString) (src : KubeconfigSource) (id : TargetParts)
      → Preserves P (access_with api out tool cfg readonly kc src id)
  unfolding access_with
  access_with-Preserves true kc src id =
      bind-Preserves P (read_only_kubeconfig api out tool cfg kc) _
        (read_only_kubeconfig-Preserves kc) (λ _ s v. v)
  access_with-Preserves false kc src id =
      bind-Preserves P (on_world (out.clients_for_context src id.context)) _
        (on_world-Preserves api out cfg P k (out.clients_for_context src id.context))
        λ client.
          bind-Preserves P (on_world (fetch_openstack_env api client id.namespace id.name)) _
            (on_world-Preserves api out cfg P k
              (fetch_openstack_env api client id.namespace id.name))
            (λ _ s v. v)

  run_in-Preserves :
      (readonly : Bool) (command : List GoString) (stdin : GoString) (src : KubeconfigSource)
      (id : TargetParts)
      → lookup id.kubeconfig_name cfg.kubeconfigs ≡ some src
      → Preserves P (run_in api out tool cfg readonly command stdin src id)
  unfolding run_in exec_access
  run_in-Preserves readonly command stdin src id known =
      bind-Preserves P (exec_access api out tool cfg readonly src id) _
        (bind-Preserves P (cached_kubeconfig api out cfg src id.context id.namespace id.name) _
          (k.fetched id.kubeconfig_name src id.context id.namespace id.name known)
          λ kc. access_with-Preserves readonly kc src id)
        λ (kc, vars).
          on_world-Preserves api out cfg P k (with_kubeconfig tool.system kc vars command stdin)

  pub exec_one_target-Preserves :
      (readonly : Bool) (command : List GoString) (stdin t : GoString)
      → Preserves P (exec_one_target api out tool cfg readonly command stdin t)
  unfolding exec_one_target
  exec_one_target-Preserves readonly command stdin t s v = elim (Result-cases (parse_target t)) [
    | inr (e, bad) ↦ rw (bad, exec_one_target) v
    | inl (id, parsed) ↦ elim (Option-cases (lookup id.kubeconfig_name cfg.kubeconfigs)) [
      | inl unknown ↦ rw (parsed, unknown, exec_one_target) v
      | inr (src, known) ↦
          rw (parsed, known, exec_one_target)
            (run_in-Preserves readonly command stdin src id known s v)
    ]
  ]

  exec_in_cluster-Preserves :
      (clusters command : List GoString) (stdin : GoString) (readonly : Bool) (order : List ℕ)
      → Preserves P (exec_in_cluster_fan_out api out tool cfg clusters command stdin readonly order)
  unfolding exec_in_cluster_fan_out
  exec_in_cluster-Preserves clusters [] stdin readonly order s v = v
  exec_in_cluster-Preserves [] (c ∷ command) stdin readonly order s v = v
  exec_in_cluster-Preserves (t ∷ ts) (c ∷ command) stdin readonly order s v =
      let picked = resolve_cluster_patterns (t ∷ ts) (λ u. (ok [], u)) true s in
      elim (Result-cases picked.0) [
        | inr (e, bad) ↦ rw (bad, exec_in_cluster_fan_out) v
        | inl (targets, good) ↦
            rw (good, exec_in_cluster_fan_out)
              (fan_out-Preserves P (exec_one_target api out tool cfg readonly (c ∷ command) stdin)
                (exec_one_target-Preserves readonly (c ∷ command) stdin) no_execution targets order
                s v)
      ]

  list_clusters-Preserves :
      (patterns : List GoString) → Preserves P (list_clusters api out tool cfg patterns)
  unfolding list_clusters
  list_clusters-Preserves patterns =
      bind-Preserves P (all_resolved_clusters api out cfg) _
        (all_resolved_clusters-Preserves api out cfg P k)
        λ resolved. elim (Bool-cases (none_of patterns)) [
          | inl no_patterns ↦ rw no_patterns (λ s v. v)
          | inr some_patterns ↦ rw some_patterns λ s v.
              elim (Result-cases
                (resolve_cluster_patterns patterns
                  (λ t. (ok (map (λ (r : ResolvedCluster). r.cluster) resolved), t)) false s).0) [
                    | inl (matched, good) ↦ ground (arith, v)
                    | inr (e, bad) ↦ ground (arith, v)
                  ]
        ]

  -- A call of any tool, whatever its input and however it ends, keeps the property.
  pub call_tool-Preserves :
      (call : ToolCall) (order : List ℕ) → Preserves P (call_tool api out tool cfg call order)
  unfolding call_tool
  call_tool-Preserves (call_list_clusters input) order = list_clusters-Preserves input.clusters
  call_tool-Preserves (call_get_cluster_kubeconfig input) order =
      get_cluster_kubeconfig-Preserves input.clusters false order
  call_tool-Preserves (call_get_cluster_kubeconfig_readonly input) order =
      get_cluster_kubeconfig-Preserves input.clusters true order
  call_tool-Preserves (call_exec_in_cluster input) order =
      exec_in_cluster-Preserves input.clusters input.command input.stdin false order
  call_tool-Preserves (call_exec_in_cluster_readonly input) order =
      exec_in_cluster-Preserves input.clusters input.command input.stdin true order
