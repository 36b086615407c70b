-- ===== src/Server/Tools.antt =====
-- internal/server/tools.go. The results are kept as data: their JSON text is not modelled. The
-- goroutines of a fan-out run in the order of the argument `order`.
pub mod Omitted
pub mod Selected
mod Examples
use capi_shell_mcp.Base.{
  whole_seconds, ℕ, ◌+◌, ◌*◌, GoString, lit, List, [], ◌∷◌, ◌++◌, Map, lookup, keys, str_eq, Option,
  none, some, Result, ok, err, if◌then◌else◌, is_empty, Exec, bind, pure, fail, lift, continue, map,
  Bool, true, false, plain_about, GoError, leb, ltb, ◌||◌, ◌&&◌, nat_beq, ◌≡◌, ◌≢◌, refl, ◌≤◌,
  arith, ◌≡◌, Bool-cases, inl, inr, Option-cases, Result-cases, str_beq, str_beq_iff, ◌↔◌, ◌⊎◌, sym,
  ap, ◌∙◌,
}
use capi_shell_mcp.Cache
use capi_shell_mcp.Cache.{TtlCache}
use capi_shell_mcp.Cache.Laws.{read, read-set, read-get}
use capi_shell_mcp.Capi.Target.{CapiCluster, TargetParts, parse_target, format_target}
use capi_shell_mcp.Capi.Keys.{cluster_list_key, kubeconfig_key}
use capi_shell_mcp.Config.{
  KubeconfigSource, KubeconfigTransforms, AppConfig, CacheConfig, ℤ, pos, negsuc,
}
use capi_shell_mcp.Capi.Kube.{
  KubeApi, list_clusters_for_context, fetch_workload_kubeconfig, fetch_api_server_info, none_of,
}
use capi_shell_mcp.Shell.{Command, Executed}
use capi_shell_mcp.Proxy.Process.{Manager, StartOutcome}
use capi_shell_mcp.Proxy.Systemd.{ensure_proxy}
use capi_shell_mcp.Server.{
  ServerState, Outside, on_world, ProxyTarget, CachedKubeconfig, kubeconfig_ttl,
}
use capi_shell_mcp.Base.{fan_out, plain, has_empty_text, contains}
use capi_shell_mcp.Capi.Resolve.{resolve_cluster_patterns}
use capi_shell_mcp.Capi.ReadOnly.{
  RbacApi, ClusterInfo, ReadOnlyKubeconfig, create_read_only_kubeconfig,
}
use capi_shell_mcp.Capi.Kube.{fetch_openstack_env}
use capi_shell_mcp.Exec.{System, ExecResult, with_kubeconfig}
use capi_shell_mcp.Server.Clusters.{ResolvedCluster, all_resolved_clusters, all_known_clusters}
use capi_shell_mcp.Server.Kubeconfig.{cached_kubeconfig, resolve_target}

pub record ListClustersEntry : Type 0 where
  pub cluster : CapiCluster
  pub target : GoString

pub record KubeconfigResult : Type 0 where
  pub cluster : GoString
  pub kubeconfig : GoString
  pub error : Option GoError

-- `exit_code` is there if the command was run; -1 is `none` inside it.
pub record ClusterExecResult : Type 0 where
  pub cluster : TargetParts
  pub stdout : Option GoString
  pub stderr : Option GoString
  pub exit_code : Option (Option ℕ)
  pub error : Option GoError

-- What the text of a result is made from.
pub data ToolText : Type 0 where
  message : GoError → ToolText
  clusters_required : ToolText
  cluster_entries : List ListClustersEntry → ToolText
  kubeconfigs : List KubeconfigResult → ToolText
  executions : List ClusterExecResult → ToolText

pub record ToolResult : Type 0 where
  pub text : ToolText
  pub is_error : Bool

-- What the tools use besides the fields of `Outside`.
pub record ToolOutside (W : Type 0) : Type 0 where
  pub rbac_for : GoString → Exec W (RbacApi W)
  pub parse_clusters : GoString → Result (List ClusterInfo)
  pub render : ReadOnlyKubeconfig → Result GoString
  pub system : System W

abbrev pub entry_of : ResolvedCluster → ListClustersEntry
entry_of r = record { cluster = r.cluster; target = format_target r.cluster }

-- The entries whose target was matched.
unfoldable pub keep_matched : List GoString → List ResolvedCluster → List ResolvedCluster
keep_matched matched [] = []
keep_matched matched (r ∷ rs) =
    let rest = keep_matched matched rs in
    if contains matched (format_target r.cluster) then r ∷ rest else rest

-- r.Error != "" and its kin, over all results.
unfoldable pub any_kubeconfig_error : List KubeconfigResult → Bool
any_kubeconfig_error [] = false
any_kubeconfig_error (r ∷ rs) = elim r.error [
  | none ↦ any_kubeconfig_error rs
  | some e ↦ if has_empty_text e then any_kubeconfig_error rs else true
]

module _ {W C O : Type 0} (api : KubeApi W C O) (out : Outside W C) (tool : ToolOutside W)
    (cfg : AppConfig) where
  unfoldable pub list_clusters : List GoString → Exec (ServerState W) ToolResult
  list_clusters patterns = bind (all_resolved_clusters api out cfg) λ resolved.
      if none_of patterns
      then pure (record { text = cluster_entries (map entry_of resolved); is_error = false })
      else (λ s.
          elim (resolve_cluster_patterns patterns
            (λ t. (ok (map (λ (r : ResolvedCluster). r.cluster) resolved), t)) false s).0 [
              | err e ↦ (ok (record { text = message e; is_error = true }), s)
              | ok matched ↦ (
                ok (record {
                  text = cluster_entries (map entry_of (keep_matched matched resolved));
                  is_error = false;
                }),
                s,
              )
            ])

  unfoldable pub read_only_kubeconfig : GoString → Exec (ServerState W) GoString
  read_only_kubeconfig admin_kc = bind (on_world (tool.rbac_for admin_kc)) λ rbac. on_world (
      create_read_only_kubeconfig rbac tool.parse_clusters tool.render admin_kc
        (whole_seconds (kubeconfig_ttl cfg)))

  unfoldable pub kubeconfig_for : Bool → GoString → Exec (ServerState W) GoString
  kubeconfig_for readonly target =
      bind (resolve_target api out cfg target)
        λ admin_kc. if readonly then read_only_kubeconfig admin_kc else pure admin_kc

  -- ToolServer.resolveClusterPatterns.
  abbrev pub resolve_patterns : List GoString → Bool → Exec (ServerState W) (List GoString)
  resolve_patterns patterns strict =
      resolve_cluster_patterns patterns (all_known_clusters api out cfg) strict

  -- The body of one goroutine.
  unfoldable pub kubeconfig_task :
      Bool → GoString → ServerState W → KubeconfigResult × ServerState W
  unfolding kubeconfig_for
  kubeconfig_task readonly target s =
      let (r, s') = kubeconfig_for readonly target s in
      (
        elim r [
          | ok kc ↦ record { cluster = target; kubeconfig = kc; error = none }
          | err e ↦ record { cluster = target; kubeconfig = []; error = some e }
        ],
        s',
      )

  unfoldable pub get_cluster_kubeconfig_fan_out :
      List GoString → Bool → List ℕ → Exec (ServerState W) ToolResult
  get_cluster_kubeconfig_fan_out patterns readonly order s =
      let (r, s1) = resolve_patterns patterns false s in
      elim r [
        | err e ↦ (ok (record { text = message e; is_error = true }), s1)
        | ok targets ↦
            let (results, s2) =
              fan_out (record { cluster = []; kubeconfig = []; error = none })
                (kubeconfig_task readonly) targets order s1 in
            (
              ok (record { text = kubeconfigs results; is_error = any_kubeconfig_error results }),
              s2,
            )
      ]

  abbrev pub get_cluster_kubeconfig : List GoString → List ℕ → Exec (ServerState W) ToolResult
  get_cluster_kubeconfig patterns order = get_cluster_kubeconfig_fan_out patterns false order

  abbrev pub get_cluster_kubeconfig_readonly :
      List GoString → List ℕ → Exec (ServerState W) ToolResult
  get_cluster_kubeconfig_readonly patterns order =
      get_cluster_kubeconfig_fan_out patterns true order
