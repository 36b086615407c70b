-- ===== src/Server/Tools/Examples.antt =====
-- A server with one cluster, and a pattern that selects it.
use capi_shell_mcp.Base.{
  some, Lacks, subst, str_beq_iff, inl, arith, ℕ, keys, GoString, lit, List, [], ◌∷◌, lookup,
  insert, str_eq, ok, Elem, map, split, contains, sort_strings, insert_sorted, false, ◌≡◌, ◌↔◌,
  refl,
}
use capi_shell_mcp.Cache
use capi_shell_mcp.Capi.Target.{format_target}
use capi_shell_mcp.Capi.Pattern.{TargetPattern, parse_target_pattern}
use capi_shell_mcp.Capi.Kube.{list_clusters_for_context, with_custom_fields}
use capi_shell_mcp.Capi.Resolve.{parse_all}
use capi_shell_mcp.Capi.Resolve.Select.{AnySelects}
use capi_shell_mcp.Capi.Keys.{colon}
use capi_shell_mcp.Config.{KubeconfigSource}
use capi_shell_mcp.Config.Load.Laws.{IsNamed}
use capi_shell_mcp.Server.Kubeconfig.{cached_kubeconfig, resolve_target}
use capi_shell_mcp.Server.Listed.{IsListed}
use capi_shell_mcp.Server.Listed.Resolves.{resolve_target-format_target}
use capi_shell_mcp.Server.{ServerState}
use capi_shell_mcp.Server.Clusters.{
  ResolvedCluster, all_resolved_clusters, clusters_of_sources, clusters_of_contexts,
  resolve_contexts, list_clusters_cached, fetch_clusters, sorted_kubeconfigs,
}
use capi_shell_mcp.Server.Tools.{cluster_entries, entry_of, list_clusters}
use capi_shell_mcp.Server.Tools.Selected.{list_clusters_selects}
use capi_shell_mcp.Server.Examples.{api, out, tool, prod, cfg, fresh_state}

abbrev only : List ResolvedCluster
only =
    record {
      cluster = record {
        kubeconfig_name = lit "prod";
        context = lit "admin";
        namespace = lit "team";
        name = lit "web";
        custom_fields = [];
      };
      source = prod;
    }
    ∷ []

abbrev patterns : List GoString
patterns = lit "prod/admin" ∷ []

abbrev parsed : List TargetPattern
parsed =
    record { kubeconfig_name = lit "prod"; context = lit "admin"; namespace = []; name = [] } ∷ []

accepted : parse_all patterns ≡ ok parsed
unfolding parse_all parse_target_pattern split contains
accepted = refl

abbrev after : ServerState ℕ
after = (all_resolved_clusters api out cfg fresh_state).1

listed : all_resolved_clusters api out cfg fresh_state ≡ (ok only, after)
unfolding all_resolved_clusters clusters_of_sources clusters_of_contexts resolve_contexts
    list_clusters_cached sorted_kubeconfigs fetch_clusters sort_strings insert_sorted lookup insert
    keys Cache.get list_clusters_for_context with_custom_fields
listed = refl

list_clusters_selects_example :
    (kept : List ResolvedCluster) × (list_clusters api out tool cfg patterns fresh_state
      ≡ (ok (record { text = cluster_entries (map entry_of kept); is_error = false }), after))
    × ((r : ResolvedCluster)
        → Elem r kept ↔ (
            Elem r only
            × AnySelects
                (map (λ (x : ResolvedCluster). x.cluster) only)
                patterns
                (format_target r.cluster)))
list_clusters_selects_example =
    list_clusters_selects api out tool cfg patterns parsed only fresh_state after refl accepted
      listed

cfg-IsNamed : IsNamed cfg.kubeconfigs
unfolding lookup
cfg-IsNamed n src found = ground (arith, str_beq_iff (lit "prod") n)

no_colon :
    (n : GoString) (src : KubeconfigSource) → lookup n cfg.kubeconfigs ≡ some src → Lacks colon n
unfolding lookup
no_colon n src found =
    let same : lit "prod" ≡ n = ground (arith, str_beq_iff (lit "prod") n) in
    subst (Lacks colon) same (ground arith)

nothing-IsListed : IsListed fresh_state.cluster_list
unfolding lookup
nothing-IsListed n c e plain there = absurd (cc)

abbrev listed_web : ResolvedCluster
listed_web = record {
  cluster = record {
    kubeconfig_name = lit "prod";
    context = lit "admin";
    namespace = lit "team";
    name = lit "web";
    custom_fields = [];
  };
  source = prod;
}

resolve_target-format_target_example :
    IsListed after.cluster_list
    × ((u : ServerState ℕ)
        → resolve_target api out cfg (format_target listed_web.cluster) u
          ≡ cached_kubeconfig api out cfg prod (lit "admin") (lit "team") (lit "web") u)
resolve_target-format_target_example =
    resolve_target-format_target api out cfg fresh_state after only cfg-IsNamed no_colon
      nothing-IsListed listed listed_web (inl refl) (ground arith)
