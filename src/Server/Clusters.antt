-- ===== src/Server/Clusters.antt =====
-- internal/server/resolve.go and target.go, with the sources and contexts of server.go.
use capi_shell_mcp.Base.{
  GoString, List, [], ◌∷◌, ◌++◌, lookup, keys, str_eq, none, some, ok, if◌then◌else◌, Exec, bind,
  pure, lift, map, sort_strings,
}
use capi_shell_mcp.Cache
use capi_shell_mcp.Cache.{TtlCache}
use capi_shell_mcp.Capi.Target.{CapiCluster, format_target}
use capi_shell_mcp.Capi.Keys.{cluster_list_key}
use capi_shell_mcp.Config.{KubeconfigSource, AppConfig}
use capi_shell_mcp.Capi.Kube.{KubeApi, list_clusters_for_context, none_of}
use capi_shell_mcp.Server.{ServerState, Outside, on_world}
use capi_shell_mcp.Server.Clients.{get_contexts}

pub record ResolvedCluster : Type 0 where
  pub cluster : CapiCluster
  pub source : KubeconfigSource

-- The entries by name; every key of the map has one.
unfoldable pub sources_of : AppConfig → List GoString → List KubeconfigSource
sources_of cfg [] = []
sources_of cfg (n ∷ names) = elim (lookup n cfg.kubeconfigs) [
  | none ↦ sources_of cfg names
  | some src ↦ src ∷ sources_of cfg names
]

unfoldable pub sorted_kubeconfigs : AppConfig → List KubeconfigSource
unfolding sources_of
sorted_kubeconfigs cfg = sources_of cfg (sort_strings (keys cfg.kubeconfigs))

module _ {W C O : Type 0} (api : KubeApi W C O) (out : Outside W C) (cfg : AppConfig) where
  unfoldable pub resolve_contexts : KubeconfigSource → Exec (ServerState W) (List GoString)
  resolve_contexts src =
      if none_of src.contexts
      then (bind (on_world (out.read_file src.path))
          λ data_read. lift (get_contexts out.load_contexts data_read))
      else pure src.contexts

  -- On a miss: the clusters are listed and stored.
  unfoldable pub fetch_clusters :
      KubeconfigSource → GoString → Exec (ServerState W) (List CapiCluster)
  fetch_clusters src context_name =
      bind (on_world (out.clients_for_context src context_name)) λ client.
        bind
          (on_world (list_clusters_for_context api client src.name context_name cfg.custom_fields))
          λ clusters s. (
            ok clusters,
            record s {
              cluster_list =
                  Cache.set (cluster_list_key src.name context_name) clusters (out.clock s.world)
                    s.cluster_list;
            },
          )

  unfoldable pub list_clusters_cached :
      KubeconfigSource → GoString → Exec (ServerState W) (List CapiCluster)
  unfolding fetch_clusters
  list_clusters_cached src context_name s =
      let (found, store) =
        Cache.get (cluster_list_key src.name context_name) (out.clock s.world) s.cluster_list in
      elim found [
        | some cached ↦ (ok cached, s)
        | none ↦ fetch_clusters src context_name (record s { cluster_list = store })
      ]

  unfoldable pub clusters_of_contexts :
      KubeconfigSource → List GoString → Exec (ServerState W) (List ResolvedCluster)
  clusters_of_contexts src [] = pure []
  clusters_of_contexts src (c ∷ cs) = bind (list_clusters_cached src c) λ clusters.
      bind (clusters_of_contexts src cs)
        λ rest. pure (map (λ cluster. record { cluster = cluster; source = src }) clusters ++ rest)

  unfoldable pub clusters_of_sources :
      List KubeconfigSource → Exec (ServerState W) (List ResolvedCluster)
  clusters_of_sources [] = pure []
  clusters_of_sources (src ∷ srcs) = bind (resolve_contexts src) λ contexts.
      bind (clusters_of_contexts src contexts)
        λ clusters. bind (clusters_of_sources srcs) λ rest. pure (clusters ++ rest)

  unfoldable pub all_resolved_clusters : Exec (ServerState W) (List ResolvedCluster)
  unfolding clusters_of_sources clusters_of_contexts
  all_resolved_clusters = clusters_of_sources (sorted_kubeconfigs cfg)

  unfoldable pub all_known_clusters : Exec (ServerState W) (List CapiCluster)
  all_known_clusters = bind all_resolved_clusters λ resolved. pure (map (λ r. r.cluster) resolved)

  unfoldable pub list_targets : Exec (ServerState W) (List GoString)
  list_targets =
      bind all_resolved_clusters λ resolved. pure (map (λ r. format_target r.cluster) resolved)
