-- ===== src/Server/Kept.antt =====
-- Properties of the state that every tool keeps.
use capi_shell_mcp.Base.{
  GoString, List, [], ◌∷◌, lookup, str_eq, lift, Exec, Preserves, bind-Preserves, Option-cases,
  Bool-cases, inl, inr, some, ◌≡◌,
}
use capi_shell_mcp.Cache
use capi_shell_mcp.Cache.{TtlCache}
use capi_shell_mcp.Config.{KubeconfigSource, AppConfig}
use capi_shell_mcp.Capi.Target.{CapiCluster, parse_target}
use capi_shell_mcp.Capi.Kube.{KubeApi, none_of, list_clusters_for_context}
use capi_shell_mcp.Capi.Keys.{cluster_list_key}
use capi_shell_mcp.Server.{ServerState, Outside, on_world}
use capi_shell_mcp.Server.Clusters.{
  resolve_contexts, list_clusters_cached, fetch_clusters, clusters_of_contexts, clusters_of_sources,
  sorted_kubeconfigs, all_resolved_clusters, all_known_clusters, list_targets,
}
use capi_shell_mcp.Server.Kubeconfig.{cached_kubeconfig, resolve_target}

-- It does not depend on the world or on the lists of clusters, and a call for a kubeconfig of a
-- configured source keeps it.
pub record IsKept {W C O : Type 0} (api : KubeApi W C O) (out : Outside W C) (cfg : AppConfig)
    (P : ServerState W → Type 0) : Type 0 where
  pub world : (s : ServerState W) (w : W) → P s → P (record s { world = w })
  pub listed :
      (s : ServerState W) (lists : TtlCache GoString (List CapiCluster))
      → P s
      → P (record s { cluster_list = lists })
  pub fetched :
      (name : GoString) (src : KubeconfigSource) (ctx ns n : GoString)
      → lookup name cfg.kubeconfigs ≡ some src
      → Preserves P (cached_kubeconfig api out cfg src ctx ns n)

module _ {W C O : Type 0} (api : KubeApi W C O) (out : Outside W C) (cfg : AppConfig)
    (P : ServerState W → Type 0) (k : IsKept api out cfg P) where
  pub on_world-Preserves : {A : Type 0} (f : Exec W A) → Preserves P (on_world f)
  on_world-Preserves f s v = k.world s (f s.world).1 v

  pub resolve_target-Preserves : (t : GoString) → Preserves P (resolve_target api out cfg t)
  unfolding resolve_target
  resolve_target-Preserves t =
      bind-Preserves P (lift (parse_target t)) _ (λ s v. v)
        λ p. elim (Option-cases (lookup p.kubeconfig_name cfg.kubeconfigs)) [
          | inl unknown ↦ rw unknown (λ s v. v)
          | inr (src, known) ↦
              rw known (k.fetched p.kubeconfig_name src p.context p.namespace p.name known)
        ]

  resolve_contexts-Preserves :
      (src : KubeconfigSource) → Preserves P (resolve_contexts api out cfg src)
  unfolding resolve_contexts
  resolve_contexts-Preserves src = elim (Bool-cases (none_of src.contexts)) [
    | inr listed ↦ rw listed (λ s v. v)
    | inl unlisted ↦ rw unlisted (
        bind-Preserves P (on_world (out.read_file src.path)) _
          (on_world-Preserves (out.read_file src.path)) (λ _ s v. v))
  ]

  list_clusters_cached-Preserves :
      (src : KubeconfigSource) (ctx : GoString)
      → Preserves P (list_clusters_cached api out cfg src ctx)
  unfolding list_clusters_cached fetch_clusters
  list_clusters_cached-Preserves src ctx s v =
      let got = Cache.get (cluster_list_key src.name ctx) (out.clock s.world) s.cluster_list in
      elim (Option-cases got.0) [
        | inr (cached, found) ↦ rw (found, list_clusters_cached) v
        | inl missing ↦
            rw (missing, list_clusters_cached)
              (bind-Preserves P (on_world (out.clients_for_context src ctx)) _
                (on_world-Preserves (out.clients_for_context src ctx))
                (λ client.
                  bind-Preserves P
                    (on_world (list_clusters_for_context api client src.name ctx cfg.custom_fields))
                    _
                    (on_world-Preserves
                      (list_clusters_for_context api client src.name ctx cfg.custom_fields))
                    (λ _ t u. k.listed t _ u))
                (record s { cluster_list = got.1 }) (k.listed s got.1 v))
      ]

  clusters_of_contexts-Preserves :
      (src : KubeconfigSource) (cs : List GoString)
      → Preserves P (clusters_of_contexts api out cfg src cs)
  unfolding clusters_of_contexts
  clusters_of_contexts-Preserves src [] = λ s v. v
  clusters_of_contexts-Preserves src (c ∷ cs) =
      bind-Preserves P (list_clusters_cached api out cfg src c) _
        (list_clusters_cached-Preserves src c)
        λ _.
          bind-Preserves P (clusters_of_contexts api out cfg src cs) _
            (clusters_of_contexts-Preserves src cs) (λ _ s v. v)

  clusters_of_sources-Preserves :
      (srcs : List KubeconfigSource) → Preserves P (clusters_of_sources api out cfg srcs)
  unfolding clusters_of_sources
  clusters_of_sources-Preserves [] = λ s v. v
  clusters_of_sources-Preserves (src ∷ srcs) =
      bind-Preserves P (resolve_contexts api out cfg src) _ (resolve_contexts-Preserves src) λ cs.
        bind-Preserves P (clusters_of_contexts api out cfg src cs) _
          (clusters_of_contexts-Preserves src cs)
          λ _.
            bind-Preserves P (clusters_of_sources api out cfg srcs) _
              (clusters_of_sources-Preserves srcs) (λ _ s v. v)

  pub all_resolved_clusters-Preserves : Preserves P (all_resolved_clusters api out cfg)
  unfolding all_resolved_clusters
  all_resolved_clusters-Preserves = clusters_of_sources-Preserves (sorted_kubeconfigs cfg)

  pub all_known_clusters-Preserves : Preserves P (all_known_clusters api out cfg)
  unfolding all_known_clusters
  all_known_clusters-Preserves =
      bind-Preserves P (all_resolved_clusters api out cfg) _ all_resolved_clusters-Preserves
        (λ _ s v. v)

  pub list_targets-Preserves : Preserves P (list_targets api out cfg)
  unfolding list_targets
  list_targets-Preserves =
      bind-Preserves P (all_resolved_clusters api out cfg) _ all_resolved_clusters-Preserves
        (λ _ s v. v)
