-- ===== src/Server/Listed/Resolves.antt =====
-- A target that was listed, when a tool resolves it.
use capi_shell_mcp.Base.{
  GoString, str_eq, Lacks, lookup, some, Result, ok, List, [], ◌∷◌, ◌++◌, map, All, All-append,
  All-Elem, Elem, continue-eq-ok, succeeded_with, Option-cases, inl, inr, subst, sym, ap, ◌≡◌, ◌∙◌,
  refl, arith,
}
use capi_shell_mcp.Capi.Target.{CapiCluster, fields, slash, format_target}
use capi_shell_mcp.Capi.Target.RoundTrip.{parse_target-format_target}
use capi_shell_mcp.Capi.Keys.{colon}
use capi_shell_mcp.Capi.Kube.{KubeApi}
use capi_shell_mcp.Config.{KubeconfigSource, AppConfig}
use capi_shell_mcp.Config.Load.Laws.{IsNamed}
use capi_shell_mcp.Server.{ServerState, Outside}
use capi_shell_mcp.Server.Clusters.{
  ResolvedCluster, resolve_contexts, list_clusters_cached, clusters_of_contexts,
  clusters_of_sources, sources_of, sorted_kubeconfigs, all_resolved_clusters,
}
use capi_shell_mcp.Server.Kubeconfig.{cached_kubeconfig, resolve_target}
use capi_shell_mcp.Server.Listed.{AreFrom, IsListed, contexts_keep, cached-AreFrom}

-- The cluster was found through the source, which has its name.
abbrev IsFrom : KubeconfigSource → ResolvedCluster → Type 0
IsFrom src r = (r.source ≡ src) × (r.cluster.kubeconfig_name ≡ src.name)

abbrev resolved_by : KubeconfigSource → List CapiCluster → List ResolvedCluster
resolved_by src = map (λ cluster. record { cluster = cluster; source = src })

resolved_by-IsFrom :
    (src : KubeconfigSource) (cs : List CapiCluster)
    → AreFrom src.name cs
    → All (IsFrom src) (resolved_by src cs)
resolved_by-IsFrom src [] h = tt
resolved_by-IsFrom src (c ∷ cs) (hc, h) = ((refl, hc), resolved_by-IsFrom src cs h)

-- A kubeconfig of the configuration has the name under which it is found.
abbrev IsConfigured : AppConfig → ResolvedCluster → Type 0
IsConfigured cfg r = lookup r.cluster.kubeconfig_name cfg.kubeconfigs ≡ some r.source

module _ {W C O : Type 0} (api : KubeApi W C O) (out : Outside W C) (cfg : AppConfig) where
  module _ (src : KubeconfigSource) (plain : Lacks colon src.name) where
    contexts-IsFrom :
        (contexts : List GoString) (s s' : ServerState W) (rs : List ResolvedCluster)
        → IsListed s.cluster_list
        → clusters_of_contexts api out cfg src contexts s ≡ (ok rs, s')
        → IsListed s'.cluster_list × All (IsFrom src) rs
    unfolding clusters_of_contexts
    contexts-IsFrom [] s s' rs v h =
        let unchanged : s ≡ s' =
          ap (λ (x : Result (List ResolvedCluster) × ServerState W). x.1) h in
        let same : [] ≡ rs = ground arith in
        (
          subst (λ (u : ServerState W). IsListed u.cluster_list) unchanged v,
          subst (All (IsFrom src)) same tt,
        )
    contexts-IsFrom (c ∷ contexts) s s' rs v h =
        let first = list_clusters_cached api out cfg src c s in
        let (cs, listed, h1) = continue-eq-ok first _ h in
        let (v1, from) =
          cached-AreFrom api out cfg src plain c s first.1 cs v (succeeded_with first cs listed) in
        let others = clusters_of_contexts api out cfg src contexts first.1 in
        let (rest, more, h2) = continue-eq-ok others _ h1 in
        let (v2, from_rest) =
          contexts-IsFrom contexts first.1 others.1 rest v1 (succeeded_with others rest more) in
        let unchanged : others.1 ≡ s' =
          ap (λ (x : Result (List ResolvedCluster) × ServerState W). x.1) h2 in
        let same : resolved_by src cs ++ rest ≡ rs = ground arith in
        (
          subst (λ (u : ServerState W). IsListed u.cluster_list) unchanged v2,
          subst (All (IsFrom src)) same (
              All-append (IsFrom src) (resolved_by src cs) rest (resolved_by-IsFrom src cs from)
                from_rest),
        )

  -- Every source is in the configuration, under its name, which has no colon.
  abbrev AreConfigured : List KubeconfigSource → Type 0
  AreConfigured = All (λ src. (lookup src.name cfg.kubeconfigs ≡ some src) × Lacks colon src.name)

  from-IsConfigured :
      (src : KubeconfigSource) (rs : List ResolvedCluster)
      → lookup src.name cfg.kubeconfigs ≡ some src
      → All (IsFrom src) rs
      → All (IsConfigured cfg) rs
  from-IsConfigured src [] there h = tt
  from-IsConfigured src (r ∷ rs) there ((found, name), h) =
      (rw name (there ∙ ap some (sym found)), from-IsConfigured src rs there h)

  sources-IsConfigured :
      (srcs : List KubeconfigSource) (s s' : ServerState W) (rs : List ResolvedCluster)
      → AreConfigured srcs
      → IsListed s.cluster_list
      → clusters_of_sources api out cfg srcs s ≡ (ok rs, s')
      → IsListed s'.cluster_list × All (IsConfigured cfg) rs
  unfolding clusters_of_sources
  sources-IsConfigured [] s s' rs a v h =
      let unchanged : s ≡ s' = ap (λ (x : Result (List ResolvedCluster) × ServerState W). x.1) h in
      let same : [] ≡ rs = ground arith in
      (
        subst (λ (u : ServerState W). IsListed u.cluster_list) unchanged v,
        subst (All (IsConfigured cfg)) same tt,
      )
  sources-IsConfigured (src ∷ srcs) s s' rs ((there, plain), a) v h =
      let found = resolve_contexts api out cfg src s in
      let (contexts, _, h1) = continue-eq-ok found _ h in
      let v0 = subst IsListed (sym (contexts_keep api out cfg src s)) v in
      let own = clusters_of_contexts api out cfg src contexts found.1 in
      let (clusters, listed, h2) = continue-eq-ok own _ h1 in
      let (v1, from) =
        contexts-IsFrom src plain contexts found.1 own.1 clusters v0
          (succeeded_with own clusters listed) in
      let others = clusters_of_sources api out cfg srcs own.1 in
      let (rest, more, h3) = continue-eq-ok others _ h2 in
      let (v2, configured) =
        sources-IsConfigured srcs own.1 others.1 rest a v1 (succeeded_with others rest more) in
      let unchanged : others.1 ≡ s' =
        ap (λ (x : Result (List ResolvedCluster) × ServerState W). x.1) h3 in
      let same : clusters ++ rest ≡ rs = ground arith in
      (
        subst (λ (u : ServerState W). IsListed u.cluster_list) unchanged v2,
        subst (All (IsConfigured cfg)) same (
            All-append (IsConfigured cfg) clusters rest (from-IsConfigured src clusters there from)
              configured),
      )

  sources_of-AreConfigured :
      (names : List GoString)
      → IsNamed cfg.kubeconfigs
      → ((n : GoString) (src : KubeconfigSource)
          → lookup n cfg.kubeconfigs ≡ some src
          → Lacks colon n)
      → AreConfigured (sources_of cfg names)
  unfolding sources_of
  sources_of-AreConfigured [] named plain = tt
  sources_of-AreConfigured (n ∷ names) named plain =
      elim (Option-cases (lookup n cfg.kubeconfigs)) [
        | inl missing ↦ rw (missing, sources_of) (sources_of-AreConfigured names named plain)
        | inr (src, there) ↦
            rw (there, sources_of)
              (
                (
                  subst (λ (x : GoString). lookup x cfg.kubeconfigs ≡ some src)
                      (sym (named n src there)) there,
                  subst (Lacks colon) (sym (named n src there)) (plain n src there),
                ),
                sources_of-AreConfigured names named plain,
              )
      ]

  -- Let no name of a kubeconfig have a colon in it. If the clusters are listed, with a cache in which
  -- every list is of the kubeconfig of its key, then the cache stays so; and a target of a listed cluster
  -- whose fields have no slash resolves, at any later time, to that cluster's kubeconfig by the source
  -- through which the cluster was found.
  pub resolve_target-format_target :
      (s s' : ServerState W) (resolved : List ResolvedCluster)
      → IsNamed cfg.kubeconfigs
      → ((n : GoString) (src : KubeconfigSource)
          → lookup n cfg.kubeconfigs ≡ some src
          → Lacks colon n)
      → IsListed s.cluster_list
      → all_resolved_clusters api out cfg s ≡ (ok resolved, s')
      → (r : ResolvedCluster) → Elem r resolved
      → All (Lacks slash) (fields r.cluster)
      → IsListed s'.cluster_list
        × ((u : ServerState W)
            → resolve_target api out cfg (format_target r.cluster) u
              ≡ cached_kubeconfig api out cfg r.source r.cluster.context r.cluster.namespace
                  r.cluster.name u)
  unfolding all_resolved_clusters sorted_kubeconfigs resolve_target
  resolve_target-format_target s s' resolved named plain v h r listed no_slash =
      let (after, configured) =
        sources-IsConfigured (sorted_kubeconfigs cfg) s s' resolved
          (sources_of-AreConfigured _ named plain) v h in
      let found = All-Elem (IsConfigured cfg) resolved r configured listed in
      let parsed = parse_target-format_target r.cluster no_slash in
      (after, λ u. ground (arith, parsed, found))
