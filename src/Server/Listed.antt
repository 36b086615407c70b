-- ===== src/Server/Listed.antt =====
-- The clusters that are listed, and the kubeconfigs that they were found through.
pub mod Resolves
use capi_shell_mcp.Base.{
  add_duration, ℕ, GoString, str_eq, Lacks, Map, lookup, lookup-insert, lookup-delete, Option, none,
  some, Result, ok, List, [], ◌∷◌, ◌++◌, map, All, All-append, All-Elem, Elem, bind, lift, continue,
  continue-eq-ok, succeeded_with, Option-cases, Bool-cases, inl, inr, subst, sym, ap, str_beq,
  str_beq_iff, ◌+◌, if◌then◌else◌, ◌≡◌, ◌∙◌, refl, arith, ltb,
}
use capi_shell_mcp.Cache
use capi_shell_mcp.Cache.{TtlCache, Entry}
use capi_shell_mcp.Capi.Target.{CapiCluster, fields, slash, parse_target, parts_of, format_target}
use capi_shell_mcp.Capi.Target.RoundTrip.{parse_target-format_target}
use capi_shell_mcp.Capi.Keys.{colon, cluster_list_key, cluster_list_key-injective}
use capi_shell_mcp.Capi.Kube.{KubeApi, list_clusters_for_context, none_of}
use capi_shell_mcp.Capi.Kube.Listing.{named_after, list_clusters_for_context_lem}
use capi_shell_mcp.Config.{KubeconfigSource, AppConfig}
use capi_shell_mcp.Config.Load.Laws.{IsNamed}
use capi_shell_mcp.Server.{ServerState, Outside, on_world}
use capi_shell_mcp.Server.Clients.{get_contexts}
use capi_shell_mcp.Server.Clusters.{
  ResolvedCluster, resolve_contexts, list_clusters_cached, fetch_clusters, clusters_of_contexts,
  clusters_of_sources, sources_of, sorted_kubeconfigs, all_resolved_clusters,
}
use capi_shell_mcp.Server.Kubeconfig.{cached_kubeconfig, resolve_target}

-- The clusters are those of that kubeconfig.
abbrev pub AreFrom : GoString → List CapiCluster → Type 0
AreFrom n = All (λ c. c.kubeconfig_name ≡ n)

-- A list stands under a key of the kubeconfig that its clusters are from.
abbrev pub IsListed : TtlCache GoString (List CapiCluster) → Type 0
IsListed cache =
    (n c : GoString) (e : Entry (List CapiCluster))
    → Lacks colon n
    → lookup (cluster_list_key n c) cache.store ≡ some e
    → AreFrom n e.value

get-IsListed :
    (k : GoString) (now : ℕ) (cache : TtlCache GoString (List CapiCluster))
    → IsListed cache
    → IsListed (Cache.get k now cache).1
unfolding Cache.get
get-IsListed k now cache v n c e plain there =
    v n c e plain (ground (arith, there, lookup-delete k (cluster_list_key n c) cache.store))

found-AreFrom :
    (n c : GoString) (now : ℕ) (cache : TtlCache GoString (List CapiCluster))
    (cs : List CapiCluster)
    → IsListed cache
    → Lacks colon n
    → (Cache.get (cluster_list_key n c) now cache).0 ≡ some cs
    → AreFrom n cs
unfolding Cache.get
found-AreFrom n c now cache cs v plain found =
    elim (Option-cases (lookup (cluster_list_key n c) cache.store)) [
      | inl missing ↦ absurd (ground arith)
      | inr (e, there) ↦
          let same : e.value ≡ cs = ground arith in subst (AreFrom n) same (v n c e plain there)
    ]

set-IsListed :
    (n c : GoString) (now : ℕ) (cache : TtlCache GoString (List CapiCluster))
    (cs : List CapiCluster)
    → IsListed cache
    → Lacks colon n
    → AreFrom n cs
    → IsListed (Cache.set (cluster_list_key n c) cs now cache)
unfolding Cache.set
set-IsListed n c now cache cs v plain from m d e plain_m there =
    elim (Bool-cases (str_beq (cluster_list_key n c) (cluster_list_key m d))) [
      | inl equal ↦
          let (same, _) =
            cluster_list_key-injective n m c d plain plain_m
              ((str_beq_iff (cluster_list_key n c) (cluster_list_key m d)).0 equal) in
          let stored : cs ≡ e.value = ground (
            arith,
            there,
            equal,
            lookup-insert (cluster_list_key n c) (cluster_list_key m d)
                (record { value = cs; expires_at = add_duration now cache.ttl }) cache.store,
          ) in
          subst (AreFrom m) stored (subst (λ (x : GoString). AreFrom x cs) same from)
      | inr other ↦ v m d e plain_m (
          ground (
            arith,
            there,
            other,
            lookup-insert (cluster_list_key n c) (cluster_list_key m d)
                (record { value = cs; expires_at = add_duration now cache.ttl }) cache.store,
          ))
    ]

named-AreFrom :
    {W C O : Type 0} (api : KubeApi W C O) (n c : GoString) (cs : List CapiCluster) (items : List O)
    → map fields cs ≡ map (named_after api n c) items
    → AreFrom n cs
named-AreFrom api n c [] items same = tt
named-AreFrom api n c (x ∷ cs) [] same = absurd (cc)
named-AreFrom api n c (x ∷ cs) (i ∷ items) same =
    (ground arith, named-AreFrom api n c cs items (ground arith))

module _ {W C O : Type 0} (api : KubeApi W C O) (out : Outside W C) (cfg : AppConfig) where
  pub contexts_keep :
      (src : KubeconfigSource) (s : ServerState W)
      → (resolve_contexts api out cfg src s).1.cluster_list ≡ s.cluster_list
  unfolding resolve_contexts
  contexts_keep src s = ground arith

  module _ (src : KubeconfigSource) (plain : Lacks colon src.name) where
    fetched-AreFrom :
        (c : GoString) (s s' : ServerState W) (cs : List CapiCluster)
        → IsListed s.cluster_list
        → fetch_clusters api out cfg src c s ≡ (ok cs, s')
        → IsListed s'.cluster_list × AreFrom src.name cs
    unfolding fetch_clusters
    fetched-AreFrom c s s' cs v h =
        let (client, _, h1) = continue-eq-ok (on_world (out.clients_for_context src c) s) _ h in
        let s1 = (on_world (out.clients_for_context src c) s).1 in
        let listed = list_clusters_for_context api client src.name c cfg.custom_fields in
        let (found, succeeded, h2) = continue-eq-ok (on_world listed s1) _ h1 in
        let s2 = (on_world listed s1).1 in
        let (items, _, named, _) =
          list_clusters_for_context_lem api src.name c cfg.custom_fields client s1.world
            (listed s1.world).1 found (succeeded_with (listed s1.world) found succeeded) in
        let from = named-AreFrom api src.name c found items named in
        let stored =
          set-IsListed src.name c (out.clock s2.world) s.cluster_list found v plain from in
        let same : found ≡ cs = ground arith in
        let after : record s2 {
          cluster_list =
              Cache.set (cluster_list_key src.name c) found (out.clock s2.world) s2.cluster_list;
        }
            ≡ s' =
          ap (λ (x : Result (List CapiCluster) × ServerState W). x.1) h2 in
        (
          subst (λ (u : ServerState W). IsListed u.cluster_list) after stored,
          subst (AreFrom src.name) same from,
        )

    pub cached-AreFrom :
        (c : GoString) (s s' : ServerState W) (cs : List CapiCluster)
        → IsListed s.cluster_list
        → list_clusters_cached api out cfg src c s ≡ (ok cs, s')
        → IsListed s'.cluster_list × AreFrom src.name cs
    unfolding list_clusters_cached
    cached-AreFrom c s s' cs v h =
        let key = cluster_list_key src.name c in
        let got = Cache.get key (out.clock s.world) s.cluster_list in
        elim (Option-cases got.0) [
          | inr (cached, found) ↦
              let same : cached ≡ cs = ground arith in
              let unchanged : s ≡ s' = ground arith in
              (
                subst (λ (u : ServerState W). IsListed u.cluster_list) unchanged v,
                subst (AreFrom src.name) same (
                    found-AreFrom src.name c (out.clock s.world) s.cluster_list cached v plain
                      found),
              )
          | inl missing ↦
              fetched-AreFrom c (record s { cluster_list = got.1 }) s' cs
                (get-IsListed key (out.clock s.world) s.cluster_list v) (ground (arith, missing))
        ]
