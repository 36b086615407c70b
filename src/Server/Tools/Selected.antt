-- ===== src/Server/Tools/Selected.antt =====
-- What list_clusters returns for patterns.
use capi_shell_mcp.Base.{
  GoString, List, [], ◌∷◌, str_eq, ok, Elem, contains, contains_iff, map, true, false, Bool-cases,
  inl, inr, subst, sym, ◌≡◌, ◌↔◌, ◌∙◌, refl, arith,
}
use capi_shell_mcp.Config.{AppConfig}
use capi_shell_mcp.Capi.Target.{format_target}
use capi_shell_mcp.Capi.Pattern.{TargetPattern}
use capi_shell_mcp.Capi.Kube.{KubeApi, none_of}
use capi_shell_mcp.Capi.Resolve.{parse_all}
use capi_shell_mcp.Capi.Resolve.Select.{AnySelects, resolve_cluster_patterns_selects}
use capi_shell_mcp.Server.{ServerState, Outside}
use capi_shell_mcp.Server.Clusters.{ResolvedCluster, all_resolved_clusters}
use capi_shell_mcp.Server.Tools.{
  ToolOutside, cluster_entries, entry_of, keep_matched, list_clusters,
}

true-ne-false : ¬ (true ≡ false)
true-ne-false e = cc

keep_matched-Elem :
    (matched : List GoString) (rs : List ResolvedCluster) (r : ResolvedCluster)
    → Elem r (keep_matched matched rs)
      ↔ (Elem r rs × (contains matched (format_target r.cluster) ≡ true))
unfolding keep_matched
keep_matched-Elem matched [] r = ground arith
keep_matched-Elem matched (q ∷ rs) r =
    let again = keep_matched-Elem matched rs r in
    let fits = λ (x : ResolvedCluster). contains matched (format_target x.cluster) ≡ true in
    elim (Bool-cases (contains matched (format_target q.cluster))) [
      | inl kept ↦
          rw (kept, keep_matched)
            (
              λ g. elim g [
                | inl same ↦ (inl same, subst fits (sym same) kept)
                | inr later ↦ (let (there, f) = again.0 later in (inr there, f))
              ],
              λ (there, f). elim there [
                | inl same ↦ inl same
                | inr later ↦ inr (again.1 (later, f))
              ],
            )
      | inr left ↦
          rw (left, keep_matched)
            (
              λ g. (let (there, f) = again.0 g in (inr there, f)),
              λ (there, f). elim there [
                | inl same ↦ absurd (true-ne-false (sym (subst fits same f) ∙ left))
                | inr later ↦ again.1 (later, f)
              ],
            )
    ]

module _ {W C O : Type 0} (api : KubeApi W C O) (out : Outside W C) (tool : ToolOutside W)
    (cfg : AppConfig) where
  -- If there are patterns and all parse, and the clusters can be listed, list_clusters succeeds with the
  -- entries of clusters that were listed, and a listed cluster is among them exactly if some pattern
  -- selects its target.
  pub list_clusters_selects :
      (patterns : List GoString) (ps : List TargetPattern) (resolved : List ResolvedCluster)
      (s s' : ServerState W)
      → none_of patterns ≡ false
      → parse_all patterns ≡ ok ps
      → all_resolved_clusters api out cfg s ≡ (ok resolved, s')
      → (kept : List ResolvedCluster) × (list_clusters api out tool cfg patterns s
          ≡ (ok (record { text = cluster_entries (map entry_of kept); is_error = false }), s'))
        × ((r : ResolvedCluster)
            → Elem r kept ↔ (
                Elem r resolved
                × AnySelects
                    (map (λ (x : ResolvedCluster). x.cluster) resolved)
                    patterns
                    (format_target r.cluster)))
  unfolding list_clusters
  list_clusters_selects patterns ps resolved s s' some_patterns parsed listed =
      let known = map (λ (x : ResolvedCluster). x.cluster) resolved in
      let (matched, good, _, selected) =
        resolve_cluster_patterns_selects {W = ServerState W} (λ t. (ok known, t)) s' s' patterns ps
          known parsed refl in
      (
        keep_matched matched resolved,
        ground (arith, some_patterns),
        λ r. ground (
          arith,
          keep_matched-Elem matched resolved r,
          contains_iff matched (format_target r.cluster),
          selected (format_target r.cluster),
        ),
      )
