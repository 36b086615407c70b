-- ===== src/Server/Owner/Handed.antt =====
-- The kubeconfigs that the tools of internal/server/tools.go hand out.
use capi_shell_mcp.Base.{
  ℕ, GoString, GoError, List, [], str_eq, lookup, none, some, ok, Bool, true, false, nat_eq,
  get_elem?, fan_out, fan_out_each_kept, contains, Lacks, continue-eq-ok, succeeded_with,
  Result-cases, inl, inr, ◌⊎◌, subst, sym, ◌≡◌, arith,
}
use capi_shell_mcp.Capi.Keys.{colon}
use capi_shell_mcp.Capi.Kube.{KubeApi}
use capi_shell_mcp.Capi.Target.{TargetParts, parse_target}
use capi_shell_mcp.Config.{AppConfig, KubeconfigSource}
use capi_shell_mcp.Server.{ServerState, Outside}
use capi_shell_mcp.Server.Kubeconfig.{resolve_target}
use capi_shell_mcp.Server.Build.Kept.{kubeconfig_task-Preserves, resolved-keeps}
use capi_shell_mcp.Server.Tools.{
  ToolOutside, KubeconfigResult, kubeconfigs, any_kubeconfig_error, kubeconfig_for, kubeconfig_task,
  resolve_patterns, get_cluster_kubeconfig_fan_out,
}
use capi_shell_mcp.Server.Execution.ReadOnly.{IsReadOnly, read_only_kubeconfig-IsReadOnly}
use capi_shell_mcp.Server.Owner.{NamesHaveNoColon, HasPlainNames, IsOf, OwnsCache}
use capi_shell_mcp.Server.Owner.Access.{resolve_target-IsOf}
use capi_shell_mcp.Server.Owner.Kept.{OwnsCache-IsKept}

module _ {W C O : Type 0} (api : KubeApi W C O) (out : Outside W C) (tool : ToolOutside W)
    (cfg : AppConfig) where
  -- It is of the cluster that the target names.
  abbrev pub IsAdminOf : TargetParts → GoString → Type 0
  IsAdminOf id kc =
      (src : KubeconfigSource) × (lookup id.kubeconfig_name cfg.kubeconfigs ≡ some src)
      × IsOf api out cfg src id.context id.namespace id.name kc

  -- It is the admin kubeconfig of the cluster, or of the read-only account and made from that.
  abbrev pub IsHanded : Bool → TargetParts → GoString → Type 0
  IsHanded true id kc = (ro : IsReadOnly api out tool cfg kc) × IsAdminOf id ro.admin_kc
  IsHanded false id kc = IsAdminOf id kc

  abbrev pub Handed : Bool → TargetParts → KubeconfigResult → Type 0
  Handed readonly id r =
      ((e : GoError) × (r.error ≡ some e) × (r.kubeconfig ≡ []))
      ⊎ ((r.error ≡ none) × IsHanded readonly id r.kubeconfig)

  module _ (no_colon : NamesHaveNoColon api) (names : HasPlainNames cfg) where
    kubeconfig_for-IsHanded :
        (readonly : Bool) (t kc : GoString) (id : TargetParts) (s s' : ServerState W)
        → OwnsCache api out cfg s
        → parse_target t ≡ ok id
        → Lacks colon id.namespace
        → Lacks colon id.name
        → kubeconfig_for api out tool cfg readonly t s ≡ (ok kc, s')
        → IsHanded readonly id kc
    unfolding kubeconfig_for
    kubeconfig_for-IsHanded true t kc id s s' v parsed plain_ns plain_n h =
        let resolved = resolve_target api out cfg t s in
        let (admin_kc, got, h1) = continue-eq-ok resolved _ h in
        let (ro, from) =
          read_only_kubeconfig-IsReadOnly api out tool cfg admin_kc kc resolved.1 s' h1 in
        (
          ro,
          subst (IsAdminOf id) (sym from) (
              resolve_target-IsOf api out cfg no_colon names t id admin_kc s v parsed plain_ns
                plain_n got),
        )
    kubeconfig_for-IsHanded false t kc id s s' v parsed plain_ns plain_n h =
        let resolved = resolve_target api out cfg t s in
        let (admin_kc, got, h1) = continue-eq-ok resolved _ h in
        subst (IsAdminOf id) (ground arith) (
          resolve_target-IsOf api out cfg no_colon names t id admin_kc s v parsed plain_ns plain_n
            got)

    -- The result is about the target.
    abbrev OwnResult : Bool → GoString → KubeconfigResult → Type 0
    OwnResult readonly t r =
        (r.cluster ≡ t)
        × ((id : TargetParts)
            → parse_target t ≡ ok id
            → Lacks colon id.namespace
            → Lacks colon id.name
            → Handed readonly id r)

    kubeconfig_task-Handed :
        (readonly : Bool) (t : GoString) (s : ServerState W)
        → OwnsCache api out cfg s
        → OwnResult readonly t (kubeconfig_task api out tool cfg readonly t s).0
    unfolding kubeconfig_task
    kubeconfig_task-Handed readonly t s v =
        let given = kubeconfig_for api out tool cfg readonly t s in
        elim (Result-cases given.0) [
          | inr (e, bad) ↦ (ground arith, λ _ _ _ _. inl (e, ground arith, ground arith))
          | inl (kc, good) ↦ (
            ground arith,
            λ id parsed plain_ns plain_n. inr (
              ground arith,
              subst (IsHanded readonly id) (ground arith) (
                  kubeconfig_for-IsHanded readonly t kc id s given.1 v parsed plain_ns plain_n
                    (succeeded_with given kc good)),
            ),
          )
        ]

    pub get_cluster_kubeconfig-Handed :
        (readonly : Bool) (patterns targets : List GoString) (order : List ℕ) (s : ServerState W)
        (i : ℕ) (t : GoString)
        → OwnsCache api out cfg s
        → (resolve_patterns api out tool cfg patterns false s).0 ≡ ok targets
        → get_elem? targets i ≡ some t
        → contains order i ≡ true
        → (results : List KubeconfigResult) × (s' : ServerState W) × (r : KubeconfigResult)
          × (get_cluster_kubeconfig_fan_out api out tool cfg patterns readonly order s ≡ (
            ok (record { text = kubeconfigs results; is_error = any_kubeconfig_error results }),
            s',
          ))
          × (get_elem? results i ≡ some r)
          × OwnResult readonly t r
    unfolding get_cluster_kubeconfig_fan_out
    get_cluster_kubeconfig-Handed readonly patterns targets order s i t v selected at runs =
        let kept = OwnsCache-IsKept api out cfg no_colon names in
        let task = kubeconfig_task api out tool cfg readonly in
        let zero_value : KubeconfigResult = record {
          cluster = [];
          kubeconfig = [];
          error = none;
        } in
        let s1 = (resolve_patterns api out tool cfg patterns false s).1 in
        let ran = fan_out zero_value task targets order s1 in
        let (r, there, own) =
          fan_out_each_kept zero_value task (OwnsCache api out cfg)
            (kubeconfig_task-Preserves api out tool cfg (OwnsCache api out cfg) kept readonly)
            (OwnResult readonly) (λ u x w. kubeconfig_task-Handed readonly u x w) targets order s1 i
            t (resolved-keeps api out tool cfg (OwnsCache api out cfg) kept patterns false s v) at
            runs in
        (ran.0, ran.1, r, ground arith, there, own)
