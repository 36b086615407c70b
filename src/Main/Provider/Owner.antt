-- ===== src/Main/Provider/Owner.antt =====
-- The clusters that the managers of embedded tools work in.
pub mod Uses
pub mod Parts
use capi_shell_mcp.Base.{
  GoString, List, [], ◌∷◌, Map, lookup, insert, lookup-insert, str_eq, str_beq, str_beq_iff, none,
  some, Option-cases, Result, ok, err, Bool-cases, with_error, unknown_target, continue, Lacks,
  subst, inl, inr, ◌≡◌, refl, arith,
}
use capi_shell_mcp.Capi.Keys.{colon}
use capi_shell_mcp.Capi.Kube.{KubeApi}
use capi_shell_mcp.Capi.Target.{TargetParts, parse_target}
use capi_shell_mcp.Config.{KubeconfigSource, AppConfig}
use capi_shell_mcp.HttpServer.{Network}
use capi_shell_mcp.Server.{ServerState, Outside}
use capi_shell_mcp.Server.Kubeconfig.{resolve_target}
use capi_shell_mcp.Server.Kept.{resolve_target-Preserves, list_targets-Preserves}
use capi_shell_mcp.Server.Tools.{ToolOutside}
use capi_shell_mcp.Server.Owner.{NamesHaveNoColon, HasPlainNames, IsOf, OwnsCache}
use capi_shell_mcp.Server.Owner.Access.{resolve_target-IsOf}
use capi_shell_mcp.Server.Owner.Kept.{OwnsCache-IsKept}
use capi_shell_mcp.Embed.Provider.{
  Library, CapiProvider, new_capi_provider, build_manager, store_manager, on_all, on_resolver,
  manager_for_target, get_targets, reload_config, publish_kubernetes_config, close,
}
use capi_shell_mcp.Embed.Provider.Cached.{found, not_found}
use capi_shell_mcp.Main.{Mcp, resolver, new_tool_server}
use capi_shell_mcp.Main.Kept.{serve-keeps}
use capi_shell_mcp.Main.Owner.{new_tool_server-OwnsCache}
use capi_shell_mcp.Main.Provider.{
  ProviderUse, asks_for, asks_for_targets, reloads, publishes, closes, serves, use_provider,
}

module _ {W C O R G M : Type 0} (api : KubeApi W C O) (out : Outside W C) (tool : ToolOutside W)
    (network : Network W) (mcp : Mcp W) (cfg : AppConfig) (library : Library R G M) where
  -- A manager that was made from a kubeconfig, and perhaps given other settings or closed since.
  pub data IsMadeFrom (kc : GoString) : M → Type 0 where
    made :
        (t : GoString) (settings : G) (mgr : M)
        → build_manager library (resolver api out tool network mcp cfg) t kc settings ≡ ok mgr
        → IsMadeFrom kc mgr
    configured :
        (settings : G) (mgr : M)
        → IsMadeFrom kc mgr
        → IsMadeFrom kc (library.set_config settings mgr)
    closed : (mgr : M) → IsMadeFrom kc mgr → IsMadeFrom kc (library.close mgr)

  -- It was made from a kubeconfig of the cluster.
  abbrev pub IsFor : TargetParts → M → Type 0
  IsFor id mgr =
      (src : KubeconfigSource) × (kc : GoString) × (lookup id.kubeconfig_name cfg.kubeconfigs
        ≡ some src)
      × IsOf api out cfg src id.context id.namespace id.name kc
      × IsMadeFrom kc mgr

  abbrev IsOwnManager : GoString → M → Type 0
  IsOwnManager t mgr =
      (id : TargetParts)
      → parse_target t ≡ ok id
      → Lacks colon id.namespace
      → Lacks colon id.name
      → IsFor id mgr

  abbrev AreOwnManagers : Map GoString M → Type 0
  AreOwnManagers ms = (t : GoString) (mgr : M) → lookup t ms ≡ some mgr → IsOwnManager t mgr

  record IsOwning (p : CapiProvider (ServerState W) G M) : Type 0 where
    cache : OwnsCache api out cfg p.resolver_state
    managers : AreOwnManagers p.managers

  abbrev GivesOwn : GoString → Result M × CapiProvider (ServerState W) G M → Type 0
  GivesOwn t r = IsOwning r.1 × ((mgr : M) → r.0 ≡ ok mgr → IsOwnManager t mgr)

  on_all-lookup :
      (f : M → M) (t : GoString) (mgr : M) (ms : Map GoString M)
      → lookup t (on_all library (resolver api out tool network mcp cfg) f ms) ≡ some mgr
      → (old : M) × (lookup t ms ≡ some old) × (f old ≡ mgr)
  unfolding on_all lookup
  on_all-lookup f t mgr [] h = absurd (cc)
  on_all-lookup f t mgr ((u, m) ∷ ms) h = elim (Bool-cases (str_beq u t)) [
    | inl same ↦ (m, ground arith, ground arith)
    | inr other ↦
        let (old, there, is) = on_all-lookup f t mgr ms (ground arith) in (old, ground arith, is)
  ]

  on_all-AreOwn :
      (f : M → M) (ms : Map GoString M)
      → ((kc : GoString) (mgr : M) → IsMadeFrom kc mgr → IsMadeFrom kc (f mgr))
      → AreOwnManagers ms
      → AreOwnManagers (on_all library (resolver api out tool network mcp cfg) f ms)
  on_all-AreOwn f ms keeps v t mgr h id parsed plain_ns plain_n =
      let (old, there, is) = on_all-lookup f t mgr ms h in
      let (src, kc, known, is_of, from) = v t old there id parsed plain_ns plain_n in
      (src, kc, known, is_of, subst (IsMadeFrom kc) is (keeps kc old from))

  insert-AreOwn :
      (t : GoString) (mgr : M) (ms : Map GoString M)
      → IsOwnManager t mgr
      → AreOwnManagers ms
      → AreOwnManagers (insert t mgr ms)
  insert-AreOwn t mgr ms own v u m h = elim (Bool-cases (str_beq t u)) [
    | inl equal ↦
        let same : t ≡ u = (str_beq_iff t u).0 equal in
        let is : mgr ≡ m = ground (arith, h, equal, lookup-insert t u mgr ms) in
        subst (λ (x : GoString). IsOwnManager x m) same (subst (IsOwnManager t) is own)
    | inr other ↦ v u m (ground (arith, h, other, lookup-insert t u mgr ms))
  ]

  built-GivesOwn :
      (t kc : GoString) (b : Result M) (p : CapiProvider (ServerState W) G M)
      → build_manager library (resolver api out tool network mcp cfg) t kc p.cfg ≡ b
      → IsOwning p
      → ((id : TargetParts)
          → parse_target t ≡ ok id
          → Lacks colon id.namespace
          → Lacks colon id.name
          → (src : KubeconfigSource) × (lookup id.kubeconfig_name cfg.kubeconfigs ≡ some src)
            × IsOf api out cfg src id.context id.namespace id.name kc)
      → GivesOwn t
          (continue (b, p) (store_manager library (resolver api out tool network mcp cfg) t))
  unfolding store_manager
  built-GivesOwn t kc (err e) p is v of = (v, λ mgr h. absurd (cc))
  built-GivesOwn t kc (ok mgr) p is v of =
      let own : IsOwnManager t mgr = λ id parsed plain_ns plain_n.
        let (src, known, is_of) = of id parsed plain_ns plain_n in
        (src, kc, known, is_of, made t p.cfg mgr is) in
      (
        record { cache = v.cache; managers = insert-AreOwn t mgr p.managers own v.managers },
        λ m h. subst (IsOwnManager t) (ground arith) own,
      )
