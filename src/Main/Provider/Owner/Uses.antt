-- ===== src/Main/Provider/Owner/Uses.antt =====
-- The managers through all that is done with the provider.
use capi_shell_mcp.Base.{
  GoString, lookup, str_eq, none, some, Option-cases, Result, ok, err, with_error, unknown_target,
  continue, Lacks, subst, inl, inr, ◌≡◌, refl, arith,
}
use capi_shell_mcp.Capi.Keys.{colon}
use capi_shell_mcp.Capi.Kube.{KubeApi}
use capi_shell_mcp.Capi.Target.{TargetParts, parse_target}
use capi_shell_mcp.Config.{KubeconfigSource, AppConfig}
use capi_shell_mcp.HttpServer.{Network}
use capi_shell_mcp.Server.{ServerState, Outside}
use capi_shell_mcp.Server.Kubeconfig.{resolve_target}
use capi_shell_mcp.Server.Kept.{resolve_target-Preserves, list_targets-Preserves}
use capi_shell_mcp.Server.Tools.{ToolOutside}
use capi_shell_mcp.Server.Owner.{NamesHaveNoColon, HasPlainNames, IsOf, OwnsCache}
use capi_shell_mcp.Server.Owner.Access.{resolve_target-IsOf}
use capi_shell_mcp.Server.Owner.Kept.{OwnsCache-IsKept}
use capi_shell_mcp.Embed.Provider.{
  Library, CapiProvider, new_capi_provider, build_manager, store_manager, on_resolver,
  manager_for_target, get_targets, reload_config, publish_kubernetes_config, close,
}
use capi_shell_mcp.Embed.Provider.Cached.{found, not_found}
use capi_shell_mcp.Main.{Mcp, resolver, new_tool_server}
use capi_shell_mcp.Main.Kept.{serve-keeps}
use capi_shell_mcp.Main.Owner.{new_tool_server-OwnsCache}
use capi_shell_mcp.Main.Provider.{
  ProviderUse, asks_for, asks_for_targets, reloads, publishes, closes, serves, use_provider,
}
use capi_shell_mcp.Main.Provider.Owner.{
  IsOwnManager, AreOwnManagers, IsOwning, GivesOwn, on_all-AreOwn, built-GivesOwn, configured,
  closed,
}

module _ {W C O R G M : Type 0} (api : KubeApi W C O) (out : Outside W C) (tool : ToolOutside W)
    (network : Network W) (mcp : Mcp W) (cfg : AppConfig) (library : Library R G M) where
  module _ (no_colon : NamesHaveNoColon api) (names : HasPlainNames cfg) where
    resolved-GivesOwn :
        (t : GoString) (r : Result GoString × ServerState W) (p : CapiProvider (ServerState W) G M)
        → OwnsCache api out cfg r.1
        → AreOwnManagers api out tool network mcp cfg library p.managers
        → ((kc : GoString) (id : TargetParts)
            → r.0 ≡ ok kc
            → parse_target t ≡ ok id
            → Lacks colon id.namespace
            → Lacks colon id.name
            → (src : KubeconfigSource) × (lookup id.kubeconfig_name cfg.kubeconfigs ≡ some src)
              × IsOf api out cfg src id.context id.namespace id.name kc)
        → GivesOwn api out tool network mcp cfg library t (
            continue
              (with_error
                (unknown_target t)
                (on_resolver library (resolver api out tool network mcp cfg) (λ _. r) p))
              (λ kc q.
                continue
                  (build_manager library (resolver api out tool network mcp cfg) t kc q.cfg, q)
                  (store_manager library (resolver api out tool network mcp cfg) t)))
    resolved-GivesOwn t (err e, s) p kept v of =
        (record { cache = kept; managers = v }, λ mgr h. absurd (cc))
    resolved-GivesOwn t (ok kc, s) p kept v of =
        built-GivesOwn api out tool network mcp cfg library t kc _ (record p { resolver_state = s })
          refl (record { cache = kept; managers = v }) (λ id. of kc id refl)

    asked-GivesOwn :
        (t : GoString) (p : CapiProvider (ServerState W) G M)
        → IsOwning api out tool network mcp cfg library p
        → GivesOwn api out tool network mcp cfg library t
            (manager_for_target library (resolver api out tool network mcp cfg) t p)
    asked-GivesOwn t p v = elim (Option-cases (lookup t p.managers)) [
      | inr (mgr, hit) ↦ rw (found library (resolver api out tool network mcp cfg) t mgr p hit) (
        v,
        λ m h.
            subst (IsOwnManager api out tool network mcp cfg library t) (ground arith)
              (v.managers t mgr hit),
      )
      | inl miss ↦ rw (not_found library (resolver api out tool network mcp cfg) t p miss) (
          resolved-GivesOwn t (resolve_target api out cfg t p.resolver_state) p
            (resolve_target-Preserves api out cfg (OwnsCache api out cfg)
              (OwnsCache-IsKept api out cfg no_colon names) t p.resolver_state v.cache)
            v.managers
            (λ kc id got parsed plain_ns plain_n.
              resolve_target-IsOf api out cfg no_colon names t id kc p.resolver_state v.cache parsed
                plain_ns plain_n got))
    ]

    pub use_provider-IsOwning :
        (u : ProviderUse W G) (p : CapiProvider (ServerState W) G M)
        → IsOwning api out tool network mcp cfg library p
        → IsOwning api out tool network mcp cfg library
            (use_provider api out tool network mcp cfg library u p)
    unfolding use_provider get_targets reload_config publish_kubernetes_config close
    use_provider-IsOwning (asks_for t) p v = (asked-GivesOwn t p v).0
    use_provider-IsOwning asks_for_targets p v = record {
      cache =
          list_targets-Preserves api out cfg (OwnsCache api out cfg)
            (OwnsCache-IsKept api out cfg no_colon names) p.resolver_state v.cache;
      managers = v.managers;
    }
    use_provider-IsOwning (reloads none) p v = v
    use_provider-IsOwning (reloads (some c)) p v = record { cache = v.cache; managers = v.managers }
    use_provider-IsOwning (publishes c) p v = record {
      cache = v.cache;
      managers =
          on_all-AreOwn api out tool network mcp cfg library (library.set_config c) p.managers
            (λ kc mgr. configured c mgr) v.managers;
    }
    use_provider-IsOwning closes p v = record {
      cache = v.cache;
      managers =
          on_all-AreOwn api out tool network mcp cfg library library.close p.managers
            (λ kc mgr. closed mgr) v.managers;
    }
    use_provider-IsOwning (serves port events) p v = record {
      cache =
          serve-keeps api out tool network mcp cfg (OwnsCache api out cfg)
            (OwnsCache-IsKept api out cfg no_colon names) (λ i now s v. v) (λ key a s v. v) port
            events p.resolver_state v.cache;
      managers = v.managers;
    }

    pub new_provider-IsOwning :
        (settings : G) (w : W)
        → IsOwning api out tool network mcp cfg library
            (new_capi_provider (new_tool_server cfg w) settings)
    unfolding new_capi_provider lookup
    new_provider-IsOwning settings w = record {
      cache = new_tool_server-OwnsCache api out tool network mcp cfg w;
      managers = λ t mgr h. absurd (cc);
    }
