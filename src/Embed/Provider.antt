-- ===== src/Embed/Provider.antt =====
-- internal/embed/provider.go: the managers of kubernetes-mcp-server, one for each target. `S` is the
-- state of the resolver, `G` are configurations and `M` managers of that library.
pub mod Cached
use capi_shell_mcp.Base.{
  GoString, lit, List, Map, lookup, insert, str_eq, Option, none, some, Result, ok, err, GoError,
  wrapped, unknown_target, plain, ◌++◌, Exec, bind, pure, fail, lift, map_error, with_error, Bool,
  true, false, [], ◌∷◌,
}
use capi_shell_mcp.Embed.{TargetResolver}
use capi_shell_mcp.Embed.FanOut.{target_parameter_name}

-- clientcmd, kubernetes.NewManager and a manager's methods.
pub record Library (R G M : Type 0) : Type 0 where
  pub load : GoString → Result R
  pub client_config : R → Result R
  pub new_manager : G → R → Result M
  pub set_config : G → M → M
  pub close : M → M

pub record CapiProvider (S G M : Type 0) : Type 0 where
  pub cfg : G
  pub managers : Map GoString M
  pub resolver_state : S

abbrev pub is_multi_target : Bool
is_multi_target = true

abbrev pub get_default_target : GoString
get_default_target = []

abbrev pub get_target_parameter_name : GoString
get_target_parameter_name = target_parameter_name

unfoldable pub new_capi_provider : {S G M : Type 0} → S → G → CapiProvider S G M
new_capi_provider s cfg = record { cfg = cfg; managers = []; resolver_state = s }

module _ {S R G M : Type 0} (library : Library R G M) (resolver : TargetResolver S) where
  abbrev pub on_resolver : {A : Type 0} → Exec S A → Exec (CapiProvider S G M) A
  on_resolver f p = let (r, s) = f p.resolver_state in (r, record p { resolver_state = s })

  unfoldable pub get_targets : Exec (CapiProvider S G M) (List GoString)
  get_targets = on_resolver resolver.list_targets

  -- The steps after the kubeconfig is there.
  unfoldable pub build_manager : GoString → GoString → G → Result M
  build_manager target kubeconfig cfg = elim (library.load kubeconfig) [
    | err e ↦ err (wrapped (lit "embed: parsing kubeconfig for target " ++ target) e)
    | ok raw ↦ elim (library.client_config raw) [
      | err e ↦ err (wrapped (lit "embed: building rest config for target " ++ target) e)
      | ok rest ↦
          map_error (wrapped (lit "embed: building manager for target " ++ target))
            (library.new_manager cfg rest)
    ]
  ]

  unfoldable pub store_manager : GoString → M → Exec (CapiProvider S G M) M
  store_manager target mgr p = (ok mgr, record p { managers = insert target mgr p.managers })

  unfoldable pub manager_for_target : GoString → Exec (CapiProvider S G M) M
  unfolding build_manager store_manager
  manager_for_target target p = elim (lookup target p.managers) [
    | some mgr ↦ (ok mgr, p)
    | none ↦
        bind
          (λ q. with_error (unknown_target target) (on_resolver (resolver.resolve_target target) q))
          (λ kubeconfig q.
            bind (lift (build_manager target kubeconfig q.cfg)) (store_manager target) q)
          p
  ]

  -- `derived` is the method Derived of a manager.
  unfoldable pub get_derived_kubernetes :
      {K : Type 0} → (M → Result K) → GoString → Exec (CapiProvider S G M) K
  get_derived_kubernetes derived target = bind (manager_for_target target) λ mgr. lift (derived mgr)

  -- A missing configuration is `none`.
  unfoldable pub reload_config : Option G → Exec (CapiProvider S G M) (Unit {0})
  reload_config none p = (err (plain (lit "embed: config cannot be nil")), p)
  reload_config (some cfg) p = (ok tt, record p { cfg = cfg })

  unfoldable pub on_all : (M → M) → Map GoString M → Map GoString M
  on_all f [] = []
  on_all f ((t, mgr) ∷ ms) = (t, f mgr) ∷ on_all f ms

  unfoldable pub publish_kubernetes_config : G → CapiProvider S G M → CapiProvider S G M
  unfolding on_all
  publish_kubernetes_config cfg p = record p {
    managers = on_all (library.set_config cfg) p.managers;
  }

  unfoldable pub close : CapiProvider S G M → CapiProvider S G M
  unfolding on_all
  close p = record p { managers = on_all library.close p.managers }
