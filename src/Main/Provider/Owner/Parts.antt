-- ===== src/Main/Provider/Owner/Parts.antt =====
-- The managers that calls get whose parts interleave.
use capi_shell_mcp.Base.{
  ℕ, GoString, List, [], ◌∷◌, All, All-append, All-get, All-set, lookup, str_eq, some, get_elem?,
  Option-cases, Result, ok, err, with_error, unknown_target, Lacks, subst, inl, inr, ◌≡◌, refl,
  arith,
}
use capi_shell_mcp.Capi.Keys.{colon}
use capi_shell_mcp.Capi.Kube.{KubeApi}
use capi_shell_mcp.Capi.Target.{TargetParts, parse_target}
use capi_shell_mcp.Config.{AppConfig}
use capi_shell_mcp.HttpServer.{Network}
use capi_shell_mcp.Server.{ServerState, Outside}
use capi_shell_mcp.Server.Kubeconfig.{resolve_target}
use capi_shell_mcp.Server.Kept.{resolve_target-Preserves}
use capi_shell_mcp.Server.Tools.{ToolOutside}
use capi_shell_mcp.Server.Owner.{NamesHaveNoColon, HasPlainNames, OwnsCache}
use capi_shell_mcp.Server.Owner.Access.{resolve_target-IsOf}
use capi_shell_mcp.Server.Owner.Handed.{IsAdminOf}
use capi_shell_mcp.Server.Owner.Kept.{OwnsCache-IsKept}
use capi_shell_mcp.Embed.Provider.{
  Library, CapiProvider, new_capi_provider, build_manager, store_manager, on_resolver,
}
use capi_shell_mcp.Main.{Mcp, resolver, new_tool_server}
use capi_shell_mcp.Main.Provider.Calls.{
  Stage, asking, resolving, building, storing, given, ManagerCall, ProviderSystem, Happening,
  arrives, continues, uses, after_resolving, after_building, advance, occur, run_all,
}
use capi_shell_mcp.Main.Provider.Owner.{IsFor, IsOwnManager, IsOwning, insert-AreOwn, made}
use capi_shell_mcp.Main.Provider.Owner.Uses.{use_provider-IsOwning, new_provider-IsOwning}

module _ {W C O R G M : Type 0} (api : KubeApi W C O) (out : Outside W C) (tool : ToolOutside W)
    (network : Network W) (mcp : Mcp W) (cfg : AppConfig) (library : Library R G M) where
  module _ (t : GoString) where
    -- What a call has found belongs to the cluster that its target names.
    abbrev IsSoundAt : Stage M → Type 0
    IsSoundAt asking = Unit {0}
    IsSoundAt resolving = Unit {0}
    IsSoundAt (building kc) =
        (id : TargetParts)
        → parse_target t ≡ ok id
        → Lacks colon id.namespace
        → Lacks colon id.name
        → IsAdminOf api out tool cfg id kc
    IsSoundAt (storing mgr) = IsOwnManager api out tool network mcp cfg library t mgr
    IsSoundAt (given r) =
        (mgr : M) → r ≡ ok mgr → IsOwnManager api out tool network mcp cfg library t mgr

    abbrev IsSoundWith : Stage M × CapiProvider (ServerState W) G M → Type 0
    IsSoundWith x = IsOwning api out tool network mcp cfg library x.1 × IsSoundAt x.0

    asking-IsSound :
        (p : CapiProvider (ServerState W) G M)
        → IsOwning api out tool network mcp cfg library p
        → IsSoundWith (advance api out tool network mcp cfg library t asking p)
    unfolding advance
    asking-IsSound p v = elim (Option-cases (lookup t p.managers)) [
      | inl miss ↦ rw (miss, advance) (v, tt)
      | inr (mgr, hit) ↦
          rw (hit, advance)
            (
              v,
              λ m h.
                  subst (IsOwnManager api out tool network mcp cfg library t) (ground arith)
                    (v.managers t mgr hit),
            )
    ]

    resolved-IsSound :
        (r : Result GoString × ServerState W) (p : CapiProvider (ServerState W) G M)
        → IsOwning api out tool network mcp cfg library p
        → OwnsCache api out cfg r.1
        → ((kc : GoString) → r.0 ≡ ok kc → IsSoundAt (building kc))
        → IsSoundWith (
            after_resolving api out tool network mcp cfg library (
              with_error
                (unknown_target t)
                (on_resolver library (resolver api out tool network mcp cfg) (λ _. r) p)))
    unfolding after_resolving
    resolved-IsSound (ok kc, s) p v kept of =
        (record { cache = kept; managers = v.managers }, of kc refl)
    resolved-IsSound (err e, s) p v kept of =
        (record { cache = kept; managers = v.managers }, λ mgr h. absurd (cc))

    built-IsSound :
        (kc : GoString) (settings : G) (b : Result M)
        → build_manager library (resolver api out tool network mcp cfg) t kc settings ≡ b
        → IsSoundAt (building kc)
        → IsSoundAt (after_building api out tool network mcp cfg library b)
    unfolding after_building
    built-IsSound kc settings (err e) is of = λ mgr h. absurd (cc)
    built-IsSound kc settings (ok mgr) is of = λ id parsed plain_ns plain_n.
        let (src, known, is_of) = of id parsed plain_ns plain_n in
        (src, kc, known, is_of, made t settings mgr is)

    module _ (no_colon : NamesHaveNoColon api) (names : HasPlainNames cfg) where
      advance-IsSound :
          (stage : Stage M) (p : CapiProvider (ServerState W) G M)
          → IsOwning api out tool network mcp cfg library p
          → IsSoundAt stage
          → IsSoundWith (advance api out tool network mcp cfg library t stage p)
      unfolding advance store_manager
      advance-IsSound asking p v h = asking-IsSound p v
      advance-IsSound resolving p v h =
          resolved-IsSound (resolve_target api out cfg t p.resolver_state) p v
            (resolve_target-Preserves api out cfg (OwnsCache api out cfg)
              (OwnsCache-IsKept api out cfg no_colon names) t p.resolver_state v.cache)
            (λ kc got id parsed plain_ns plain_n.
              resolve_target-IsOf api out cfg no_colon names t id kc p.resolver_state v.cache parsed
                plain_ns plain_n got)
      advance-IsSound (building kc) p v of = (
        v,
        built-IsSound kc p.cfg
            (build_manager library (resolver api out tool network mcp cfg) t kc p.cfg) refl of,
      )
      advance-IsSound (storing mgr) p v own = (
        record {
          cache = v.cache;
          managers =
              insert-AreOwn api out tool network mcp cfg library t mgr p.managers own v.managers;
        },
        λ m h. subst (IsOwnManager api out tool network mcp cfg library t) (ground arith) own,
      )
      advance-IsSound (given r) p v own = (v, own)

  module _ (no_colon : NamesHaveNoColon api) (names : HasPlainNames cfg) where
    abbrev IsSound : ManagerCall M → Type 0
    IsSound c = IsSoundAt c.target c.stage

    abbrev AreSound : ProviderSystem W G M → Type 0
    AreSound y = IsOwning api out tool network mcp cfg library y.provider × All IsSound y.calls

    occur-AreSound :
        (h : Happening W G) (y : ProviderSystem W G M)
        → AreSound y
        → AreSound (occur api out tool network mcp cfg library h y)
    unfolding occur
    occur-AreSound (arrives t) y (v, calls) = (v, All-append IsSound y.calls _ calls (tt, tt))
    occur-AreSound (continues i) y (v, calls) = elim (Option-cases (get_elem? y.calls i)) [
      | inl nothing ↦ rw (nothing, occur) (v, calls)
      | inr (c, there) ↦
          let (kept, next) =
            advance-IsSound c.target no_colon names c.stage y.provider v
              (All-get IsSound y.calls i c calls there) in
          rw (there, occur) (kept, All-set IsSound y.calls i _ calls next)
    ]
    occur-AreSound (uses u) y (v, calls) = (
      use_provider-IsOwning api out tool network mcp cfg library no_colon names u y.provider v,
      calls,
    )

    run_all-AreSound :
        (hs : List (Happening W G)) (y : ProviderSystem W G M)
        → AreSound y
        → AreSound (run_all api out tool network mcp cfg library hs y)
    unfolding run_all
    run_all-AreSound [] y v = v
    run_all-AreSound (h ∷ hs) y v =
        run_all-AreSound hs (occur api out tool network mcp cfg library h y) (occur-AreSound h y v)

    -- Let no secret be found under a name with a colon, and no kubeconfig be configured under one.
    -- However the parts of the calls for managers interleave, with each other and with what else is
    -- done with the provider and by the daemon: a manager that a call gives, for a target whose
    -- namespace and name have no colon, was made from a kubeconfig of the very cluster that the target
    -- names, and since then at most given other settings or closed.
    pub managers_of_own_clusters :
        (hs : List (Happening W G)) (settings : G) (w : W) (i : ℕ) (c : ManagerCall M)
        (id : TargetParts) (mgr : M)
        → get_elem?
            (run_all api out tool network mcp cfg library hs (record {
              provider = new_capi_provider (new_tool_server cfg w) settings;
              calls = [];
            })).calls
            i
          ≡ some c
        → c.stage ≡ given (ok mgr)
        → parse_target c.target ≡ ok id
        → Lacks colon id.namespace
        → Lacks colon id.name
        → IsFor api out tool network mcp cfg library id mgr
    managers_of_own_clusters hs settings w i c id mgr there done =
        let start : ProviderSystem W G M = record {
          provider = new_capi_provider (new_tool_server cfg w) settings;
          calls = [];
        } in
        let sound =
          All-get IsSound (run_all api out tool network mcp cfg library hs start).calls i c
            (run_all-AreSound hs start (
              new_provider-IsOwning api out tool network mcp cfg library no_colon names settings w,
              tt,
            )).1
            there in
        subst (IsSoundAt c.target) done sound mgr refl id
