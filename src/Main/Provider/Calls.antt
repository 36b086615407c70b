-- ===== src/Main/Provider/Calls.antt =====
-- Calls of managerForTarget of internal/embed/provider.go in the parts between which other goroutines
-- run: the look-up, the resolving of the target, the making of the manager and its storing.
use capi_shell_mcp.Base.{
  ℕ, suc, zero, GoString, str_eq, List, [], ◌∷◌, ◌++◌, lookup, none, some, Option-cases, Result, ok,
  err, with_error, unknown_target, continue, get_elem?, set, inl, inr, ap, ◌∙◌, sym, ◌≡◌, refl,
}
use capi_shell_mcp.Capi.Kube.{KubeApi}
use capi_shell_mcp.Config.{AppConfig}
use capi_shell_mcp.HttpServer.{Network}
use capi_shell_mcp.Server.{ServerState, Outside}
use capi_shell_mcp.Server.Tools.{ToolOutside}
use capi_shell_mcp.Server.Kubeconfig.{resolve_target}
use capi_shell_mcp.Embed.Provider.{
  Library, CapiProvider, build_manager, store_manager, on_resolver, manager_for_target,
}
use capi_shell_mcp.Embed.Provider.Cached.{found, not_found}
use capi_shell_mcp.Main.{Mcp, resolver}
use capi_shell_mcp.Main.Provider.{ProviderUse, use_provider}

-- What a call has to do next.
pub data Stage (M : Type 0) : Type 0 where
  asking : Stage M
  resolving : Stage M
  building : GoString → Stage M
  storing : M → Stage M
  given : Result M → Stage M

pub record ManagerCall (M : Type 0) : Type 0 where
  pub target : GoString
  pub stage : Stage M

pub record ProviderSystem (W G M : Type 0) : Type 0 where
  pub provider : CapiProvider (ServerState W) G M
  pub calls : List (ManagerCall M)

pub data Happening (W G : Type 0) : Type 0 where
  arrives : GoString → Happening W G
  -- The next part of the call at that index.
  continues : ℕ → Happening W G
  uses : ProviderUse W G → Happening W G

module _ {W C O R G M : Type 0} (api : KubeApi W C O) (out : Outside W C) (tool : ToolOutside W)
    (network : Network W) (mcp : Mcp W) (cfg : AppConfig) (library : Library R G M) where
  unfoldable pub after_resolving :
      Result GoString × CapiProvider (ServerState W) G M
      → Stage M × CapiProvider (ServerState W) G M
  after_resolving (ok kc, p) = (building kc, p)
  after_resolving (err e, p) = (given (err e), p)

  unfoldable pub after_building : Result M → Stage M
  after_building (ok mgr) = storing mgr
  after_building (err e) = given (err e)

  unfoldable pub advance :
      GoString
      → Stage M
      → CapiProvider (ServerState W) G M
      → Stage M × CapiProvider (ServerState W) G M
  unfolding after_resolving after_building
  advance t asking p = elim (lookup t p.managers) [
    | some mgr ↦ (given (ok mgr), p)
    | none ↦ (resolving, p)
  ]
  advance t resolving p = after_resolving (
      with_error (unknown_target t) (
        on_resolver library (resolver api out tool network mcp cfg) (resolve_target api out cfg t)
          p))
  advance t (building kc) p =
      (after_building (build_manager library (resolver api out tool network mcp cfg) t kc p.cfg), p)
  advance t (storing mgr) p =
      let (r, q) = store_manager library (resolver api out tool network mcp cfg) t mgr p in
      (given r, q)
  advance t (given r) p = (given r, p)

  unfoldable pub occur : Happening W G → ProviderSystem W G M → ProviderSystem W G M
  occur (arrives t) y = record y { calls = y.calls ++ record { target = t; stage = asking } ∷ [] }
  occur (continues i) y = elim (get_elem? y.calls i) [
    | none ↦ y
    | some c ↦
        let (stage, p) = advance c.target c.stage y.provider in
        record { provider = p; calls = set y.calls i (record c { stage = stage }) }
  ]
  occur (uses u) y = record y {
    provider = use_provider api out tool network mcp cfg library u y.provider;
  }

  unfoldable pub run_all : List (Happening W G) → ProviderSystem W G M → ProviderSystem W G M
  unfolding occur
  run_all [] y = y
  run_all (h ∷ hs) y = run_all hs (occur h y)

  module _ (t : GoString) where
    abbrev pub times :
        ℕ → Stage M × CapiProvider (ServerState W) G M → Stage M × CapiProvider (ServerState W) G M
    times zero x = x
    times (suc k) (stage, p) = times k (advance t stage p)

    abbrev pub outcome :
        Result M × CapiProvider (ServerState W) G M → Stage M × CapiProvider (ServerState W) G M
    outcome (r, p) = (given r, p)

    built_whole :
        (b : Result M) (p : CapiProvider (ServerState W) G M)
        → times 1 (after_building b, p)
          ≡ outcome
              (continue (b, p) (store_manager library (resolver api out tool network mcp cfg) t))
    unfolding advance
    built_whole (ok mgr) p = refl
    built_whole (err e) p = refl

    resolved_whole :
        (r : Result GoString × CapiProvider (ServerState W) G M)
        → times 2 (after_resolving r)
          ≡ outcome (
              continue r (λ kc q.
                continue
                  (build_manager library (resolver api out tool network mcp cfg) t kc q.cfg, q)
                  (store_manager library (resolver api out tool network mcp cfg) t)))
    unfolding advance
    resolved_whole (ok kc, p) =
        built_whole (build_manager library (resolver api out tool network mcp cfg) t kc p.cfg) p
    resolved_whole (err e, p) = refl

    asking_hit :
        (mgr : M) (p : CapiProvider (ServerState W) G M)
        → lookup t p.managers ≡ some mgr
        → times 4 (asking, p) ≡ (given (ok mgr), p)
    unfolding advance
    asking_hit mgr p hit = rw (hit, advance) refl

    asking_miss :
        (p : CapiProvider (ServerState W) G M)
        → lookup t p.managers ≡ none
        → times 4 (asking, p) ≡ times 3 (resolving, p)
    unfolding advance
    asking_miss p miss = rw (miss, advance) refl

    resolving_whole :
        (p : CapiProvider (ServerState W) G M)
        → times 3 (resolving, p)
          ≡ times 2 (
              after_resolving (
                with_error (unknown_target t) (
                  on_resolver library
                    (resolver api out tool network mcp cfg)
                    (resolve_target api out cfg t)
                    p)))
    unfolding advance
    resolving_whole p = refl

    -- Four parts are enough for every call, and with nothing between them they do what it does.
    pub manager_parts_are_whole :
        (p : CapiProvider (ServerState W) G M)
        → times 4 (asking, p)
          ≡ outcome (manager_for_target library (resolver api out tool network mcp cfg) t p)
    manager_parts_are_whole p = elim (Option-cases (lookup t p.managers)) [
      | inr (mgr, hit) ↦
          asking_hit mgr p hit
          ∙ ap outcome (sym (found library (resolver api out tool network mcp cfg) t mgr p hit))
      | inl miss ↦
          asking_miss p miss
          ∙ resolving_whole p
          ∙ resolved_whole (
              with_error (unknown_target t) (
                on_resolver library (resolver api out tool network mcp cfg)
                  (resolve_target api out cfg t) p))
          ∙ ap outcome (sym (not_found library (resolver api out tool network mcp cfg) t p miss))
    ]
