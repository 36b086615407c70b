-- ===== src/Server/Owner/Calls.antt =====
-- Calls of cachedKubeconfig in the parts between which the goroutines of other calls run: the look-up
-- in the cache, each call of a client or of the manager of tunnels, and the storing of the result.
pub mod Whole
pub mod Interleave
pub mod Sound
use capi_shell_mcp.Base.{
  ℕ, suc, zero, GoString, str_eq, List, [], ◌∷◌, ◌++◌, lookup, Option, none, some, Result, ok, err,
  bind, continue, lift, get_elem?, set, ◌≡◌, refl, arith, Option-cases, Result-cases, inl, inr,
}
use capi_shell_mcp.Cache
use capi_shell_mcp.Capi.Kube.{KubeApi, fetch_workload_kubeconfig}
use capi_shell_mcp.Config.{KubeconfigSource, AppConfig}
use capi_shell_mcp.Proxy.Process.{Manager}
use capi_shell_mcp.Server.{ServerState, Outside, CachedKubeconfig, on_world}
use capi_shell_mcp.Server.Kubeconfig.{
  use_cached, transform_of, proxy_for, sshuttle_host_of, store_kubeconfig, fetch_kubeconfig,
  cached_kubeconfig,
}
use capi_shell_mcp.Server.Kubeconfig.Caching.{key_of}

-- What a call has to do next.
pub data Stage (C : Type 0) : Type 0 where
  looking : Stage C
  using : CachedKubeconfig → Stage C
  opening : Stage C
  fetching : C → Stage C
  ensuring : C → GoString → Stage C
  storing : CachedKubeconfig → Stage C
  returned : Result GoString → Stage C

pub record Call (C : Type 0) : Type 0 where
  pub src : KubeconfigSource
  pub ctx : GoString
  pub ns : GoString
  pub n : GoString
  pub stage : Stage C

module _ {W C O : Type 0} (api : KubeApi W C O) (out : Outside W C) (cfg : AppConfig) where
  pub after : {A : Type 0} → Result A × ServerState W → (A → Stage C) → Stage C × ServerState W
  after (ok a, s) f = (f a, s)
  after (err e, s) f = (returned (err e), s)

  pub transformed : C → Result GoString → Stage C
  transformed client (ok kc) = ensuring client kc
  transformed client (err e) = returned (err e)

  module _ (src : KubeconfigSource) (ctx ns n : GoString) where
    unfoldable pub advance : Stage C → ServerState W → Stage C × ServerState W
    unfolding after transformed
    advance looking s =
        let (found, store) =
          Cache.get (key_of api out cfg src ctx ns n) (out.clock s.world) s.kubeconfig in
        elim found [ some c ↦ (using c, s) | none ↦ (opening, record s { kubeconfig = store }) ]
    advance (using c) s = let (r, s') = use_cached api out cfg c s in (returned r, s')
    advance opening s = after (on_world (out.clients_for_context src ctx) s) fetching
    advance (fetching client) s =
        after (on_world (fetch_workload_kubeconfig api client ns n) s)
          (λ fetched. transformed client (transform_of api out cfg fetched))
    advance (ensuring client kc) s =
        after (proxy_for api out cfg (sshuttle_host_of api out cfg src) client ns n s)
          (λ target. storing (record { kubeconfig = kc; proxy_target = target }))
    advance (storing c) s =
        let (r, s') = store_kubeconfig api out cfg (key_of api out cfg src ctx ns n) c s in
        (returned r, s')
    advance (returned r) s = (returned r, s)

    abbrev pub times : ℕ → Stage C × ServerState W → Stage C × ServerState W
    times zero x = x
    times (suc k) (stage, s) = times k (advance stage s)

    abbrev pub outcome : Result GoString × ServerState W → Stage C × ServerState W
    outcome (r, s) = (returned r, s)
