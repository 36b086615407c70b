-- ===== src/Server/Owner.antt =====
-- Whose kubeconfigs the cache of internal/server/kubeconfig.go holds.
pub mod Access
pub mod Execution
pub mod Kept
pub mod Handed
pub mod Calls
pub mod Examples
use capi_shell_mcp.Base.{
  ℕ, add_duration, GoString, lit, str_eq, str_beq, str_beq_iff, Lacks, All, lookup, lookup-insert,
  lookup-delete, Option, none, some, Result, ok, err, List, [], ◌∷◌, ◌++◌, map, bind, lift,
  continue, continue-eq-ok, succeeded_with, with_error-eq-ok, Option-cases, Result-cases,
  Bool-cases, inl, inr, subst, sym, ap, if◌then◌else◌, ◌+◌, ◌≡◌, ◌∙◌, refl, arith,
}
use capi_shell_mcp.Cache
use capi_shell_mcp.Cache.{TtlCache, Entry}
use capi_shell_mcp.Cache.Laws.{read}
use capi_shell_mcp.Capi.Keys.{colon, kubeconfig_key, kubeconfig_key-injective}
use capi_shell_mcp.Capi.Kube.{KubeApi, fetch_workload_kubeconfig}
use capi_shell_mcp.Config.{KubeconfigSource, AppConfig}
use capi_shell_mcp.Config.Load.Laws.{IsNamed}
use capi_shell_mcp.Server.{ServerState, Outside, on_world, CachedKubeconfig}
use capi_shell_mcp.Server.Kubeconfig.{
  transform_of, proxy_for, sshuttle_host_of, use_cached, store_kubeconfig, fetch_kubeconfig,
  cached_kubeconfig,
}
use capi_shell_mcp.Server.Kubeconfig.Caching.{
  key_of, looked_up, cached_miss, cached_hit, fetch_keeps, use_cached_keeps,
}

-- The names of namespaces and of objects in Kubernetes have no colon in them, so that no secret is
-- found under others.
abbrev pub NamesHaveNoColon : {W C O : Type 0} → KubeApi W C O → Type 0
NamesHaveNoColon {W} {C} api =
    (client : C) (ns n : GoString) (w : W) (secret : List (GoString × GoString))
    → (api.get_secret client ns n w).0 ≡ ok secret
    → Lacks colon ns × Lacks colon n

-- Every kubeconfig has the name under which it is configured, and there is no colon in it.
pub record HasPlainNames (cfg : AppConfig) : Type 0 where
  pub named : IsNamed cfg.kubeconfigs
  pub plain :
      (n : GoString) (src : KubeconfigSource) → lookup n cfg.kubeconfigs ≡ some src → Lacks colon n

Lacks-front : (p q : GoString) → Lacks colon (p ++ q) → Lacks colon p
Lacks-front [] q h = tt
Lacks-front (c ∷ p) q h = (h.0, Lacks-front p q h.1)

module _ {W C O : Type 0} (api : KubeApi W C O) (out : Outside W C) (cfg : AppConfig) where
  -- The text is what the server makes of a kubeconfig that was in the secret of that cluster, read by
  -- a client for that source and context.
  pub record IsOf (src : KubeconfigSource) (ctx ns n kc : GoString) : Type 0 where
    pub client : C
    pub opened_at : W
    pub opened : (out.clients_for_context src ctx opened_at).0 ≡ ok client
    pub fetched : GoString
    pub fetched_at : W
    pub was_fetched : (fetch_workload_kubeconfig api client ns n fetched_at).0 ≡ ok fetched
    pub transformed : transform_of api out cfg fetched ≡ ok kc

  pub fetch_workload-plain :
      NamesHaveNoColon api
      → (client : C) (ns n fetched : GoString) (w : W)
      → (fetch_workload_kubeconfig api client ns n w).0 ≡ ok fetched
      → Lacks colon ns × Lacks colon n
  unfolding fetch_workload_kubeconfig
  fetch_workload-plain no_colon client ns n fetched w h =
      elim (Result-cases (api.get_secret client ns (n ++ lit "-kubeconfig") w).0) [
        | inl (secret, found) ↦
            let (first, second) = no_colon client ns (n ++ lit "-kubeconfig") w secret found in
            (first, Lacks-front n (lit "-kubeconfig") second)
        | inr (e, bad) ↦ absurd (ground arith)
      ]

  pub fetch_kubeconfig-IsOf :
      NamesHaveNoColon api
      → (src : KubeconfigSource) (ctx ns n : GoString) (c : CachedKubeconfig) (s s' : ServerState W)
      → fetch_kubeconfig api out cfg src ctx ns n s ≡ (ok c, s')
      → IsOf src ctx ns n c.kubeconfig × Lacks colon ns × Lacks colon n
  unfolding fetch_kubeconfig
  fetch_kubeconfig-IsOf no_colon src ctx ns n c s s' h =
      let (client, opened, h1) =
        continue-eq-ok (on_world (out.clients_for_context src ctx) s) _ h in
      let s1 = (on_world (out.clients_for_context src ctx) s).1 in
      let (fetched, got, h2) =
        continue-eq-ok (on_world (fetch_workload_kubeconfig api client ns n) s1) _ h1 in
      let s2 = (on_world (fetch_workload_kubeconfig api client ns n) s1).1 in
      let (kc, made, h3) = continue-eq-ok (transform_of api out cfg fetched, s2) _ h2 in
      let (target, _, h4) =
        continue-eq-ok (proxy_for api out cfg (sshuttle_host_of api out cfg src) client ns n s2) _
          h3 in
      let same : kc ≡ c.kubeconfig = ground arith in
      (
        record {
          client = client;
          opened_at = s.world;
          opened = opened;
          fetched = fetched;
          fetched_at = s1.world;
          was_fetched = got;
          transformed = made ∙ ap ok same;
        },
        (fetch_workload-plain no_colon client ns n fetched s1.world got).0,
        (fetch_workload-plain no_colon client ns n fetched s1.world got).1,
      )

  -- An entry of the cache: it is of some cluster of the configuration, and stands under its key.
  pub record IsOwned (key kc : GoString) : Type 0 where
    pub src : KubeconfigSource
    pub ctx : GoString
    pub ns : GoString
    pub n : GoString
    pub is_key : key ≡ key_of api out cfg src ctx ns n
    pub configured : lookup src.name cfg.kubeconfigs ≡ some src
    pub plain_ns : Lacks colon ns
    pub plain_n : Lacks colon n
    pub is_of : IsOf src ctx ns n kc

  abbrev pub AreOwned : TtlCache GoString CachedKubeconfig → Type 0
  AreOwned cache =
      (key : GoString) (e : Entry CachedKubeconfig)
      → lookup key cache.store ≡ some e
      → IsOwned key e.value.kubeconfig

  pub get-AreOwned :
      (k : GoString) (now : ℕ) (cache : TtlCache GoString CachedKubeconfig)
      → AreOwned cache
      → AreOwned (Cache.get k now cache).1
  unfolding Cache.get
  get-AreOwned k now cache v key e there =
      v key e (ground (arith, there, lookup-delete k key cache.store))

  pub set-AreOwned :
      (k : GoString) (c : CachedKubeconfig) (now : ℕ) (cache : TtlCache GoString CachedKubeconfig)
      → AreOwned cache
      → IsOwned k c.kubeconfig
      → AreOwned (Cache.set k c now cache)
  unfolding Cache.set
  set-AreOwned k c now cache v own key e there =
      let stored : Entry CachedKubeconfig = record {
        value = c;
        expires_at = add_duration now cache.ttl;
      } in
      elim (Bool-cases (str_beq k key)) [
        | inl equal ↦
            let same : k ≡ key = (str_beq_iff k key).0 equal in
            let is_it : c.kubeconfig ≡ e.value.kubeconfig =
              ground (arith, there, equal, lookup-insert k key stored cache.store) in
            subst (λ (x : GoString). IsOwned x e.value.kubeconfig) same
              (subst (IsOwned k) is_it own)
        | inr other ↦ v key e (ground (arith, there, other, lookup-insert k key stored cache.store))
      ]

  pub found-IsOwned :
      (k : GoString) (now : ℕ) (cache : TtlCache GoString CachedKubeconfig) (c : CachedKubeconfig)
      → AreOwned cache
      → read k now cache ≡ some c
      → IsOwned k c.kubeconfig
  unfolding Cache.get
  found-IsOwned k now cache c v found = elim (Option-cases (lookup k cache.store)) [
    | inl missing ↦ absurd (ground arith)
    | inr (e, there) ↦
        let same : e.value.kubeconfig ≡ c.kubeconfig = ground arith in
        subst (IsOwned k) same (v k e there)
  ]

  abbrev pub OwnsCache : ServerState W → Type 0
  OwnsCache s = AreOwned s.kubeconfig
