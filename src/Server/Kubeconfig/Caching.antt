-- ===== src/Server/Kubeconfig/Caching.antt =====
-- What the cache of kubeconfigs promises.
use capi_shell_mcp.Base.{
  add_duration, ℕ, GoString, str_eq, Option, none, some, Result, ok, err, if◌then◌else◌, bind, lift,
  continue, GoError, leb, ◌≡◌, refl, ◌≤◌, arith, ◌≡◌, inl, inr, Option-cases, str_beq, sym, ap, ◌∙◌,
  bind-keeps, continue-eq-ok,
}
use capi_shell_mcp.Cache
use capi_shell_mcp.Cache.{TtlCache}
use capi_shell_mcp.Cache.Laws.{read, read-set, read-get, ttl-get}
use capi_shell_mcp.Capi.Keys.{kubeconfig_key}
use capi_shell_mcp.Config.{KubeconfigSource, AppConfig}
use capi_shell_mcp.Capi.Kube.{KubeApi, fetch_workload_kubeconfig}
use capi_shell_mcp.Server.{ServerState, Outside, on_world, ProxyTarget, CachedKubeconfig}
use capi_shell_mcp.Server.Kubeconfig.{
  call_ensure_proxy, sshuttle_host_of, use_cached, transform_of, proxy_for, store_kubeconfig,
  fetch_kubeconfig, cached_kubeconfig,
}

module _ {W C O : Type 0} (api : KubeApi W C O) (out : Outside W C) (cfg : AppConfig) where
  ensure_keeps :
      (t : ProxyTarget) (s : ServerState W)
      → (call_ensure_proxy api out cfg t s).1.kubeconfig ≡ s.kubeconfig
  unfolding call_ensure_proxy
  ensure_keeps t s = refl

  pub use_cached_keeps :
      (c : CachedKubeconfig) (s : ServerState W)
      → (use_cached api out cfg c s).1.kubeconfig ≡ s.kubeconfig
  unfolding use_cached call_ensure_proxy
  use_cached_keeps c s = ground arith

  pub proxy_for_keeps :
      (host : GoString) (client : C) (ns n : GoString) (s : ServerState W)
      → (proxy_for api out cfg host client ns n s).1.kubeconfig ≡ s.kubeconfig
  unfolding proxy_for call_ensure_proxy
  proxy_for_keeps host client ns n s = ground arith

  pub fetch_keeps :
      (src : KubeconfigSource) (ctx ns n : GoString) (s : ServerState W)
      → (fetch_kubeconfig api out cfg src ctx ns n s).1.kubeconfig ≡ s.kubeconfig
  unfolding fetch_kubeconfig
  fetch_keeps src ctx ns n s =
      bind-keeps part (on_world (out.clients_for_context src ctx)) _ s refl λ client t.
        bind-keeps part (on_world (fetch_workload_kubeconfig api client ns n)) _ t refl λ fetched u.
          bind-keeps part (lift (transform_of api out cfg fetched)) _ u refl λ kc v.
            bind-keeps part (proxy_for api out cfg (sshuttle_host_of api out cfg src) client ns n) _
              v (proxy_for_keeps (sshuttle_host_of api out cfg src) client ns n v) λ target x. refl
    where
      part : ServerState W → TtlCache GoString CachedKubeconfig
      part s = s.kubeconfig

  abbrev pub key_of : KubeconfigSource → GoString → GoString → GoString → GoString
  key_of src ctx ns n = kubeconfig_key src.name ctx ns n

  -- The state after the look-up of a key, an expired entry of it deleted.
  abbrev pub looked_up : GoString → ServerState W → ServerState W
  looked_up key s = record s { kubeconfig = (Cache.get key (out.clock s.world) s.kubeconfig).1 }

  pub cached_miss :
      (src : KubeconfigSource) (ctx ns n : GoString) (s : ServerState W)
      → read (key_of src ctx ns n) (out.clock s.world) s.kubeconfig ≡ none
      → cached_kubeconfig api out cfg src ctx ns n s
        ≡ bind
            (fetch_kubeconfig api out cfg src ctx ns n)
            (store_kubeconfig api out cfg (key_of src ctx ns n))
            (looked_up (key_of src ctx ns n) s)
  unfolding cached_kubeconfig
  cached_miss src ctx ns n s miss = rw (miss, cached_kubeconfig)

  pub cached_hit :
      (src : KubeconfigSource) (ctx ns n : GoString) (s : ServerState W) (c : CachedKubeconfig)
      → read (key_of src ctx ns n) (out.clock s.world) s.kubeconfig ≡ some c
      → cached_kubeconfig api out cfg src ctx ns n s ≡ use_cached api out cfg c s
  unfolding cached_kubeconfig
  cached_hit src ctx ns n s c hit = rw (hit, cached_kubeconfig)

  pub stored_read :
      (key j : GoString) (now : ℕ) (c : CachedKubeconfig) (u t : ServerState W) (kc : GoString)
      (s : ServerState W)
      → store_kubeconfig api out cfg key c u ≡ (ok kc, t)
      → u.kubeconfig ≡ (looked_up key s).kubeconfig
      → out.clock s.world ≤ now
      → read j now t.kubeconfig ≡ (
          if str_beq key j
          then (if leb now (add_duration (out.clock t.world) s.kubeconfig.ttl)
              then some (record { kubeconfig = kc; proxy_target = c.proxy_target })
              else none)
          else read j now s.kubeconfig)
  unfolding store_kubeconfig
  stored_read key j now c u t kc s stored kept later =
      let looked = (looked_up key s).kubeconfig in
      let set_there : t.kubeconfig ≡ Cache.set key c (out.clock t.world) looked = ground arith in
      let same : c.kubeconfig ≡ kc = ground arith in
      rw set_there (
        ground (
          arith,
          read-set key j c (out.clock t.world) now looked,
          same,
          read-get key j (out.clock s.world) now s.kubeconfig later,
          ttl-get key (out.clock s.world) s.kubeconfig,
        ))

  -- A miss that succeeds has stored its result at the time of its end: every read of the key, from
  -- the start of the call up to the TTL after its end, returns it, later reads return nothing, and
  -- the reads of the other keys are as they were.
  pub cached_kubeconfig_stores :
      (src : KubeconfigSource) (ctx ns n kc : GoString) (s t : ServerState W) (j : GoString)
      (now : ℕ)
      → read (key_of src ctx ns n) (out.clock s.world) s.kubeconfig ≡ none
      → out.clock s.world ≤ now
      → cached_kubeconfig api out cfg src ctx ns n s ≡ (ok kc, t)
      → (target : Option ProxyTarget) × (read j now t.kubeconfig ≡ (
          if str_beq (key_of src ctx ns n) j
          then (if leb now (add_duration (out.clock t.world) s.kubeconfig.ttl)
              then some (record { kubeconfig = kc; proxy_target = target })
              else none)
          else read j now s.kubeconfig))
  cached_kubeconfig_stores src ctx ns n kc s t j now miss later h =
      let key = key_of src ctx ns n in
      let s0 = looked_up key s in
      let (c, fetched, stored) =
        continue-eq-ok (fetch_kubeconfig api out cfg src ctx ns n s0)
          (store_kubeconfig api out cfg key) (sym (cached_miss src ctx ns n s miss) ∙ h) in
      let u = (fetch_kubeconfig api out cfg src ctx ns n s0).1 in
      (c.proxy_target, stored_read key j now c u t kc s stored (fetch_keeps src ctx ns n s0) later)

  store_fails :
      (key : GoString) (e : GoError) (r : Result CachedKubeconfig × ServerState W)
      → (continue r (store_kubeconfig api out cfg key)).0 ≡ err e
      → (continue r (store_kubeconfig api out cfg key)).1 ≡ r.1
  unfolding store_kubeconfig
  store_fails key e (ok c, u) h = absurd (cc)
  store_fails key e (err x, u) h = refl

  -- A call that fails caches nothing: the reads of every key at its start or later are as they
  -- were.
  pub cached_kubeconfig_fails :
      (src : KubeconfigSource) (ctx ns n : GoString) (e : GoError) (s : ServerState W)
      (j : GoString) (now : ℕ)
      → out.clock s.world ≤ now
      → (cached_kubeconfig api out cfg src ctx ns n s).0 ≡ err e
      → read j now (cached_kubeconfig api out cfg src ctx ns n s).1.kubeconfig
        ≡ read j now s.kubeconfig
  cached_kubeconfig_fails src ctx ns n e s j now later h =
      elim (Option-cases (read (key_of src ctx ns n) (out.clock s.world) s.kubeconfig)) [
        | inl miss ↦ rw (cached_miss src ctx ns n s miss) (
            ap (λ (x : TtlCache GoString CachedKubeconfig). read j now x)
              (ap (λ (x : ServerState W). x.kubeconfig)
                  (store_fails (key_of src ctx ns n) e
                    (fetch_kubeconfig api out cfg src ctx ns n (looked_up (key_of src ctx ns n) s))
                    (ap (λ (x : Result GoString × ServerState W). x.0)
                        (sym (cached_miss src ctx ns n s miss))
                      ∙ h))
                ∙ fetch_keeps src ctx ns n (looked_up (key_of src ctx ns n) s))
            ∙ read-get (key_of src ctx ns n) j (out.clock s.world) now s.kubeconfig later)
        | inr (c, hit) ↦
            rw (cached_hit src ctx ns n s c hit)
              (ap (λ (x : TtlCache GoString CachedKubeconfig). read j now x) (use_cached_keeps c s))
      ]
