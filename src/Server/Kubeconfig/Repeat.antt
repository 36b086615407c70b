-- ===== src/Server/Kubeconfig/Repeat.antt =====
-- A second call for a cluster without a tunnel.
use capi_shell_mcp.Base.{
  add_duration, ◌≤◌, GoString, str_eq, str_beq_iff, none, some, ok, is_empty, continue-eq-ok, true,
  ◌≡◌, sym, ◌∙◌, arith,
}
use capi_shell_mcp.Cache.Laws.{read}
use capi_shell_mcp.Config.{AppConfig, KubeconfigSource}
use capi_shell_mcp.Capi.Kube.{KubeApi, fetch_workload_kubeconfig}
use capi_shell_mcp.Server.{ServerState, Outside, CachedKubeconfig, on_world}
use capi_shell_mcp.Server.Kubeconfig.{
  sshuttle_host_of, use_cached, transform_of, proxy_for, store_kubeconfig, fetch_kubeconfig,
  cached_kubeconfig,
}
use capi_shell_mcp.Server.Kubeconfig.Caching.{
  key_of, looked_up, cached_miss, cached_hit, stored_read, fetch_keeps,
}

module _ {W C O : Type 0} (api : KubeApi W C O) (out : Outside W C) (cfg : AppConfig)
    (src : KubeconfigSource) (ctx ns n : GoString)
    (direct : is_empty (sshuttle_host_of api out cfg src) ≡ true) where
  proxy_direct :
      (client : C) (s : ServerState W)
      → proxy_for api out cfg (sshuttle_host_of api out cfg src) client ns n s ≡ (ok none, s)
  unfolding proxy_for
  proxy_direct client s = rw (direct, proxy_for)

  fetch_direct :
      (c : CachedKubeconfig) (s u : ServerState W)
      → fetch_kubeconfig api out cfg src ctx ns n s ≡ (ok c, u)
      → c.proxy_target ≡ none
  unfolding fetch_kubeconfig
  fetch_direct c s u h =
      let (client, _, h1) = continue-eq-ok (on_world (out.clients_for_context src ctx) s) _ h in
      let s1 = (on_world (out.clients_for_context src ctx) s).1 in
      let (fetched, _, h2) =
        continue-eq-ok (on_world (fetch_workload_kubeconfig api client ns n) s1) _ h1 in
      let s2 = (on_world (fetch_workload_kubeconfig api client ns n) s1).1 in
      let (kc, _, h3) = continue-eq-ok (transform_of api out cfg fetched, s2) _ h2 in
      let (target, found, h4) =
        continue-eq-ok (proxy_for api out cfg (sshuttle_host_of api out cfg src) client ns n s2) _
          h3 in
      let nothing = proxy_direct client s2 in ground arith

  -- If no sshuttle host is configured, a call after a successful miss, not earlier than the start of
  -- that one and at most the TTL after its end, returns the same kubeconfig without a fetch: it
  -- leaves everything as it is.
  pub cached_kubeconfig_again :
      (kc : GoString) (s t u : ServerState W)
      → read (key_of api out cfg src ctx ns n) (out.clock s.world) s.kubeconfig ≡ none
      → cached_kubeconfig api out cfg src ctx ns n s ≡ (ok kc, t)
      → u.kubeconfig ≡ t.kubeconfig
      → out.clock s.world ≤ out.clock u.world
      → out.clock u.world ≤ add_duration (out.clock t.world) s.kubeconfig.ttl
      → cached_kubeconfig api out cfg src ctx ns n u ≡ (ok kc, u)
  unfolding use_cached
  cached_kubeconfig_again kc s t u miss h same later within =
      let key = key_of api out cfg src ctx ns n in
      let s0 = looked_up api out cfg key s in
      let (c, fetched, stored) =
        continue-eq-ok (fetch_kubeconfig api out cfg src ctx ns n s0)
          (store_kubeconfig api out cfg key)
          (sym (cached_miss api out cfg src ctx ns n s miss) ∙ h) in
      let v = (fetch_kubeconfig api out cfg src ctx ns n s0).1 in
      let kept =
        stored_read api out cfg key key (out.clock u.world) c v t kc s stored
          (fetch_keeps api out cfg src ctx ns n s0) later in
      let none_needed = fetch_direct c s0 v (ground arith) in
      let hit : read key (out.clock u.world) u.kubeconfig
          ≡ some (record { kubeconfig = kc; proxy_target = none }) =
        ground (arith, kept, none_needed, same, str_beq_iff key key) in
      cached_hit api out cfg src ctx ns n u (record { kubeconfig = kc; proxy_target = none }) hit
