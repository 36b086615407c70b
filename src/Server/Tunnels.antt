-- ===== src/Server/Tunnels.antt =====
-- What the tools do to the tunnels.
use capi_shell_mcp.Base.{
  ℕ, GoString, str_eq, lift, Preserves, bind-Preserves, Option-cases, Result-cases, Bool-cases, inl,
  inr, subst, sym, is_empty,
}
use capi_shell_mcp.Cache
use capi_shell_mcp.Config.{KubeconfigSource, AppConfig}
use capi_shell_mcp.Capi.Kube.{KubeApi, fetch_api_server_info, fetch_workload_kubeconfig}
use capi_shell_mcp.Capi.Keys.{kubeconfig_key}
use capi_shell_mcp.Proxy.Process.{Manager, StartOutcome, ensure_process_proxy}
use capi_shell_mcp.Proxy.Process.Invariant.{IsValid}
use capi_shell_mcp.Proxy.Process.Ensure.{ensure_process_proxy_deadline, ensure_process_proxy_fails}
use capi_shell_mcp.Proxy.Systemd.{ensure_proxy}
use capi_shell_mcp.Server.{ServerState, Outside, on_world, ProxyTarget, CachedKubeconfig}
use capi_shell_mcp.Server.Kept.{IsKept}
use capi_shell_mcp.Server.Kubeconfig.{
  call_ensure_proxy, use_cached, proxy_for, fetch_kubeconfig, store_kubeconfig, cached_kubeconfig,
  transform_of, sshuttle_host_of,
}

-- Tunnels and timers belong together one to one.
abbrev pub HasValidTunnels : {W : Type 0} → ServerState W → Type 0
HasValidTunnels s = IsValid s.proxy_manager

ensure_process_proxy-IsValid :
    {W : Type 0} (spawn : W → StartOutcome × W) (clock : W → ℕ) (k : GoString) (ttl : ℕ)
    (m : Manager) (w : W)
    → IsValid m
    → IsValid (ensure_process_proxy spawn clock k ttl m w).1
ensure_process_proxy-IsValid spawn clock k ttl m w v =
    elim (Result-cases (ensure_process_proxy spawn clock k ttl m w).0) [
      | inl (_, good) ↦ (ensure_process_proxy_deadline spawn clock m k ttl w k v good).0
      | inr (e, bad) ↦
          subst IsValid (sym (ensure_process_proxy_fails spawn clock m k ttl w e bad)) v
    ]

module _ {W C O : Type 0} (api : KubeApi W C O) (out : Outside W C) (cfg : AppConfig) where
  call_ensure_proxy-Preserves :
      (t : ProxyTarget) → Preserves HasValidTunnels (call_ensure_proxy api out cfg t)
  unfolding call_ensure_proxy ensure_proxy
  call_ensure_proxy-Preserves t s v = elim (Bool-cases (out.is_under_systemd s.world)) [
    | inl systemd ↦ rw systemd v
    | inr processes ↦ rw processes (ensure_process_proxy-IsValid _ _ _ _ _ _ v)
  ]

  use_cached-Preserves :
      (c : CachedKubeconfig) → Preserves HasValidTunnels (use_cached api out cfg c)
  unfolding use_cached
  use_cached-Preserves c = elim (Option-cases c.proxy_target) [
    | inl direct ↦ rw direct (λ s v. v)
    | inr (t, tunneled) ↦ rw tunneled (
        bind-Preserves HasValidTunnels (call_ensure_proxy api out cfg t) _
          (call_ensure_proxy-Preserves t) (λ _ s v. v))
  ]

  proxy_for-Preserves :
      (host : GoString) (client : C) (namespace name : GoString)
      → Preserves HasValidTunnels (proxy_for api out cfg host client namespace name)
  unfolding proxy_for
  proxy_for-Preserves host client namespace name = elim (Bool-cases (is_empty host)) [
    | inl no_host ↦ rw no_host (λ s v. v)
    | inr some_host ↦ rw some_host (
        bind-Preserves HasValidTunnels (on_world (fetch_api_server_info api client namespace name))
          _ (λ s v. v)
          λ info. elim (Option-cases info) [
            | inl nothing ↦ rw nothing (λ s v. v)
            | inr ((ip, port), found) ↦ rw found (
                bind-Preserves HasValidTunnels
                  (call_ensure_proxy api out cfg
                    (record { sshuttle_host = host; api_server_ip = ip; api_server_port = port }))
                  _ (call_ensure_proxy-Preserves _) (λ _ s v. v))
          ])
  ]

  fetch_kubeconfig-Preserves :
      (src : KubeconfigSource) (ctx namespace name : GoString)
      → Preserves HasValidTunnels (fetch_kubeconfig api out cfg src ctx namespace name)
  unfolding fetch_kubeconfig
  fetch_kubeconfig-Preserves src ctx namespace name =
      bind-Preserves HasValidTunnels (on_world (out.clients_for_context src ctx)) _ (λ s v. v)
        λ client.
          bind-Preserves HasValidTunnels
            (on_world (fetch_workload_kubeconfig api client namespace name)) _ (λ s v. v)
            λ fetched.
              bind-Preserves HasValidTunnels (lift (transform_of api out cfg fetched)) _ (λ s v. v)
                λ kc.
                  bind-Preserves HasValidTunnels
                    (proxy_for api out cfg (sshuttle_host_of api out cfg src) client namespace name)
                    _ (proxy_for-Preserves (sshuttle_host_of api out cfg src) client namespace name)
                    (λ _ s v. v)

  cached_kubeconfig-Preserves :
      (src : KubeconfigSource) (ctx namespace name : GoString)
      → Preserves HasValidTunnels (cached_kubeconfig api out cfg src ctx namespace name)
  unfolding cached_kubeconfig store_kubeconfig
  cached_kubeconfig-Preserves src ctx namespace name s v =
      let key = kubeconfig_key src.name ctx namespace name in
      let got = Cache.get key (out.clock s.world) s.kubeconfig in
      elim (Option-cases got.0) [
        | inr (cached, found) ↦ rw (found, cached_kubeconfig) (use_cached-Preserves cached s v)
        | inl missing ↦
            rw (missing, cached_kubeconfig)
              (bind-Preserves HasValidTunnels (fetch_kubeconfig api out cfg src ctx namespace name)
                (store_kubeconfig api out cfg key)
                (fetch_kubeconfig-Preserves src ctx namespace name) (λ _ t u. u)
                (record s { kubeconfig = got.1 }) v)
      ]

  -- Tunnels and timers stay together in whatever keeps the manager as it is.
  pub HasValidTunnels-IsKept : IsKept api out cfg HasValidTunnels
  HasValidTunnels-IsKept = record {
    world = λ s w v. v;
    listed = λ s lists v. v;
    fetched = λ name src ctx ns n known. cached_kubeconfig-Preserves src ctx ns n;
  }
