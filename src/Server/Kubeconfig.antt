-- ===== src/Server/Kubeconfig.antt =====
-- internal/server/kubeconfig.go, and ResolveTarget of target.go.
pub mod Caching
pub mod Repeat
use capi_shell_mcp.Base.{
  ℕ, ◌+◌, ◌*◌, GoString, lit, List, [], ◌∷◌, ◌++◌, Map, lookup, keys, str_eq, Option, none, some,
  Result, ok, err, if◌then◌else◌, is_empty, Exec, bind, pure, fail, lift, continue, map, Bool, true,
  false, plain_about, GoError, leb, ltb, ◌||◌, ◌&&◌, nat_beq, ◌≡◌, ◌≢◌, refl, ◌≤◌, arith, ◌≡◌,
  Bool-cases, inl, inr, Option-cases, Result-cases, str_beq, str_beq_iff, ◌↔◌, ◌⊎◌, sym, ap, ◌∙◌,
}
use capi_shell_mcp.Cache
use capi_shell_mcp.Cache.{TtlCache}
use capi_shell_mcp.Cache.Laws.{read, read-set, read-get}
use capi_shell_mcp.Capi.Target.{CapiCluster, TargetParts, parse_target, format_target}
use capi_shell_mcp.Capi.Keys.{cluster_list_key, kubeconfig_key}
use capi_shell_mcp.Config.{
  KubeconfigSource, KubeconfigTransforms, AppConfig, CacheConfig, ℤ, pos, negsuc,
}
use capi_shell_mcp.Capi.Jq.{apply_kubeconfig_transform}
use capi_shell_mcp.Capi.Kube.{
  KubeApi, list_clusters_for_context, fetch_workload_kubeconfig, fetch_api_server_info, none_of,
}
use capi_shell_mcp.Shell.{Command, Executed}
use capi_shell_mcp.Proxy.Process.{Manager, StartOutcome}
use capi_shell_mcp.Proxy.Systemd.{ensure_proxy}
use capi_shell_mcp.Server.{
  ServerState, Outside, on_world, ProxyTarget, CachedKubeconfig, kubeconfig_ttl,
}

module _ {W C O : Type 0} (api : KubeApi W C O) (out : Outside W C) (cfg : AppConfig) where
  unfoldable pub call_ensure_proxy : ProxyTarget → Exec (ServerState W) (Unit {0})
  call_ensure_proxy t s =
      let (r, m, w) =
        ensure_proxy out.exec_file out.is_under_systemd out.spawn_process out.clock t.api_server_ip
          t.api_server_port t.sshuttle_host (kubeconfig_ttl cfg) s.proxy_manager s.world in
      (r, record s { proxy_manager = m; world = w })

  abbrev pub sshuttle_host_of : KubeconfigSource → GoString
  sshuttle_host_of src = if is_empty src.sshuttle_host then cfg.sshuttle_host else src.sshuttle_host

  -- A cache hit: the tunnel that the kubeconfig needs is ensured once more.
  unfoldable pub use_cached : CachedKubeconfig → Exec (ServerState W) GoString
  use_cached cached = elim cached.proxy_target [
    | none ↦ pure cached.kubeconfig
    | some t ↦ bind (call_ensure_proxy t) λ _. pure cached.kubeconfig
  ]

  unfoldable pub transform_of : GoString → Result GoString
  transform_of kc = elim cfg.transforms [
    | none ↦ ok kc
    | some t ↦ apply_kubeconfig_transform api.jq kc t
  ]

  -- On a miss: the tunnel, if a host is configured and the API server is restricted.
  unfoldable pub proxy_for :
      GoString → C → GoString → GoString → Exec (ServerState W) (Option ProxyTarget)
  proxy_for host client namespace cluster_name =
      if is_empty host
      then pure none
      else bind (on_world (fetch_api_server_info api client namespace cluster_name)) λ info.
        elim info [
          | none ↦ pure none
          | some (ip, port) ↦
              let t : ProxyTarget = record {
                sshuttle_host = host;
                api_server_ip = ip;
                api_server_port = port;
              } in
              bind (call_ensure_proxy t) λ _. pure (some t)
        ]

  unfoldable pub store_kubeconfig : GoString → CachedKubeconfig → Exec (ServerState W) GoString
  store_kubeconfig key c s =
      (ok c.kubeconfig, record s { kubeconfig = Cache.set key c (out.clock s.world) s.kubeconfig })

  unfoldable pub fetch_kubeconfig :
      KubeconfigSource → GoString → GoString → GoString → Exec (ServerState W) CachedKubeconfig
  fetch_kubeconfig src context_name namespace cluster_name =
      bind (on_world (out.clients_for_context src context_name)) λ client.
        bind (on_world (fetch_workload_kubeconfig api client namespace cluster_name)) λ fetched.
          bind (lift (transform_of fetched)) λ kc.
            bind (proxy_for (sshuttle_host_of src) client namespace cluster_name)
              λ target. pure (record { kubeconfig = kc; proxy_target = target })

  unfoldable pub cached_kubeconfig :
      KubeconfigSource → GoString → GoString → GoString → Exec (ServerState W) GoString
  cached_kubeconfig src context_name namespace cluster_name s =
      let key = kubeconfig_key src.name context_name namespace cluster_name in
      let (found, store) = Cache.get key (out.clock s.world) s.kubeconfig in
      elim found [
        | some cached ↦ use_cached cached s
        | none ↦
            bind (fetch_kubeconfig src context_name namespace cluster_name) (store_kubeconfig key)
              (record s { kubeconfig = store })
      ]

  unfoldable pub resolve_target : GoString → Exec (ServerState W) GoString
  resolve_target target = bind (lift (parse_target target)) λ p.
      elim (lookup p.kubeconfig_name cfg.kubeconfigs) [
        | none ↦ fail (plain_about (lit "unknown kubeconfig: ") p.kubeconfig_name)
        | some src ↦ cached_kubeconfig src p.context p.namespace p.name
      ]
