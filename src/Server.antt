-- ===== src/Server.antt =====
-- internal/server: the tools and what they share. `ServerState` is what the handlers of a
-- `ToolServer` read and write; its configuration is the parameter `cfg` of the functions.
pub mod Clusters
pub mod Kubeconfig
pub mod Tools
pub mod Execution
pub mod Kept
pub mod Tunnels
pub mod Build
pub mod Clients
pub mod Listed
pub mod Owner
pub mod Examples
use capi_shell_mcp.Base.{
  seconds, ℕ, ◌+◌, ◌*◌, GoString, lit, List, [], ◌∷◌, ◌++◌, Map, lookup, keys, str_eq, Option, none,
  some, Result, ok, err, if◌then◌else◌, is_empty, Exec, bind, pure, fail, lift, map, Bool, true,
  false, plain_about, GoError, leb, ltb, ◌||◌, ◌&&◌, nat_beq,
}
use capi_shell_mcp.Cache
use capi_shell_mcp.Cache.{TtlCache}
use capi_shell_mcp.Capi.Target.{CapiCluster, TargetParts, parse_target, format_target}
use capi_shell_mcp.Capi.Keys.{cluster_list_key, kubeconfig_key}
use capi_shell_mcp.Config.{
  KubeconfigSource, KubeconfigTransforms, AppConfig, CacheConfig, ℤ, pos, negsuc,
}
use capi_shell_mcp.Capi.Kube.{
  KubeApi, list_clusters_for_context, fetch_workload_kubeconfig, fetch_api_server_info,
}
use capi_shell_mcp.Shell.{Command, Executed}
use capi_shell_mcp.Proxy.Process.{Manager, StartOutcome}
use capi_shell_mcp.Proxy.Systemd.{ensure_proxy}

-- capi/store.go
pub record ProxyTarget : Type 0 where
  pub sshuttle_host : GoString
  pub api_server_ip : GoString
  pub api_server_port : GoString

pub record CachedKubeconfig : Type 0 where
  pub kubeconfig : GoString
  pub proxy_target : Option ProxyTarget

-- The two caches, with the TTL of each.
pub record Store : Type 0 where
  pub cluster_list : TtlCache GoString (List CapiCluster)
  pub kubeconfig : TtlCache GoString CachedKubeconfig

abbrev pub new_store : ℤ → ℤ → Store
new_store cluster_list_ttl kubeconfig_ttl = record {
  cluster_list = Cache.new cluster_list_ttl;
  kubeconfig = Cache.new kubeconfig_ttl;
}

pub record ServerState (W : Type 0) : Type 0 where
  pub cluster_list : TtlCache GoString (List CapiCluster)
  pub kubeconfig : TtlCache GoString CachedKubeconfig
  pub proxy_manager : Manager
  pub world : W

-- What the server is given from outside: clients, files, processes and the clock.
pub record Outside (W C : Type 0) : Type 0 where
  pub clock : W → ℕ
  pub clients_for_context : KubeconfigSource → GoString → Exec W C
  pub read_file : GoString → Exec W GoString
  -- clientcmd.Load, then the keys of the map of contexts.
  pub load_contexts : GoString → Result (List GoString)
  pub exec_file : Command → W → Executed × W
  pub is_under_systemd : W → Bool
  pub spawn_process : GoString → GoString → GoString → W → StartOutcome × W

abbrev pub on_world : {W A : Type 0} → Exec W A → Exec (ServerState W) A
on_world f s = let (r, w) = f s.world in (r, record s { world = w })

unfoldable pub kubeconfig_ttl : AppConfig → ℤ
kubeconfig_ttl cfg = seconds cfg.cache.kubeconfig_ttl_seconds
