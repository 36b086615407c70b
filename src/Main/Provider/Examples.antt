-- ===== src/Main/Provider/Examples.antt =====
-- Instances for the managers of embedded tools. A manager is a number.
use capi_shell_mcp.Base.{
  ℕ, ◌+◌, GoString, List, [], ◌∷◌, lookup, insert, delete, contains, split, str_eq, nat_eq, some,
  get_elem?, ok, ◌≡◌, refl, add_duration, seconds,
}
use capi_shell_mcp.Cache
use capi_shell_mcp.Capi.Kube.{fetch_workload_kubeconfig}
use capi_shell_mcp.Capi.Target.{parse_target}
use capi_shell_mcp.Capi.Keys.{kubeconfig_key}
use capi_shell_mcp.Server.{kubeconfig_ttl}
use capi_shell_mcp.Server.Examples.{out, tool, cfg, full, full_parts, full_accepted}
use capi_shell_mcp.Server.Kubeconfig.{
  cached_kubeconfig, fetch_kubeconfig, resolve_target, use_cached, transform_of, proxy_for,
  store_kubeconfig,
}
use capi_shell_mcp.Server.Owner.Examples.{
  strict_api, strict_api-no_colon, cfg-HasPlainNames, plain_namespace, plain_name,
}
use capi_shell_mcp.Embed.Provider.{
  Library, new_capi_provider, build_manager, publish_kubernetes_config, reload_config,
  store_manager, on_all,
}
use capi_shell_mcp.Main.{new_tool_server}
use capi_shell_mcp.Main.Examples.{network, mcp}
use capi_shell_mcp.Main.Provider.{publishes, reloads, use_provider}
use capi_shell_mcp.Main.Provider.Calls.{
  Happening, arrives, continues, uses, ManagerCall, given, advance, run_all,
}
use capi_shell_mcp.Main.Provider.Owner.{IsFor}
use capi_shell_mcp.Main.Provider.Owner.Parts.{managers_of_own_clusters}

abbrev library : Library GoString ℕ ℕ
library = record {
  load = λ kc. ok kc;
  client_config = λ raw. ok raw;
  new_manager = λ settings rest. ok (settings + 1);
  set_config = λ settings mgr. mgr + settings;
  close = λ mgr. mgr;
}

-- Two calls for the same target, of which each makes a manager.
abbrev crossed : List (Happening ℕ ℕ)
crossed =
    arrives full
    ∷ arrives full
    ∷ continues 0
    ∷ continues 1
    ∷ continues 0
    ∷ continues 1
    ∷ continues 0
    ∷ continues 0
    ∷ uses (publishes 9)
    ∷ uses (reloads (some 7))
    ∷ continues 1
    ∷ continues 1
    ∷ []

abbrev second_call : ManagerCall ℕ
second_call = record { target = full; stage = given (ok 8) }

second_given :
    get_elem?
      (run_all strict_api out tool network mcp cfg library crossed
        (record { provider = new_capi_provider (new_tool_server cfg 5) 4; calls = [] })).calls
      1
    ≡ some second_call
unfolding run_all advance use_provider publish_kubernetes_config reload_config on_all store_manager
    resolve_target new_capi_provider new_tool_server cached_kubeconfig fetch_kubeconfig Cache.get
    Cache.set Cache.new use_cached transform_of proxy_for store_kubeconfig fetch_workload_kubeconfig
    lookup insert delete contains parse_target split kubeconfig_key kubeconfig_ttl build_manager
    add_duration seconds
second_given = refl

managers_of_own_clusters_example : IsFor strict_api out tool network mcp cfg library full_parts 8
managers_of_own_clusters_example =
    managers_of_own_clusters strict_api out tool network mcp cfg library strict_api-no_colon
      cfg-HasPlainNames crossed 4 5 1 second_call full_parts 8 second_given refl full_accepted
      plain_namespace plain_name
