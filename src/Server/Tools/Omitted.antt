-- ===== src/Server/Tools/Omitted.antt =====
-- What the tools that return kubeconfigs do with an omitted list of clusters.
use capi_shell_mcp.Base.{ℕ, List, [], str_eq, none, ok, Bool, false, ◌≡◌, refl, arith}
use capi_shell_mcp.Config.{AppConfig}
use capi_shell_mcp.Capi.Kube.{KubeApi}
use capi_shell_mcp.Server.{ServerState, Outside}
use capi_shell_mcp.Base.{fan_out-nil}
use capi_shell_mcp.Capi.Resolve.{resolve_cluster_patterns}
use capi_shell_mcp.Server.Clusters.{all_known_clusters}
use capi_shell_mcp.Capi.Resolve.{gather, parse_all, needs_expansion, resolve_parsed}
use capi_shell_mcp.Server.Tools.{
  kubeconfigs, ToolOutside, any_kubeconfig_error, kubeconfig_task, get_cluster_kubeconfig_fan_out,
}

module _ {W C O : Type 0} (api : KubeApi W C O) (out : Outside W C) (tool : ToolOutside W)
    (cfg : AppConfig) where
  resolve_nothing :
      (s : ServerState W)
      → resolve_cluster_patterns [] (all_known_clusters api out cfg) false s ≡ (ok [], s)
  unfolding resolve_cluster_patterns parse_all needs_expansion resolve_parsed gather
  resolve_nothing s = refl

  -- Without patterns the two tools that return kubeconfigs select no cluster: the result is empty
  -- and no error, and nothing is read, listed or changed.
  pub get_cluster_kubeconfig_omitted :
      (readonly : Bool) (order : List ℕ) (s : ServerState W)
      → get_cluster_kubeconfig_fan_out api out tool cfg [] readonly order s
        ≡ (ok (record { text = kubeconfigs []; is_error = false }), s)
  unfolding get_cluster_kubeconfig_fan_out any_kubeconfig_error
  get_cluster_kubeconfig_omitted readonly order s = ground (
    arith,
    resolve_nothing s,
    fan_out-nil (record { cluster = []; kubeconfig = []; error = none })
        (kubeconfig_task api out tool cfg readonly) order s,
  )
