-- ===== src/Server/Build.antt =====
-- internal/server/build.go and types.go: the tools that `BuildServer` registers, as the calls that the
-- MCP package makes once it has decoded the input of a tool.
pub mod Kept
use capi_shell_mcp.Base.{ℕ, GoString, lit, List, Exec}
use capi_shell_mcp.Config.{AppConfig}
use capi_shell_mcp.Capi.Kube.{KubeApi}
use capi_shell_mcp.Server.{ServerState, Outside}
use capi_shell_mcp.Server.Tools.{
  ToolOutside, ToolResult, list_clusters, get_cluster_kubeconfig, get_cluster_kubeconfig_readonly,
}
use capi_shell_mcp.Server.Execution.{exec_in_cluster, exec_in_cluster_readonly}

-- An omitted list is the empty one, as it is in Go.
pub record ClusterFilterInput : Type 0 where
  pub clusters : List GoString

pub record ExecInput : Type 0 where
  pub clusters : List GoString
  pub command : List GoString
  pub stdin : GoString

pub data ToolCall : Type 0 where
  call_list_clusters call_get_cluster_kubeconfig call_get_cluster_kubeconfig_readonly :
      ClusterFilterInput → ToolCall
  call_exec_in_cluster call_exec_in_cluster_readonly : ExecInput → ToolCall

module _ {W C O : Type 0} (api : KubeApi W C O) (out : Outside W C) (tool : ToolOutside W)
    (cfg : AppConfig) where
  -- The handler of the tool; `order` is that of the goroutines, if it starts any.
  unfoldable pub call_tool : ToolCall → List ℕ → Exec (ServerState W) ToolResult
  call_tool (call_list_clusters input) order = list_clusters api out tool cfg input.clusters
  call_tool (call_get_cluster_kubeconfig input) order =
      get_cluster_kubeconfig api out tool cfg input.clusters order
  call_tool (call_get_cluster_kubeconfig_readonly input) order =
      get_cluster_kubeconfig_readonly api out tool cfg input.clusters order
  call_tool (call_exec_in_cluster input) order =
      exec_in_cluster api out tool cfg input.clusters input.command input.stdin order
  call_tool (call_exec_in_cluster_readonly input) order =
      exec_in_cluster_readonly api out tool cfg input.clusters input.command input.stdin order
