-- ===== src/Embed.antt =====
-- internal/embed: the tools of kubernetes-mcp-server behind the selection of clusters.
pub mod FanOut
pub mod Provider
pub mod Mount
mod Examples
use capi_shell_mcp.Base.{GoString, List, Exec}

-- internal/embed/provider.go. `S` is the state of the implementation, which is a ToolServer.
pub record TargetResolver (S : Type 0) : Type 0 where
  pub resolve_target : GoString → Exec S GoString
  pub list_targets : Exec S (List GoString)
