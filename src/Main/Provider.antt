-- ===== src/Main/Provider.antt =====
-- The provider of internal/embed/provider.go over the ToolServer, as the daemon uses it: its operations
-- and what else happens to the server, each as a whole.
pub mod Calls
pub mod Owner
pub mod Examples
use capi_shell_mcp.Base.{ℕ, GoString, List, [], ◌∷◌, Option}
use capi_shell_mcp.Capi.Kube.{KubeApi}
use capi_shell_mcp.Config.{AppConfig}
use capi_shell_mcp.HttpServer.{Network}
use capi_shell_mcp.Server.{ServerState, Outside}
use capi_shell_mcp.Server.Tools.{ToolOutside}
use capi_shell_mcp.Embed.Provider.{
  Library, CapiProvider, manager_for_target, get_targets, reload_config, publish_kubernetes_config,
  close,
}
use capi_shell_mcp.Main.{Mcp, Event, serve, resolver}

pub data ProviderUse (W G : Type 0) : Type 0 where
  asks_for : GoString → ProviderUse W G
  asks_for_targets : ProviderUse W G
  reloads : Option G → ProviderUse W G
  publishes : G → ProviderUse W G
  closes : ProviderUse W G
  -- The server works for others.
  serves : ℕ → List (Event W) → ProviderUse W G

module _ {W C O R G M : Type 0} (api : KubeApi W C O) (out : Outside W C) (tool : ToolOutside W)
    (network : Network W) (mcp : Mcp W) (cfg : AppConfig) (library : Library R G M) where
  unfoldable pub use_provider :
      ProviderUse W G → CapiProvider (ServerState W) G M → CapiProvider (ServerState W) G M
  use_provider (asks_for t) p =
      (manager_for_target library (resolver api out tool network mcp cfg) t p).1
  use_provider asks_for_targets p =
      (get_targets library (resolver api out tool network mcp cfg) p).1
  use_provider (reloads c) p = (reload_config library (resolver api out tool network mcp cfg) c p).1
  use_provider (publishes c) p =
      publish_kubernetes_config library (resolver api out tool network mcp cfg) c p
  use_provider closes p = close library (resolver api out tool network mcp cfg) p
  use_provider (serves port events) p = record p {
    resolver_state = serve api out tool network mcp cfg port events p.resolver_state;
  }
