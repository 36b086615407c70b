-- ===== src/Main/Daemon.antt =====
-- The daemon as a whole.
use capi_shell_mcp.Base.{
  ℕ, nat_eq, GoString, List, All, Bool, true, false, lookup, str_eq, none, ◌≡◌,
}
use capi_shell_mcp.Capi.Kube.{KubeApi}
use capi_shell_mcp.Proxy.Process.{Manager}
use capi_shell_mcp.Proxy.Process.Invariant.{entry_of}
use capi_shell_mcp.Server.{Outside}
use capi_shell_mcp.Server.Tools.{ToolOutside}
use capi_shell_mcp.HttpServer.{Network}
use capi_shell_mcp.Main.{Mcp, Straggler, calling, conversing, firing, exiting, moving}

module _ {W C O : Type 0} (api : KubeApi W C O) (out : Outside W C) (tool : ToolOutside W)
    (network : Network W) (mcp : Mcp W) where
  -- No tunnel in the map, and no timer armed.
  abbrev pub HasNothing : Manager → Type 0
  HasNothing m = ((k : GoString) → entry_of m k ≡ none) × ((i : ℕ) → lookup i m.timers ≡ none)

  -- A handler that is still running.
  abbrev pub is_handler : Straggler W → Bool
  is_handler (calling call order) = true
  is_handler (conversing d) = true
  is_handler (firing i now) = false
  is_handler (exiting k a) = false
  is_handler (moving f) = false

  abbrev pub NoHandler : List (Straggler W) → Type 0
  NoHandler = All (λ x. is_handler x ≡ false)
