-- ===== src/Server/Owner/Calls/Interleave.antt =====
-- Calls for kubeconfigs whose parts interleave in any way, with each other and with what else changes
-- the server.
use capi_shell_mcp.Base.{
  ℕ, GoString, str_eq, List, [], ◌∷◌, ◌++◌, lookup, none, some, get_elem?, set,
}
use capi_shell_mcp.Cache.{TtlCache}
use capi_shell_mcp.Capi.Kube.{KubeApi}
use capi_shell_mcp.Capi.Target.{CapiCluster, TargetParts}
use capi_shell_mcp.Config.{AppConfig}
use capi_shell_mcp.Proxy.Process.{Manager}
use capi_shell_mcp.Server.{ServerState, Outside}
use capi_shell_mcp.Server.Owner.Calls.{Call, looking, advance}

pub record CallSystem (W C : Type 0) : Type 0 where
  pub server : ServerState W
  pub calls : List (Call C)

pub data Happening (W : Type 0) : Type 0 where
  -- A call for a target; nothing comes of it if its kubeconfig is not configured.
  arrives : TargetParts → Happening W
  -- The next part of the call at that index.
  continues : ℕ → Happening W
  world_changes : (W → W) → Happening W
  tunnels_change : (Manager → Manager) → Happening W
  lists_change :
      (TtlCache GoString (List CapiCluster) → TtlCache GoString (List CapiCluster)) → Happening W

module _ {W C O : Type 0} (api : KubeApi W C O) (out : Outside W C) (cfg : AppConfig) where
  unfoldable pub occur : Happening W → CallSystem W C → CallSystem W C
  occur (arrives id) y = elim (lookup id.kubeconfig_name cfg.kubeconfigs) [
    | none ↦ y
    | some src ↦ record y {
      calls =
          y.calls
          ++ record { src = src; ctx = id.context; ns = id.namespace; n = id.name; stage = looking }
            ∷ [];
    }
  ]
  occur (continues i) y = elim (get_elem? y.calls i) [
    | none ↦ y
    | some c ↦
        let (stage, s) = advance api out cfg c.src c.ctx c.ns c.n c.stage y.server in
        record { server = s; calls = set y.calls i (record c { stage = stage }) }
  ]
  occur (world_changes f) y = record y { server = record y.server { world = f y.server.world } }
  occur (tunnels_change f) y = record y {
    server = record y.server { proxy_manager = f y.server.proxy_manager };
  }
  occur (lists_change f) y = record y {
    server = record y.server { cluster_list = f y.server.cluster_list };
  }

  unfoldable pub run_all : List (Happening W) → CallSystem W C → CallSystem W C
  unfolding occur
  run_all [] y = y
  run_all (h ∷ hs) y = run_all hs (occur h y)
