-- ===== src/Server/Owner/Kept.antt =====
-- The cache of kubeconfigs through the calls of tools.
use capi_shell_mcp.Base.{
  ℕ, GoString, List, [], str_eq, Option, some, ok, Bool, true, false, nub, nat_eq, get_elem?,
  fan_out, fan_out_each_kept, contains, Lacks, All, ◌≡◌, arith,
}
use capi_shell_mcp.Capi.Keys.{colon}
use capi_shell_mcp.Capi.Kube.{KubeApi, none_of}
use capi_shell_mcp.Capi.Target.{TargetParts, parse_target}
use capi_shell_mcp.Capi.Resolve.Strict.{HasFour, resolve_cluster_patterns_strict}
use capi_shell_mcp.Config.{AppConfig}
use capi_shell_mcp.Server.{ServerState, Outside}
use capi_shell_mcp.Server.Kept.{IsKept}
use capi_shell_mcp.Server.Build.Kept.{exec_one_target-Preserves}
use capi_shell_mcp.Server.Tools.{ToolOutside, ClusterExecResult, executions}
use capi_shell_mcp.Server.Execution.{
  any_exec_error, no_execution, exec_one_target, exec_in_cluster_fan_out,
}
use capi_shell_mcp.Server.Owner.{NamesHaveNoColon, HasPlainNames, OwnsCache}
use capi_shell_mcp.Server.Owner.Access.{cached_kubeconfig-IsOf, found_by_name}
use capi_shell_mcp.Server.Owner.Execution.{RanIn, exec_one_target-RanIn}

module _ {W C O : Type 0} (api : KubeApi W C O) (out : Outside W C) (cfg : AppConfig)
    (no_colon : NamesHaveNoColon api) (names : HasPlainNames cfg) where
  pub OwnsCache-IsKept : IsKept api out cfg (OwnsCache api out cfg)
  OwnsCache-IsKept = record {
    world = λ s w v. v;
    listed = λ s lists v. v;
    fetched = λ name src ctx ns n known s v.
        (cached_kubeconfig-IsOf api out cfg no_colon names src ctx ns n
          (found_by_name api out cfg no_colon names name src known) s v).0;
  }

  module _ (tool : ToolOutside W) (readonly : Bool) (command : List GoString)
      (stdin : GoString) where
    -- The result is about the cluster that the target names.
    abbrev OwnRun : GoString → ClusterExecResult → Type 0
    OwnRun t r =
        (id : TargetParts) (code : Option ℕ)
        → parse_target t ≡ ok id
        → Lacks colon id.namespace
        → Lacks colon id.name
        → r.exit_code ≡ some code
        → RanIn api out tool cfg readonly command stdin id r

    pub exec_in_cluster-RanIn :
        (clusters : List GoString) (order : List ℕ) (s : ServerState W) (i : ℕ) (t : GoString)
        → OwnsCache api out cfg s
        → none_of command ≡ false
        → none_of clusters ≡ false
        → All HasFour clusters
        → get_elem? (nub clusters) i ≡ some t
        → contains order i ≡ true
        → (results : List ClusterExecResult) × (s' : ServerState W) × (r : ClusterExecResult)
          × (exec_in_cluster_fan_out api out tool cfg clusters command stdin readonly order s
              ≡ (ok (record { text = executions results; is_error = any_exec_error results }), s'))
          × (get_elem? results i ≡ some r)
          × OwnRun t r
    unfolding exec_in_cluster_fan_out
    exec_in_cluster-RanIn clusters order s i t v some_command some_cluster full at runs =
        let good =
          (resolve_cluster_patterns_strict {W = ServerState W} (λ u. (ok [], u)) s clusters).1.1
            full in
        let task = exec_one_target api out tool cfg readonly command stdin in
        let ran = fan_out no_execution task (nub clusters) order s in
        let (r, there, own) =
          fan_out_each_kept no_execution task (OwnsCache api out cfg)
            (exec_one_target-Preserves api out tool cfg (OwnsCache api out cfg) OwnsCache-IsKept
              readonly command stdin)
            OwnRun
            (λ u x w id code parsed plain_ns plain_n h.
              exec_one_target-RanIn api out tool cfg no_colon names readonly command stdin u id code
                x w parsed plain_ns plain_n h)
            (nub clusters) order s i t v at runs in
        (ran.0, ran.1, r, ground arith, there, own)
