-- ===== src/Server/Execution/Results.antt =====
-- The results of a fan-out over clusters.
use capi_shell_mcp.Base.{
  ℕ, GoString, List, [], ◌∷◌, ◌↔◌, AnyOf, str_eq, some, Result, ok, err, Bool, true, false, ◌≡◌,
  arith, inl, inr, Result-cases,
}
use capi_shell_mcp.Capi.Target.{TargetParts, parse_target}
use capi_shell_mcp.Config.{AppConfig}
use capi_shell_mcp.Capi.Kube.{KubeApi, none_of}
use capi_shell_mcp.Server.{ServerState, Outside}
use capi_shell_mcp.Base.{All, nub, nat_eq, get_elem?, fan_out_each, fan_out, contains}
use capi_shell_mcp.Capi.Resolve.{resolve_cluster_patterns}
use capi_shell_mcp.Capi.Resolve.Strict.{
  HasFour, resolve_cluster_patterns_strict, resolve_cluster_patterns_strict_ok,
}
use capi_shell_mcp.Server.Tools.{ClusterExecResult, executions, ToolResult, ToolOutside}
use capi_shell_mcp.Server.Execution.{
  any_exec_error, exec_failed, no_execution, exec_one_target, exec_in_cluster_fan_out,
}

-- The caller sees an error.
abbrev pub is_failure : Result ToolResult → Bool
is_failure (ok r) = r.is_error
is_failure (err e) = true

any_exec_error_iff :
    (rs : List ClusterExecResult)
    → (any_exec_error rs ≡ true) ↔ AnyOf (λ r. exec_failed r ≡ true) rs
unfolding any_exec_error
any_exec_error_iff [] = ground arith
any_exec_error_iff (r ∷ rs) = ground (arith, any_exec_error_iff rs)

module _ {W C O : Type 0} (api : KubeApi W C O) (out : Outside W C) (tool : ToolOutside W)
    (cfg : AppConfig) where
  task_cluster :
      (readonly : Bool) (command : List GoString) (stdin t : GoString) (s : ServerState W)
      (id : TargetParts)
      → parse_target t ≡ ok id
      → (exec_one_target api out tool cfg readonly command stdin t s).0.cluster ≡ id
  unfolding exec_one_target
  task_cluster readonly command stdin t s id h = ground arith

  -- exec_in_cluster runs nothing and changes nothing unless every entry is a full target: a single
  -- entry of another shape makes the whole call an error.
  pub exec_in_cluster_guard :
      (clusters command : List GoString) (stdin : GoString) (readonly : Bool) (order : List ℕ)
      (s : ServerState W)
      → ¬ All HasFour clusters
      → ((exec_in_cluster_fan_out api out tool cfg clusters command stdin readonly order s).1 ≡ s)
        × (is_failure
              (exec_in_cluster_fan_out api out tool cfg clusters command stdin readonly order s).0
            ≡ true)
  unfolding exec_in_cluster_fan_out
  exec_in_cluster_guard clusters command stdin readonly order s partial =
      elim (Result-cases
        (resolve_cluster_patterns {W = ServerState W} clusters (λ t. (ok [], t)) true s).0) [
          | inl (targets, good) ↦ absurd (
              partial
                (resolve_cluster_patterns_strict_ok (λ t. (ok [], t)) s clusters targets good).0)
          | inr (e, bad) ↦ ground arith
        ]

  -- If the command and the list are not empty, every entry is a full target and the goroutine of
  -- the i-th distinct entry runs, then, whatever the order of the goroutines, the i-th result is
  -- about the cluster of that entry, and the call is marked as an error exactly if one of its
  -- results has failed.
  pub exec_in_cluster_each :
      (clusters command : List GoString) (stdin : GoString) (readonly : Bool) (order : List ℕ)
      (s : ServerState W) (i : ℕ) (t : GoString) (id : TargetParts)
      → none_of command ≡ false
      → none_of clusters ≡ false
      → All HasFour clusters
      → get_elem? (nub clusters) i ≡ some t
      → contains order i ≡ true
      → parse_target t ≡ ok id
      → (results : List ClusterExecResult) × (s' : ServerState W) × (r : ClusterExecResult)
        × (exec_in_cluster_fan_out api out tool cfg clusters command stdin readonly order s
            ≡ (ok (record { text = executions results; is_error = any_exec_error results }), s'))
        × (get_elem? results i ≡ some r)
        × (r.cluster ≡ id)
        × ((any_exec_error results ≡ true) ↔ AnyOf (λ x. exec_failed x ≡ true) results)
  unfolding exec_in_cluster_fan_out
  exec_in_cluster_each clusters command stdin readonly order s i t id some_command some_cluster full
        at runs parsed =
      let good =
        (resolve_cluster_patterns_strict {W = ServerState W} (λ u. (ok [], u)) s clusters).1.1
          full in
      let task = exec_one_target api out tool cfg readonly command stdin in
      let ran = fan_out no_execution task (nub clusters) order s in
      let (r, there, same) =
        fan_out_each no_execution task
          (λ u x. (j : TargetParts) → parse_target u ≡ ok j → x.cluster ≡ j)
          (λ u v j h. task_cluster readonly command stdin u v j h) (nub clusters) order s i t at
          runs in
      (ran.0, ran.1, r, ground arith, there, same id parsed, any_exec_error_iff ran.0)
