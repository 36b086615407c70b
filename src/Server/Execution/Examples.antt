-- ===== src/Server/Execution/Examples.antt =====
-- A workload cluster whose calls all succeed, and a command that is run in it.
use capi_shell_mcp.Base.{
  ℕ, GoString, lit, [], ◌∷◌, lookup, str_eq, none, some, ok, split, trim_space, true, ◌≡◌, refl,
}
use capi_shell_mcp.Cache
use capi_shell_mcp.Capi.Target.{TargetParts, parse_target}
use capi_shell_mcp.Capi.Kube.{fetch_workload_kubeconfig}
use capi_shell_mcp.Capi.ReadOnly.{
  RbacApi, create_read_only_kubeconfig, mint_for, render_with, ensure_read_only_rbac,
  ensure_account, ensure_role, ensure_binding,
}
use capi_shell_mcp.Exec.{ExecResult, with_kubeconfig, exec_result}
use capi_shell_mcp.Server.Kubeconfig.{
  cached_kubeconfig, fetch_kubeconfig, store_kubeconfig, transform_of, proxy_for,
}
use capi_shell_mcp.Server.Tools.{ToolOutside, read_only_kubeconfig}
use capi_shell_mcp.Server.Execution.{exec_one_target, exec_done}
use capi_shell_mcp.Server.Execution.ReadOnly.{IsReadOnly, exec_one_target_readonly}
use capi_shell_mcp.Server.Examples.{api, out, tool, cfg, fresh_state, full, kubectl}

abbrev workload : RbacApi ℕ
workload = record {
  create_service_account = λ ns n w. (none, w);
  create_cluster_role = λ r w. (none, w);
  update_cluster_role = λ r w. (none, w);
  create_binding = λ b w. (none, w);
  update_binding = λ b w. (none, w);
  delete_binding = λ n w. (none, w);
  create_token = λ ns n seconds w. (ok (lit "token"), w);
}

abbrev with_workload : ToolOutside ℕ
with_workload = record tool {
  rbac_for = λ kc w. (ok workload, w);
  parse_clusters =
      λ kc. ok (record { server = lit "https://web"; certificate_authority_data = [] } ∷ []);
  render = λ kc. ok (lit "read-only");
}

ran :
    (exec_one_target api out with_workload cfg true kubectl [] full fresh_state).0.exit_code
    ≡ some (some 0)
unfolding exec_one_target parse_target split trim_space lookup read_only_kubeconfig
    create_read_only_kubeconfig mint_for render_with ensure_read_only_rbac ensure_account
    ensure_role ensure_binding cached_kubeconfig fetch_kubeconfig fetch_workload_kubeconfig
    transform_of proxy_for store_kubeconfig Cache.get with_kubeconfig exec_result
ran = refl

exec_one_target_readonly_example :
    (kc : GoString) × (w : ℕ) × (done : ExecResult) × (id : TargetParts) × (parse_target full
      ≡ ok id)
    × IsReadOnly api out with_workload cfg kc
    × ((with_kubeconfig with_workload.system kc [] kubectl [] w).0 ≡ ok done)
    × ((exec_one_target api out with_workload cfg true kubectl [] full fresh_state).0
        ≡ exec_done id done)
exec_one_target_readonly_example =
    exec_one_target_readonly api out with_workload cfg kubectl [] full fresh_state (some 0) ran
