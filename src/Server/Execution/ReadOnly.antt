-- ===== src/Server/Execution/ReadOnly.antt =====
-- What a command of exec_in_cluster_readonly is given.
use capi_shell_mcp.Base.{
  ℕ, GoString, List, [], Map, lookup, str_eq, Option, some, Option-cases, ok, Result-cases,
  continue-eq-ok, succeeded_with, subst, true, inl, inr, ◌≡◌, refl, arith,
}
use capi_shell_mcp.Config.{AppConfig, KubeconfigSource}
use capi_shell_mcp.Capi.Target.{TargetParts, parse_target}
use capi_shell_mcp.Capi.Kube.{KubeApi}
use capi_shell_mcp.Capi.ReadOnly.{RbacApi, create_read_only_kubeconfig}
use capi_shell_mcp.Capi.ReadOnly.Minted.{IsMinted, create_read_only_kubeconfig-IsMinted}
use capi_shell_mcp.Exec.{ExecResult, with_kubeconfig}
use capi_shell_mcp.Base.{whole_seconds}
use capi_shell_mcp.Server.{ServerState, Outside, on_world, kubeconfig_ttl}
use capi_shell_mcp.Server.Kubeconfig.{cached_kubeconfig}
use capi_shell_mcp.Server.Tools.{ToolOutside, read_only_kubeconfig}
use capi_shell_mcp.Server.Execution.{exec_access, access_with, run_in, exec_done, exec_one_target}

module _ {W C O : Type 0} (api : KubeApi W C O) (out : Outside W C) (tool : ToolOutside W)
    (cfg : AppConfig) where
  -- The text is a kubeconfig of the read-only account, for a token that some client of the workload
  -- cluster was granted.
  pub record IsReadOnly (kc : GoString) : Type 0 where
    pub admin_kc : GoString
    pub rbac : RbacApi W
    pub opened_at : W
    pub opened : (tool.rbac_for admin_kc opened_at).0 ≡ ok rbac
    pub minted :
        IsMinted rbac tool.parse_clusters tool.render (whole_seconds (kubeconfig_ttl cfg)) kc

  pub read_only_kubeconfig-IsReadOnly :
      (admin_kc kc : GoString) (s s' : ServerState W)
      → read_only_kubeconfig api out tool cfg admin_kc s ≡ (ok kc, s')
      → (ro : IsReadOnly kc) × (ro.admin_kc ≡ admin_kc)
  unfolding read_only_kubeconfig
  read_only_kubeconfig-IsReadOnly admin_kc kc s s' h =
      let (rbac, opened, h1) = continue-eq-ok (on_world (tool.rbac_for admin_kc) s) _ h in
      let w = (tool.rbac_for admin_kc s.world).1 in
      let seconds = whole_seconds (kubeconfig_ttl cfg) in
      let ran =
        create_read_only_kubeconfig rbac tool.parse_clusters tool.render admin_kc seconds w in
      (
        record {
          admin_kc = admin_kc;
          rbac = rbac;
          opened_at = s.world;
          opened = opened;
          minted =
              create_read_only_kubeconfig-IsMinted rbac tool.parse_clusters tool.render seconds
                admin_kc kc w ran.1 (ground arith);
        },
        refl,
      )

  exec_access-IsReadOnly :
      (src : KubeconfigSource) (id : TargetParts) (kc : GoString) (vars : Map GoString GoString)
      (s s' : ServerState W)
      → exec_access api out tool cfg true src id s ≡ (ok (kc, vars), s')
      → IsReadOnly kc × (vars ≡ [])
  unfolding exec_access access_with
  exec_access-IsReadOnly src id kc vars s s' h =
      let fetched = cached_kubeconfig api out cfg src id.context id.namespace id.name s in
      let (admin_kc, _, h1) = continue-eq-ok fetched _ h in
      let made = read_only_kubeconfig api out tool cfg admin_kc fetched.1 in
      let (ro, minted, h2) = continue-eq-ok made _ h1 in
      let same : ro ≡ kc = ground arith in
      (
        subst IsReadOnly same (
            (read_only_kubeconfig-IsReadOnly admin_kc ro fetched.1 made.1
              (succeeded_with made ro minted)).0),
        ground arith,
      )

  run_in-IsReadOnly :
      (command : List GoString) (stdin : GoString) (src : KubeconfigSource) (id : TargetParts)
      (done : ExecResult) (s s' : ServerState W)
      → run_in api out tool cfg true command stdin src id s ≡ (ok done, s')
      → (kc : GoString) × (w : W) × IsReadOnly kc
        × ((with_kubeconfig tool.system kc [] command stdin w).0 ≡ ok done)
  unfolding run_in
  run_in-IsReadOnly command stdin src id done s s' h =
      let allowed = exec_access api out tool cfg true src id s in
      let ((kc, vars), given, h1) = continue-eq-ok allowed _ h in
      let (read_only, nothing) =
        exec_access-IsReadOnly src id kc vars s allowed.1
          (succeeded_with allowed (kc, vars) given) in
      (kc, allowed.1.world, read_only, ground arith)

  -- If exec_in_cluster_readonly has an exit code for a target, the command ran with a kubeconfig whose
  -- only credential is a token of the read-only account, requested for the configured time, and with
  -- no OpenStack variable; the result is that of this run.
  pub exec_one_target_readonly :
      (command : List GoString) (stdin t : GoString) (s : ServerState W) (code : Option ℕ)
      → (exec_one_target api out tool cfg true command stdin t s).0.exit_code ≡ some code
      → (kc : GoString) × (w : W) × (done : ExecResult) × (id : TargetParts) × (parse_target t
          ≡ ok id)
        × IsReadOnly kc
        × ((with_kubeconfig tool.system kc [] command stdin w).0 ≡ ok done)
        × ((exec_one_target api out tool cfg true command stdin t s).0 ≡ exec_done id done)
  unfolding exec_one_target
  exec_one_target_readonly command stdin t s code h = elim (Result-cases (parse_target t)) [
    | inr (e, bad) ↦ absurd (ground arith)
    | inl (id, parsed) ↦ elim (Option-cases (lookup id.kubeconfig_name cfg.kubeconfigs)) [
      | inl unknown ↦ absurd (ground arith)
      | inr (src, known) ↦
          let ran = run_in api out tool cfg true command stdin src id s in
          elim (Result-cases ran.0) [
            | inr (e, bad) ↦ absurd (ground arith)
            | inl (done, fine) ↦
                let (kc, w, read_only, with_it) =
                  run_in-IsReadOnly command stdin src id done s ran.1
                    (succeeded_with ran done fine) in
                (kc, w, done, id, parsed, read_only, with_it, ground arith)
          ]
    ]
  ]
