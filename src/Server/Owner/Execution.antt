-- ===== src/Server/Owner/Execution.antt =====
-- The kubeconfig with which execOneTarget of internal/server/tools.go runs a command.
use capi_shell_mcp.Base.{
  ℕ, GoString, str_eq, Lacks, Map, lookup, Option, some, ok, [], List, Bool, true, false,
  continue-eq-ok, succeeded_with, Option-cases, Result-cases, inl, inr, subst, ap, ◌≡◌, ◌∙◌, refl,
  arith,
}
use capi_shell_mcp.Capi.Keys.{colon}
use capi_shell_mcp.Capi.Kube.{KubeApi, fetch_openstack_env}
use capi_shell_mcp.Capi.Target.{TargetParts, parse_target}
use capi_shell_mcp.Config.{KubeconfigSource, AppConfig}
use capi_shell_mcp.Exec.{ExecResult, with_kubeconfig}
use capi_shell_mcp.Server.{ServerState, Outside, on_world}
use capi_shell_mcp.Server.Kubeconfig.{cached_kubeconfig}
use capi_shell_mcp.Server.Tools.{ToolOutside, ClusterExecResult, read_only_kubeconfig}
use capi_shell_mcp.Server.Execution.{exec_access, access_with, run_in, exec_done, exec_one_target}
use capi_shell_mcp.Server.Owner.{NamesHaveNoColon, HasPlainNames, IsOf, OwnsCache}
use capi_shell_mcp.Server.Owner.Access.{cached_kubeconfig-IsOf, found_by_name}

module _ {W C O : Type 0} (api : KubeApi W C O) (out : Outside W C) (tool : ToolOutside W)
    (cfg : AppConfig) where
  -- The variables are those of the OpenStack cluster of that cluster.
  pub record AreVarsOf (src : KubeconfigSource) (id : TargetParts) (vars : Map GoString GoString)
      : Type 0 where
    pub client : C
    pub opened_at : W
    pub opened : (out.clients_for_context src id.context opened_at).0 ≡ ok client
    pub fetched_at : W
    pub fetched : (fetch_openstack_env api client id.namespace id.name fetched_at).0 ≡ ok vars

  -- What a command is given, made from the admin kubeconfig of its cluster.
  abbrev pub IsGiven :
      Bool → KubeconfigSource → TargetParts → GoString → GoString → Map GoString GoString → Type 0
  IsGiven true src id admin_kc kc vars =
      (s : ServerState W) × ((read_only_kubeconfig api out tool cfg admin_kc s).0 ≡ ok kc)
      × (vars ≡ [])
  IsGiven false src id admin_kc kc vars = (kc ≡ admin_kc) × AreVarsOf src id vars

  -- The result is that of a run of the command with what the cluster that the target names gives.
  pub record RanIn (readonly : Bool) (command : List GoString) (stdin : GoString) (id : TargetParts)
      (r : ClusterExecResult) : Type 0 where
    pub src : KubeconfigSource
    pub configured : lookup id.kubeconfig_name cfg.kubeconfigs ≡ some src
    pub admin_kc : GoString
    pub is_of : IsOf api out cfg src id.context id.namespace id.name admin_kc
    pub kc : GoString
    pub vars : Map GoString GoString
    pub given : IsGiven readonly src id admin_kc kc vars
    pub run_at : W
    pub done : ExecResult
    pub ran : (with_kubeconfig tool.system kc vars command stdin run_at).0 ≡ ok done
    pub result : r ≡ exec_done id done

  access_with-IsGiven :
      (readonly : Bool) (admin_kc kc : GoString) (vars : Map GoString GoString)
      (src : KubeconfigSource) (id : TargetParts) (s s' : ServerState W)
      → access_with api out tool cfg readonly admin_kc src id s ≡ (ok (kc, vars), s')
      → IsGiven readonly src id admin_kc kc vars
  unfolding access_with
  access_with-IsGiven true admin_kc kc vars src id s s' h =
      let (ro, made, h1) = continue-eq-ok (read_only_kubeconfig api out tool cfg admin_kc s) _ h in
      (s, made ∙ ground arith, ground arith)
  access_with-IsGiven false admin_kc kc vars src id s s' h =
      let opening = on_world (out.clients_for_context src id.context) s in
      let (client, opened, h1) = continue-eq-ok opening _ h in
      let (found, got, h2) =
        continue-eq-ok (on_world (fetch_openstack_env api client id.namespace id.name) opening.1) _
          h1 in
      let same : found ≡ vars = ground arith in
      (
        ground arith,
        record {
          client = client;
          opened_at = s.world;
          opened = opened;
          fetched_at = opening.1.world;
          fetched = got ∙ ap ok same;
        },
      )

  module _ (no_colon : NamesHaveNoColon api) (names : HasPlainNames cfg) where
    run_in-RanIn :
        (readonly : Bool) (command : List GoString) (stdin : GoString) (src : KubeconfigSource)
        (id : TargetParts) (done : ExecResult) (s s' : ServerState W)
        → OwnsCache api out cfg s
        → lookup id.kubeconfig_name cfg.kubeconfigs ≡ some src
        → Lacks colon id.namespace
        → Lacks colon id.name
        → run_in api out tool cfg readonly command stdin src id s ≡ (ok done, s')
        → RanIn readonly command stdin id (exec_done id done)
    unfolding run_in exec_access
    run_in-RanIn readonly command stdin src id done s s' v known plain_ns plain_n h =
        let access = exec_access api out tool cfg readonly src id s in
        let ((kc, vars), allowed, h1) = continue-eq-ok access _ h in
        let fetching = cached_kubeconfig api out cfg src id.context id.namespace id.name s in
        let (admin_kc, got, h2) =
          continue-eq-ok fetching _ (succeeded_with access (kc, vars) allowed) in
        record {
          src = src;
          configured = known;
          admin_kc = admin_kc;
          is_of =
              (cached_kubeconfig-IsOf api out cfg no_colon names src id.context id.namespace id.name
                  (found_by_name api out cfg no_colon names id.kubeconfig_name src known) s v).1
                admin_kc plain_ns plain_n got;
          kc = kc;
          vars = vars;
          given = access_with-IsGiven readonly admin_kc kc vars src id fetching.1 access.1 h2;
          run_at = access.1.world;
          done = done;
          ran = ground arith;
          result = refl;
        }

    -- If a target, whose namespace and name have no colon in them, has an exit code, its command ran
    -- with the kubeconfig of the cluster that it names, or one made from it.
    pub exec_one_target-RanIn :
        (readonly : Bool) (command : List GoString) (stdin t : GoString) (id : TargetParts)
        (code : Option ℕ) (s : ServerState W)
        → OwnsCache api out cfg s
        → parse_target t ≡ ok id
        → Lacks colon id.namespace
        → Lacks colon id.name
        → (exec_one_target api out tool cfg readonly command stdin t s).0.exit_code ≡ some code
        → RanIn readonly command stdin id
            (exec_one_target api out tool cfg readonly command stdin t s).0
    unfolding exec_one_target
    exec_one_target-RanIn readonly command stdin t id code s v parsed plain_ns plain_n h =
        elim (Option-cases (lookup id.kubeconfig_name cfg.kubeconfigs)) [
          | inl unknown ↦ absurd (ground arith)
          | inr (src, known) ↦
              let ran = run_in api out tool cfg readonly command stdin src id s in
              elim (Result-cases ran.0) [
                | inr (e, bad) ↦ absurd (ground arith)
                | inl (done, fine) ↦
                    let same : exec_done id done
                        ≡ (exec_one_target api out tool cfg readonly command stdin t s).0 =
                      ground arith in
                    subst (RanIn readonly command stdin id) same (
                      run_in-RanIn readonly command stdin src id done s ran.1 v known plain_ns
                        plain_n (succeeded_with ran done fine))
              ]
        ]
