-- ===== src/Capi/ReadOnly/Examples.antt =====
-- An API server whose whole state are the three objects. It refuses to change a roleRef in the words of
-- Kubernetes.
use capi_shell_mcp.Base.{
  lit, Option, none, some, ok, GoError, api_error, already_exists, invalid, external, Bool, true,
  false, ◌⊎◌, if◌then◌else◌, str_beq, ◌≡◌, refl, arith, has_substring,
}
use capi_shell_mcp.Capi.ReadOnly.{
  ClusterRole, ClusterRoleBinding, RbacApi, read_only_cluster_role_binding, read_only_sa_name,
  is_already_exists, is_immutable_role_ref_error, ensure_read_only_rbac,
}
use capi_shell_mcp.Capi.ReadOnly.Converges.{
  RbacState, desired, IsServer, Refused, ensure_read_only_rbac_outcome,
}

abbrev exists_error : GoError
exists_error = api_error already_exists (lit "already exists")

abbrev missing_error : GoError
missing_error = external (lit "not found")

abbrev conflict_error : GoError
conflict_error = api_error invalid (lit "roleRef: Invalid value: cannot change roleRef")

-- The bindings differ in the name of the role.
abbrev same_role : ClusterRoleBinding → Bool
same_role b = str_beq b.role_ref.name read_only_sa_name

abbrev create_account : RbacState → Option GoError × RbacState
create_account w = if w.account then (some exists_error, w) else (none, record w { account = true })

abbrev create_role : ClusterRole → RbacState → Option GoError × RbacState
create_role r w = elim w.role [
  | none ↦ (none, record w { role = some r })
  | some old ↦ (some exists_error, w)
]

abbrev update_role : ClusterRole → RbacState → Option GoError × RbacState
update_role r w = elim w.role [
  | none ↦ (some missing_error, w)
  | some old ↦ (none, record w { role = some r })
]

abbrev create_role_binding : ClusterRoleBinding → RbacState → Option GoError × RbacState
create_role_binding b w = elim w.binding [
  | none ↦ (none, record w { binding = some b })
  | some old ↦ (some exists_error, w)
]

abbrev update_role_binding : ClusterRoleBinding → RbacState → Option GoError × RbacState
update_role_binding b w = elim w.binding [
  | none ↦ (some missing_error, w)
  | some old ↦
      if same_role old then (none, record w { binding = some b }) else (some conflict_error, w)
]

abbrev delete_role_binding : RbacState → Option GoError × RbacState
delete_role_binding w = elim w.binding [
  | none ↦ (some missing_error, w)
  | some old ↦ (none, record w { binding = none })
]

abbrev server : RbacApi RbacState
server = record {
  create_service_account = λ ns n w. create_account w;
  create_cluster_role = create_role;
  update_cluster_role = update_role;
  create_binding = create_role_binding;
  update_binding = update_role_binding;
  delete_binding = λ n w. delete_role_binding w;
  create_token = λ ns n seconds w. (ok (lit "token"), w);
}

conflict_unrecognised : is_immutable_role_ref_error conflict_error ≡ false
unfolding is_immutable_role_ref_error has_substring
conflict_unrecognised = refl

server-IsServer : IsServer server (λ w. w) same_role
unfolding is_already_exists
server-IsServer = record {
  account_new = λ w h. ground arith;
  account_there = λ w h. (exists_error, ground arith, refl, ground (arith));
  role_new = λ w h. ground arith;
  role_there = λ w r h. (exists_error, ground arith, refl, ground (arith));
  role_update = λ w r h. ground arith;
  binding_new = λ w h. ground arith;
  binding_there = λ w b h. (exists_error, ground arith, refl, ground (arith));
  binding_update = λ w b h same. ground arith;
  binding_conflict = λ w b h other. (conflict_error, ground arith, ground (arith));
  binding_delete = λ w b h. ground arith;
}

-- The account is there; the binding is to another role.
abbrev outdated : RbacState
outdated = record {
  account = true;
  role = none;
  binding = some (record read_only_cluster_role_binding {
    role_ref = record {
      api_group = lit "rbac.authorization.k8s.io";
      kind = lit "ClusterRole";
      name = lit "cluster-admin";
    };
  });
}

ensure_read_only_rbac_outcome_example :
    (((ensure_read_only_rbac server outdated).0 ≡ ok tt)
      × ((ensure_read_only_rbac server outdated).1 ≡ desired))
    ⊎ Refused server
        (λ w. w)
        same_role
        server-IsServer
        (ensure_read_only_rbac server)
        outdated
        desired
ensure_read_only_rbac_outcome_example =
    ensure_read_only_rbac_outcome server (λ w. w) same_role server-IsServer outdated
