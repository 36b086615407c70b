-- ===== src/Capi/ReadOnly/Converges.antt =====
-- `EnsureReadOnlyRBAC` against a server that does what the API documents.
use capi_shell_mcp.Base.{
  Option, none, some, ok, err, lit, wrapped, GoError, ◌≡◌, ◌⊎◌, Bool, true, false, arith, Exec, inl,
  inr, Option-cases, Bool-cases,
}
use capi_shell_mcp.Capi.ReadOnly.{
  ClusterRole, ClusterRoleBinding, RbacApi, read_only_sa_name, read_only_namespace,
  read_only_cluster_role, read_only_cluster_role_binding, is_already_exists,
  is_immutable_role_ref_error, ensure_account, ensure_role, replace_binding, ensure_binding,
  ensure_read_only_rbac,
}

-- The three objects with the names that the code uses, as far as they exist.
pub record RbacState : Type 0 where
  pub account : Bool
  pub role : Option ClusterRole
  pub binding : Option ClusterRoleBinding

-- What the code means the state to be.
abbrev pub desired : RbacState
desired = record {
  account = true;
  role = some read_only_cluster_role;
  binding = some read_only_cluster_role_binding;
}

-- A creation fails with AlreadyExists exactly if the object is there; an update of an object that
-- is there replaces it, but for a binding with another roleRef, where it fails with some error; a
-- deletion of an object that is there succeeds. A call that fails changes nothing.
pub record IsServer {W : Type 0} (api : RbacApi W) (view : W → RbacState)
    (same_ref : ClusterRoleBinding → Bool) : Type 0 where
  pub account_new :
      (w : W)
      → (view w).account ≡ false
      → ((api.create_service_account read_only_namespace read_only_sa_name w).0 ≡ none)
        × (view (api.create_service_account read_only_namespace read_only_sa_name w).1
            ≡ record (view w) { account = true })
  pub account_there :
      (w : W)
      → (view w).account ≡ true
      → (e : GoError) × ((api.create_service_account read_only_namespace read_only_sa_name w).0
          ≡ some e)
        × (is_already_exists e ≡ true)
        × (view (api.create_service_account read_only_namespace read_only_sa_name w).1 ≡ view w)
  pub role_new :
      (w : W)
      → (view w).role ≡ none
      → ((api.create_cluster_role read_only_cluster_role w).0 ≡ none)
        × (view (api.create_cluster_role read_only_cluster_role w).1
            ≡ record (view w) { role = some read_only_cluster_role })
  pub role_there :
      (w : W) (r : ClusterRole)
      → (view w).role ≡ some r
      → (e : GoError) × ((api.create_cluster_role read_only_cluster_role w).0 ≡ some e)
        × (is_already_exists e ≡ true)
        × (view (api.create_cluster_role read_only_cluster_role w).1 ≡ view w)
  pub role_update :
      (w : W) (r : ClusterRole)
      → (view w).role ≡ some r
      → ((api.update_cluster_role read_only_cluster_role w).0 ≡ none)
        × (view (api.update_cluster_role read_only_cluster_role w).1
            ≡ record (view w) { role = some read_only_cluster_role })
  pub binding_new :
      (w : W)
      → (view w).binding ≡ none
      → ((api.create_binding read_only_cluster_role_binding w).0 ≡ none)
        × (view (api.create_binding read_only_cluster_role_binding w).1
            ≡ record (view w) { binding = some read_only_cluster_role_binding })
  pub binding_there :
      (w : W) (b : ClusterRoleBinding)
      → (view w).binding ≡ some b
      → (e : GoError) × ((api.create_binding read_only_cluster_role_binding w).0 ≡ some e)
        × (is_already_exists e ≡ true)
        × (view (api.create_binding read_only_cluster_role_binding w).1 ≡ view w)
  pub binding_update :
      (w : W) (b : ClusterRoleBinding)
      → (view w).binding ≡ some b
      → same_ref b ≡ true
      → ((api.update_binding read_only_cluster_role_binding w).0 ≡ none)
        × (view (api.update_binding read_only_cluster_role_binding w).1
            ≡ record (view w) { binding = some read_only_cluster_role_binding })
  pub binding_conflict :
      (w : W) (b : ClusterRoleBinding)
      → (view w).binding ≡ some b
      → same_ref b ≡ false
      → (e : GoError) × ((api.update_binding read_only_cluster_role_binding w).0 ≡ some e)
        × (view (api.update_binding read_only_cluster_role_binding w).1 ≡ view w)
  pub binding_delete :
      (w : W) (b : ClusterRoleBinding)
      → (view w).binding ≡ some b
      → ((api.delete_binding read_only_sa_name w).0 ≡ none)
        × (view (api.delete_binding read_only_sa_name w).1 ≡ record (view w) { binding = none })

module _ {W : Type 0} (api : RbacApi W) (view : W → RbacState)
    (same_ref : ClusterRoleBinding → Bool) (server : IsServer api view same_ref) where
  -- The call succeeds and leaves a state.
  abbrev Leads : Exec W (Unit {0}) → W → RbacState → Type 0
  Leads m w s = ((m w).0 ≡ ok tt) × (view (m w).1 ≡ s)

  account-Leads : (w : W) → Leads (ensure_account api) w (record (view w) { account = true })
  unfolding ensure_account
  account-Leads w = elim (Bool-cases (view w).account) [
    | inl there ↦ let (e, failed, exists, same) = server.account_there w there in ground arith
    | inr new ↦ let (fine, changed) = server.account_new w new in ground arith
  ]

  role-Leads :
      (w : W) → Leads (ensure_role api) w (record (view w) { role = some read_only_cluster_role })
  unfolding ensure_role
  role-Leads w = elim (Option-cases (view w).role) [
    | inl new ↦ let (fine, changed) = server.role_new w new in ground arith
    | inr (r, there) ↦
        let (e, failed, exists, same) = server.role_there w r there in
        let w1 = (api.create_cluster_role read_only_cluster_role w).1 in
        let (fine, changed) = server.role_update w1 r (ground arith) in ground arith
  ]

  -- The server refuses to bind the account to another role, by an error that the program does not
  -- recognise; this is passed on, and the binding stays.
  abbrev pub Refused : Exec W (Unit {0}) → W → RbacState → Type 0
  Refused m w s =
      (b : ClusterRoleBinding) × (e : GoError) × (asked_at : W) × ((view w).binding ≡ some b)
      × (same_ref b ≡ false)
      × ((api.update_binding read_only_cluster_role_binding asked_at).0 ≡ some e)
      × (is_immutable_role_ref_error e ≡ false)
      × ((m w).0 ≡ err (wrapped (lit "capi: replacing read-only ClusterRoleBinding") e))
      × (view (m w).1 ≡ record s { binding = some b })

  abbrev Ends : Exec W (Unit {0}) → W → RbacState → Type 0
  Ends m w s =
      Leads m w (record s { binding = some read_only_cluster_role_binding }) ⊎ Refused m w s

  replace-Ends :
      (w : W) (b : ClusterRoleBinding)
      → (view w).binding ≡ some b
      → Ends (replace_binding api) w (view w)
  unfolding replace_binding
  replace-Ends w b there = elim (Bool-cases (same_ref b)) [
    | inl same_role ↦
        let (fine, changed) = server.binding_update w b there same_role in inl (ground arith)
    | inr other_role ↦
        let (e, failed, same) = server.binding_conflict w b there other_role in
        let w1 = (api.update_binding read_only_cluster_role_binding w).1 in
        elim (Bool-cases (is_immutable_role_ref_error e)) [
          | inl immutable ↦
              let (deleted, gone) = server.binding_delete w1 b (ground arith) in
              let w2 = (api.delete_binding read_only_sa_name w1).1 in
              let (created, back) = server.binding_new w2 (ground arith) in inl (ground arith)
          | inr other ↦ inr (b, e, w, there, other_role, failed, other, ground arith, ground arith)
        ]
  ]

  binding-Ends : (w : W) → Ends (ensure_binding api) w (view w)
  unfolding ensure_binding
  binding-Ends w = elim (Option-cases (view w).binding) [
    | inl new ↦ let (fine, changed) = server.binding_new w new in inl (ground arith)
    | inr (b, there) ↦
        let (e, failed, exists, same) = server.binding_there w b there in
        let w1 = (api.create_binding read_only_cluster_role_binding w).1 in
        elim (replace-Ends w1 b (ground arith)) [
          | inl (replaced, back) ↦ inl (ground arith)
          | inr (c, x, at, held, other_role, refused, unknown, passed, kept) ↦
              inr (c, x, at, ground arith, other_role, refused, unknown, ground arith, ground arith)
        ]
  ]

  -- Against a server that does what `IsServer` says, from every state, objects that are missing or
  -- outdated included: either the call succeeds and leaves exactly the desired account, role and
  -- binding; or the binding was to another role and the server's refusal to change that is not one
  -- which the program recognises: then the call returns this refusal, the account and the role are as
  -- desired, and the binding is the old one.
  pub ensure_read_only_rbac_outcome :
      (w : W)
      → (((ensure_read_only_rbac api w).0 ≡ ok tt)
          × (view (ensure_read_only_rbac api w).1 ≡ desired))
        ⊎ Refused (ensure_read_only_rbac api) w desired
  unfolding ensure_read_only_rbac
  ensure_read_only_rbac_outcome w =
      let (a, account) = account-Leads w in
      let w1 = (ensure_account api w).1 in
      let (r, role) = role-Leads w1 in
      let w2 = (ensure_role api w1).1 in
      elim (binding-Ends w2) [
        | inl (b, binding) ↦ inl (ground arith)
        | inr (c, x, at, held, other_role, refused, unknown, passed, kept) ↦
            inr (c, x, at, ground arith, other_role, refused, unknown, ground arith, ground arith)
      ]
