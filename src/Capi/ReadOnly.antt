-- ===== src/Capi/ReadOnly.antt =====
-- internal/capi/readonly.go. The Kubernetes clients are the fields of `RbacApi`, on a world `W`; a
-- call that only fails or succeeds returns its error, if there is one.
pub mod Converges
pub mod Minted
mod Examples
use capi_shell_mcp.Base.{
  ℤ, ℕ, GoString, lit, List, [], ◌∷◌, Option, none, some, Result, ok, err, wrapped, plain,
  api_error, already_exists, invalid, other_reason, ApiReason, GoError, external, plain_about,
  invalid_target, not_full_path, exited_early, if◌then◌else◌, is_empty, Exec, bind, pure, fail,
  lift, with_error, map_error, Bool, true, false, ◌&&◌, has_substring, trim_space, ◌++◌,
}

abbrev pub read_only_sa_name : GoString
read_only_sa_name = lit "capi-shell-mcp-read-only"

abbrev pub read_only_namespace : GoString
read_only_namespace = lit "kube-system"

pub record PolicyRule : Type 0 where
  pub api_groups : List GoString
  pub resources : List GoString
  pub non_resource_urls : List GoString
  pub verbs : List GoString

pub record ClusterRole : Type 0 where
  pub name : GoString
  pub rules : List PolicyRule

pub record RoleRef : Type 0 where
  pub api_group : GoString
  pub kind : GoString
  pub name : GoString

pub record Subject : Type 0 where
  pub kind : GoString
  pub name : GoString
  pub namespace : GoString

pub record ClusterRoleBinding : Type 0 where
  pub name : GoString
  pub role_ref : RoleRef
  pub subjects : List Subject

abbrev pub read_only_cluster_role : ClusterRole
read_only_cluster_role = record {
  name = read_only_sa_name;
  rules =
      record {
        api_groups = lit "*" ∷ [];
        resources = lit "*" ∷ [];
        non_resource_urls = [];
        verbs = lit "get" ∷ lit "list" ∷ lit "watch" ∷ [];
      }
      ∷ record {
        api_groups = [];
        resources = [];
        non_resource_urls = lit "*" ∷ [];
        verbs = lit "get" ∷ [];
      }
      ∷ [];
}

abbrev pub read_only_cluster_role_binding : ClusterRoleBinding
read_only_cluster_role_binding = record {
  name = read_only_sa_name;
  role_ref = record {
    api_group = lit "rbac.authorization.k8s.io";
    kind = lit "ClusterRole";
    name = read_only_sa_name;
  };
  subjects =
      record {
        kind = lit "ServiceAccount";
        name = read_only_sa_name;
        namespace = read_only_namespace;
      }
      ∷ [];
}

-- The account is named by its namespace and name.
pub record RbacApi (W : Type 0) : Type 0 where
  pub create_service_account : GoString → GoString → W → Option GoError × W
  pub create_cluster_role : ClusterRole → W → Option GoError × W
  pub update_cluster_role : ClusterRole → W → Option GoError × W
  pub create_binding : ClusterRoleBinding → W → Option GoError × W
  pub update_binding : ClusterRoleBinding → W → Option GoError × W
  pub delete_binding : GoString → W → Option GoError × W
  pub create_token : GoString → GoString → ℤ → Exec W GoString

-- apierrors.IsAlreadyExists and IsInvalid.
unfoldable pub is_already_exists : GoError → Bool
is_already_exists (api_error already_exists text) = true
is_already_exists _ = false

unfoldable pub is_invalid : GoError → Bool
is_invalid (api_error invalid text) = true
is_invalid _ = false

error_text : GoError → GoString
error_text (api_error reason text) = text
error_text _ = []

-- The text is only looked at for an API error.
unfoldable pub is_immutable_role_ref_error : GoError → Bool
unfolding is_invalid error_text
is_immutable_role_ref_error e =
    is_invalid e
    && (has_substring (error_text e) (lit "roleRef")
        && has_substring (error_text e) (lit "immutable"))

module _ {W : Type 0} (api : RbacApi W) where
  -- A call whose error, if any, ends the function.
  abbrev pub must : GoString → Option GoError × W → Result (Unit {0}) × W
  must what (none, w) = (ok tt, w)
  must what (some e, w) = (err (wrapped what e), w)

  unfoldable pub ensure_account : Exec W (Unit {0})
  unfolding is_already_exists
  ensure_account w =
      let (r, w') = api.create_service_account read_only_namespace read_only_sa_name w in
      elim r [
        | none ↦ (ok tt, w')
        | some e ↦
            if is_already_exists e
            then (ok tt, w')
            else (err (wrapped (lit "capi: creating read-only ServiceAccount") e), w')
      ]

  unfoldable pub ensure_role : Exec W (Unit {0})
  unfolding is_already_exists
  ensure_role w =
      let (r, w') = api.create_cluster_role read_only_cluster_role w in
      elim r [
        | none ↦ (ok tt, w')
        | some e ↦
            if is_already_exists e
            then must (lit "capi: replacing read-only ClusterRole")
                (api.update_cluster_role read_only_cluster_role w')
            else (err (wrapped (lit "capi: creating read-only ClusterRole") e), w')
      ]

  unfoldable pub replace_binding : Exec W (Unit {0})
  unfolding is_immutable_role_ref_error
  replace_binding w =
      let (r, w') = api.update_binding read_only_cluster_role_binding w in
      elim r [
        | none ↦ (ok tt, w')
        | some e ↦
            if is_immutable_role_ref_error e
            then bind
                (λ v.
                  must (lit "capi: deleting read-only ClusterRoleBinding for recreate")
                    (api.delete_binding read_only_sa_name v))
                (λ _ v.
                  must (lit "capi: recreating read-only ClusterRoleBinding")
                    (api.create_binding read_only_cluster_role_binding v))
                w'
            else (err (wrapped (lit "capi: replacing read-only ClusterRoleBinding") e), w')
      ]

  unfoldable pub ensure_binding : Exec W (Unit {0})
  unfolding is_already_exists replace_binding
  ensure_binding w =
      let (r, w') = api.create_binding read_only_cluster_role_binding w in
      elim r [
        | none ↦ (ok tt, w')
        | some e ↦
            if is_already_exists e
            then replace_binding w'
            else (err (wrapped (lit "capi: creating read-only ClusterRoleBinding") e), w')
      ]

  unfoldable pub ensure_read_only_rbac : Exec W (Unit {0})
  unfolding ensure_account ensure_role ensure_binding
  ensure_read_only_rbac = bind ensure_account λ _. bind ensure_role λ _. ensure_binding

-- The first cluster of the admin kubeconfig.
pub record ClusterInfo : Type 0 where
  pub server : GoString
  pub certificate_authority_data : GoString

-- The kubeconfig that is rendered, with the names that it is made of fixed by the code.
pub record ReadOnlyKubeconfig : Type 0 where
  pub cluster : ClusterInfo
  pub user : GoString
  pub namespace : GoString
  pub token : GoString

-- The YAML package reads the clusters of a kubeconfig and renders one.
module _ {W : Type 0} (api : RbacApi W) (parse_clusters : GoString → Result (List ClusterInfo))
    (render : ReadOnlyKubeconfig → Result GoString) where
  abbrev pub read_only_with : ClusterInfo → GoString → ReadOnlyKubeconfig
  read_only_with info token = record {
    cluster = info;
    user = read_only_sa_name;
    namespace = read_only_namespace;
    token = token;
  }

  -- What follows the request for a token.
  unfoldable pub render_with : ClusterInfo → GoString → Result GoString
  render_with info requested =
      if is_empty (trim_space requested)
      then err (plain (lit "createReadOnlyKubeconfig: token request returned no token"))
      else map_error (wrapped (lit "capi: rendering read-only kubeconfig"))
          (render (read_only_with info (trim_space requested)))

  unfoldable pub mint_for : List ClusterInfo → ℤ → Exec W GoString
  unfolding render_with
  mint_for [] duration_seconds =
      fail (plain (lit "createReadOnlyKubeconfig: no cluster found in admin kubeconfig"))
  mint_for (info ∷ _) duration_seconds = bind (ensure_read_only_rbac api) λ _.
      bind
        (λ w.
          with_error (wrapped (lit "capi: requesting read-only token"))
            (api.create_token read_only_namespace read_only_sa_name duration_seconds w))
        λ requested. lift (render_with info requested)

  unfoldable pub create_read_only_kubeconfig : GoString → ℤ → Exec W GoString
  unfolding mint_for
  create_read_only_kubeconfig admin_kc duration_seconds =
      bind
        (lift
          (map_error (wrapped (lit "capi: parsing admin kubeconfig")) (parse_clusters admin_kc)))
        λ clusters. mint_for clusters duration_seconds
