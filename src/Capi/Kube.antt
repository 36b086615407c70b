-- ===== src/Capi/Kube.antt =====
-- The functions of internal/capi that read Kubernetes objects: clusters.go, kubeconfig_fetch.go,
-- openstack.go. The client libraries and the YAML package are the fields of `KubeApi`: `C` are clients,
-- `O` objects, `W` the world.
pub mod Environment
pub mod Listing
mod Examples
use capi_shell_mcp.Base.{
  GoString, lit, List, [], ◌∷◌, ◌++◌, Map, lookup, insert, str_eq, Option, none, some, Result, ok,
  ◌>>=◌, wrapped, plain_about, if◌then◌else◌, is_empty, Exec, bind, pure, fail, lift, itoa, map,
  ◌||◌, Bool, true, false, with_error, map_error, ◌+◌,
}
use capi_shell_mcp.Capi.Target.{CapiCluster}
use capi_shell_mcp.Capi.Jq.{Jq, or_empty, eval_custom_fields}
use capi_shell_mcp.Config.{ℤ, pos, negsuc, print_int}

-- What a field of an object may hold.
pub data FieldValue : Type 0 where
  text : GoString → FieldValue
  int64 : ℤ → FieldValue
  -- A float64 by its whole part.
  float64 : ℤ → FieldValue
  other : FieldValue

-- One entry of clouds.yaml.
pub record Cloud : Type 0 where
  pub auth : Map GoString GoString
  pub region_name : GoString
  pub cacert : GoString
  pub auth_type : GoString
  pub interface_name : GoString
  pub identity_api_version : GoString

pub record KubeApi (W C O : Type 0) : Type 0 where
  pub list_clusters : C → Exec W (List O)
  pub namespace_of : O → GoString
  pub name_of : O → GoString
  pub jq : Jq O
  pub get_secret : C → GoString → GoString → Exec W (Map GoString GoString)
  -- The OpenStackClusters of a namespace with a label.
  pub list_openstack : C → GoString → GoString → Exec W (List O)
  pub nested_string_slice : O → List GoString → List GoString
  pub parse_clouds : GoString → Result (Map GoString Cloud)
  pub nested_field : O → List GoString → Option FieldValue

-- unstructured.NestedString, whose error is dropped: a field of another type is "".
abbrev pub string_or_empty : Option FieldValue → GoString
string_or_empty (some (text s)) = s
string_or_empty (some (int64 n)) = []
string_or_empty (some (float64 n)) = []
string_or_empty (some other) = []
string_or_empty none = []

unfoldable pub string_or_number : Option FieldValue → GoString
string_or_number (some (text s)) = s
string_or_number (some (int64 n)) = print_int n
string_or_number (some (float64 n)) = print_int n
string_or_number (some other) = []
string_or_number none = []

-- "if i < len(fieldValues) && len(fieldValues[i]) > 0"
unfoldable pub add_custom_fields :
    List CapiCluster → List (Map GoString GoString) → List CapiCluster
add_custom_fields [] vs = []
add_custom_fields (c ∷ cs) [] = c ∷ add_custom_fields cs []
add_custom_fields (c ∷ cs) ([] ∷ vs) = c ∷ add_custom_fields cs vs
add_custom_fields (c ∷ cs) ((kv ∷ v) ∷ vs) =
    record c { custom_fields = kv ∷ v } ∷ add_custom_fields cs vs

abbrev pub none_of {ℓ} : {A : Type ℓ} → List A → Bool
none_of [] = true
none_of (x ∷ xs) = false

abbrev first_of_list {ℓ} : {A : Type ℓ} → List A → Option A
first_of_list [] = none
first_of_list (x ∷ xs) = some x

-- The `set` of `FetchOpenStackEnv`.
unfoldable pub set_env : GoString → GoString → Map GoString GoString → Map GoString GoString
set_env k v env = if is_empty v then env else insert k v env

unfoldable pub cloud_env : Cloud → Map GoString GoString
cloud_env cloud =
    let auth = λ (k : GoString). or_empty (lookup k cloud.auth) in
    let auth_type = if is_empty cloud.auth_type then auth (lit "auth_type") else cloud.auth_type in
    set_env (lit "OS_IDENTITY_API_VERSION") cloud.identity_api_version (
      set_env (lit "OS_INTERFACE") cloud.interface_name (
        set_env (lit "OS_AUTH_TYPE") auth_type (
          set_env (lit "OS_APPLICATION_CREDENTIAL_SECRET")
            (auth (lit "application_credential_secret"))
            (set_env (lit "OS_APPLICATION_CREDENTIAL_ID") (auth (lit "application_credential_id")) (
              set_env (lit "OS_CACERT") cloud.cacert (
                set_env (lit "OS_REGION_NAME") cloud.region_name (
                  set_env (lit "OS_PROJECT_DOMAIN_NAME") (auth (lit "project_domain_name")) (
                    set_env (lit "OS_USER_DOMAIN_NAME") (auth (lit "user_domain_name")) (
                      set_env (lit "OS_PROJECT_NAME") (auth (lit "project_name")) (
                        set_env (lit "OS_PASSWORD") (auth (lit "password")) (
                          set_env (lit "OS_USERNAME") (auth (lit "username"))
                            (set_env (lit "OS_AUTH_URL") (auth (lit "auth_url")) []))))))))))))

module _ {W C O : Type 0} (api : KubeApi W C O) where
  abbrev pub cluster_for : GoString → GoString → O → CapiCluster
  cluster_for kubeconfig_name context item = record {
    kubeconfig_name = kubeconfig_name;
    context = context;
    namespace = api.namespace_of item;
    name = api.name_of item;
    custom_fields = [];
  }

  unfoldable pub with_custom_fields :
      List O → Map GoString GoString → List CapiCluster → Result (List CapiCluster)
  unfolding add_custom_fields
  with_custom_fields items custom_fields clusters =
      if none_of items || none_of custom_fields
      then ok clusters
      else map_error (wrapped (lit "capi: evaluating custom_fields"))
          (eval_custom_fields api.jq items custom_fields)
        >>= (λ values. ok (add_custom_fields clusters values))

  unfoldable pub list_clusters_for_context :
      C → GoString → GoString → Map GoString GoString → Exec W (List CapiCluster)
  unfolding with_custom_fields
  list_clusters_for_context client kubeconfig_name context custom_fields =
      bind (λ w. with_error (wrapped (lit "capi: listing clusters")) (api.list_clusters client w))
        λ items.
          lift (
            with_custom_fields items custom_fields
              (map (cluster_for kubeconfig_name context) items))

  unfoldable pub fetch_workload_kubeconfig : C → GoString → GoString → Exec W GoString
  fetch_workload_kubeconfig client namespace cluster_name =
      let name = cluster_name ++ lit "-kubeconfig" in
      bind
        (λ w.
          with_error (wrapped (lit "capi: fetching secret " ++ (namespace ++ (b'/' ∷ name))))
            (api.get_secret client namespace name w))
        λ secret.
          let value = or_empty (lookup (lit "value") secret) in
          if is_empty value
          then fail (plain_about (lit "fetchWorkloadKubeconfig: no 'value' key") name)
          else pure value

  unfoldable pub fetch_openstack_cluster : C → GoString → GoString → Exec W (Option O)
  fetch_openstack_cluster client namespace cluster_name =
      bind
        (λ w. with_error (wrapped (lit "capi: listing OpenStackClusters")) (
          api.list_openstack client namespace (lit "cluster.x-k8s.io/cluster-name=" ++ cluster_name)
            w))
        λ items. pure (first_of_list items)

  -- `host`, `port` and `ok=true`, or nothing for `ok=false`.
  abbrev pub server_info : O → Option (GoString × GoString)
  server_info osc =
      let host =
        string_or_empty
          (api.nested_field osc (lit "spec" ∷ lit "controlPlaneEndpoint" ∷ lit "host" ∷ [])) in
      let port =
        string_or_number
          (api.nested_field osc (lit "spec" ∷ lit "controlPlaneEndpoint" ∷ lit "port" ∷ [])) in
      if none_of (
        api.nested_string_slice osc
          (lit "spec" ∷ lit "apiServerLoadBalancer" ∷ lit "allowedCIDRs" ∷ []))
      then none
      else if is_empty host || is_empty port
      then none
      else some (host, port)

  unfoldable pub fetch_api_server_info :
      C → GoString → GoString → Exec W (Option (GoString × GoString))
  unfolding fetch_openstack_cluster string_or_number
  fetch_api_server_info client namespace cluster_name =
      bind (fetch_openstack_cluster client namespace cluster_name)
        λ found. pure (elim found [ none ↦ none | some osc ↦ server_info osc ])

  unfoldable pub fetch_openstack_env : C → GoString → GoString → Exec W (Map GoString GoString)
  unfolding fetch_openstack_cluster cloud_env
  fetch_openstack_env client namespace cluster_name =
      bind (fetch_openstack_cluster client namespace cluster_name) λ found. elim found [
        | none ↦ fail (plain_about (lit "No OpenStackCluster found for cluster") cluster_name)
        | some osc ↦
            let named =
              string_or_empty
                (api.nested_field osc (lit "spec" ∷ lit "identityRef" ∷ lit "name" ∷ [])) in
            let secret_name =
              if is_empty named then cluster_name ++ lit "-cloud-config" else named in
            let cloud_field =
              string_or_empty (api.nested_field osc (lit "spec" ∷ lit "cloudName" ∷ [])) in
            let cloud_name = if is_empty cloud_field then lit "openstack" else cloud_field in
            bind
              (λ w.
                with_error
                  (wrapped (lit "capi: fetching secret " ++ (namespace ++ (b'/' ∷ secret_name))))
                  (api.get_secret client namespace secret_name w))
              λ secret.
                let raw = or_empty (lookup (lit "clouds.yaml") secret) in
                if is_empty raw
                then fail (plain_about (lit "Secret has no 'clouds.yaml' key") secret_name)
                else bind
                    (lift (
                      map_error (wrapped (lit "capi: parsing clouds.yaml")) (api.parse_clouds raw)))
                    λ clouds. elim (lookup cloud_name clouds) [
                      | none ↦ fail (plain_about (lit "OpenStack cloud not found") cloud_name)
                      | some cloud ↦ pure (cloud_env cloud)
                    ]
      ]
