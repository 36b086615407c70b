-- ===== src/Server/Owner/Examples.antt =====
-- Instances for the owners of kubeconfigs. Secrets have no colon in their names.
use capi_shell_mcp.Base.{
  ℕ, ◌+◌, GoString, lit, List, [], ◌∷◌, nat_eq, nat_beq_iff, str_eq, lookup, ok, err, external,
  Option, some, none, false, contains, Lacks, if◌then◌else◌, ◌||◌, get_elem?, ◌≡◌, refl, arith,
}
use capi_shell_mcp.Cache
use capi_shell_mcp.Capi.Keys.{colon}
use capi_shell_mcp.Capi.Kube.{KubeApi, Cloud, FieldValue, text, fetch_workload_kubeconfig}
use capi_shell_mcp.Server.Examples.{api, out, cfg, prod, full_parts, fresh_state}
use capi_shell_mcp.Server.Kubeconfig.{use_cached, transform_of, proxy_for, store_kubeconfig}
use capi_shell_mcp.Server.Owner.{NamesHaveNoColon, HasPlainNames, IsOf}
use capi_shell_mcp.Server.Owner.Calls.{Call, returned, advance}
use capi_shell_mcp.Server.Owner.Calls.Interleave.{
  Happening, arrives, continues, world_changes, run_all,
}
use capi_shell_mcp.Server.Owner.Calls.Sound.{calls_return_own}

-- The only cluster has an API server that few may reach, and a cloud.
abbrev cloud : Cloud
cloud = record {
  auth = [];
  region_name = lit "eu";
  cacert = [];
  auth_type = [];
  interface_name = [];
  identity_api_version = [];
}

abbrev openstack_field : List GoString → Option FieldValue
openstack_field path =
    if contains path (lit "host")
    then some (text (lit "10.1.2.3"))
    else if contains path (lit "port")
    then some (text (lit "6443"))
    else none

abbrev pub strict_api : KubeApi ℕ (Unit {0}) (Unit {0})
strict_api = record api {
  get_secret = λ c ns n w.
      if contains ns colon || contains n colon
      then (err (external (lit "invalid name")), w)
      else (ok ((lit "value", lit "kc") ∷ (lit "clouds.yaml", lit "clouds") ∷ []), w + 1);
  list_openstack = λ c ns n w. (ok (tt ∷ []), w);
  nested_string_slice = λ o path. lit "10.0.0.0/8" ∷ [];
  parse_clouds = λ t. ok ((lit "openstack", cloud) ∷ []);
  nested_field = λ o path. openstack_field path;
}

plain_text : (s : GoString) → contains s colon ≡ false → Lacks colon s
unfolding contains
plain_text [] h = tt
plain_text (c ∷ s) h = (ground (arith, nat_beq_iff colon c), plain_text s (ground arith))

pub strict_api-no_colon : NamesHaveNoColon strict_api
strict_api-no_colon c ns n w secret h = (plain_text ns (ground arith), plain_text n (ground arith))

pub cfg-HasPlainNames : HasPlainNames cfg
unfolding lookup
cfg-HasPlainNames = record { named = λ n src h. ground arith; plain = λ n src h. ground arith }

pub plain_namespace : Lacks colon full_parts.namespace
unfolding contains
plain_namespace = plain_text full_parts.namespace refl

pub plain_name : Lacks colon full_parts.name
unfolding contains
plain_name = plain_text full_parts.name refl

-- Two calls for the same cluster, neither of which finds the kubeconfig of the other.
abbrev crossed : List (Happening ℕ)
crossed =
    arrives full_parts
    ∷ arrives full_parts
    ∷ continues 0
    ∷ continues 1
    ∷ continues 0
    ∷ continues 1
    ∷ continues 1
    ∷ world_changes (λ w. w + 1)
    ∷ continues 0
    ∷ continues 1
    ∷ continues 1
    ∷ continues 0
    ∷ continues 0
    ∷ []

abbrev finished_call : Call (Unit {0})
finished_call = record {
  src = prod;
  ctx = lit "admin";
  ns = lit "team";
  n = lit "web";
  stage = returned (ok (lit "kc"));
}

first_returned :
    get_elem?
      (run_all strict_api out cfg crossed (record { server = fresh_state; calls = [] })).calls
      0
    ≡ some finished_call
unfolding run_all advance lookup contains Cache.get use_cached transform_of proxy_for
    store_kubeconfig fetch_workload_kubeconfig
first_returned = refl

calls_return_own_example :
    IsOf strict_api out cfg prod (lit "admin") (lit "team") (lit "web") (lit "kc")
calls_return_own_example =
    calls_return_own strict_api out cfg strict_api-no_colon cfg-HasPlainNames crossed fresh_state 0
      finished_call (lit "kc") refl first_returned refl plain_namespace plain_name
