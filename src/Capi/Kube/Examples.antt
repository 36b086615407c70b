-- ===== src/Capi/Kube/Examples.antt =====
-- An instance for the listing of clusters: one object, and a jq that gives two fields for it, one of
-- them empty.
use capi_shell_mcp.Base.{GoString, lit, List, [], ◌∷◌, Map, str_eq, some, none, ok, map, ◌≡◌, refl}
use capi_shell_mcp.Config.Yaml.{Yaml, text, list, object, item, nil, field, end, map_of, list_of}
use capi_shell_mcp.Capi.Target.{CapiCluster, fields}
use capi_shell_mcp.Capi.Jq.{Jq, eval_custom_fields, texts_in}
use capi_shell_mcp.Capi.Kube.{
  KubeApi, list_clusters_for_context, with_custom_fields, add_custom_fields,
}
use capi_shell_mcp.Capi.Kube.Listing.{AllHaveValues, named_after, list_clusters_for_context_lem}

abbrev one_result : Yaml
one_result =
    list (
      item (object (field (lit "team") (text (lit "core")) (field (lit "note") (text []) end))) nil)

abbrev constant_jq : Jq (Unit {0})
constant_jq = record {
  compile = λ q. ok (λ input. some (ok one_result));
  quote = λ s. s;
  decode = λ s. ok (text s);
  encode = λ v. ok [];
}

abbrev api : KubeApi (Unit {0}) (Unit {0}) (Unit {0})
api = record {
  list_clusters = λ c w. (ok (tt ∷ []), w);
  namespace_of = λ o. lit "team";
  name_of = λ o. lit "web";
  jq = constant_jq;
  get_secret = λ c ns n w. (ok [], w);
  list_openstack = λ c ns n w. (ok [], w);
  nested_string_slice = λ o path. [];
  parse_clouds = λ t. ok [];
  nested_field = λ o path. none;
}

abbrev expressions : Map GoString GoString
expressions = (lit "team", lit ".team") ∷ (lit "note", lit ".note") ∷ []

abbrev web : CapiCluster
web = record {
  kubeconfig_name = lit "prod";
  context = lit "admin";
  namespace = lit "team";
  name = lit "web";
  custom_fields = (lit "team", lit "core") ∷ [];
}

listed :
    list_clusters_for_context api tt (lit "prod") (lit "admin") expressions tt ≡ (ok (web ∷ []), tt)
unfolding list_clusters_for_context with_custom_fields add_custom_fields eval_custom_fields texts_in
    map_of list_of
listed = refl

list_clusters_for_context_lem_example :
    (items : List (Unit {0})) × ((api.list_clusters tt tt).0 ≡ ok items)
    × (map fields (web ∷ []) ≡ map (named_after api (lit "prod") (lit "admin")) items)
    × AllHaveValues (web ∷ [])
list_clusters_for_context_lem_example =
    list_clusters_for_context_lem api (lit "prod") (lit "admin") expressions tt tt tt (web ∷ [])
      listed
