-- ===== src/Capi/Kube/Listing.antt =====
-- The listing of the clusters of a context.
use capi_shell_mcp.Base.{
  GoString, lit, List, [], ◌∷◌, Map, lookup, str_eq, some, ok, Result, map, All, with_error,
  wrapped, continue-eq-ok, Bool-cases, Option-cases, inl, inr, subst, >>=-eq-ok, Result-cases,
  with_error-eq-ok, ap, ◌||◌, ◌≡◌, refl, sym, ◌∙◌, arith,
}
use capi_shell_mcp.Config.Yaml.{Yaml, as_object, as_list}
use capi_shell_mcp.Capi.Target.{CapiCluster, fields}
use capi_shell_mcp.Capi.Jq.{
  Jq, jq_items, first_value, expect_list, custom_query, texts_in, fields_in, eval_custom_fields,
}
use capi_shell_mcp.Capi.Kube.{
  KubeApi, add_custom_fields, list_clusters_for_context, none_of, cluster_for, with_custom_fields,
}
use capi_shell_mcp.Capi.Kube.Environment.{HasValues, nothing-HasValues}

texts_in-HasValues : (m : Map GoString Yaml) → HasValues (texts_in m)
unfolding texts_in lookup
texts_in-HasValues [] k h = absurd (cc)
texts_in-HasValues ((j, v) ∷ m) k h = ground (arith, texts_in-HasValues m k)

fields_in-HasValues : (v : Yaml) → HasValues (fields_in v)
fields_in-HasValues v = elim (Option-cases (as_object (some v))) [
  | inl no_object ↦ rw (no_object, fields_in) nothing-HasValues
  | inr (obj, there) ↦ rw (there, fields_in) (texts_in-HasValues obj)
]

map-fields_in-HasValues : (vs : List Yaml) → All HasValues (map fields_in vs)
map-fields_in-HasValues [] = tt
map-fields_in-HasValues (v ∷ vs) = (fields_in-HasValues v, map-fields_in-HasValues vs)

eval_custom_fields-HasValues :
    {O : Type 0} (jq : Jq O) (items : List O) (custom_fields : Map GoString GoString)
    (vs : List (Map GoString GoString))
    → eval_custom_fields jq items custom_fields ≡ ok vs
    → All HasValues vs
unfolding eval_custom_fields
eval_custom_fields-HasValues jq items custom_fields vs h =
    let (code, _, h1) = >>=-eq-ok (jq.compile (custom_query jq custom_fields)) _ h in
    let (v, _, h2) =
      >>=-eq-ok (first_value (lit "jq: produced no output") (code (jq_items items))) _ h1 in
    let (results, _, h3) = >>=-eq-ok (expect_list (as_list (some v))) _ h2 in
    let same : map fields_in results ≡ vs = ground arith in
    subst (All HasValues) same (map-fields_in-HasValues results)

add_custom_fields-fields :
    (cs : List CapiCluster) (vs : List (Map GoString GoString))
    → map fields (add_custom_fields cs vs) ≡ map fields cs
unfolding add_custom_fields
add_custom_fields-fields [] vs = refl
add_custom_fields-fields (c ∷ cs) [] =
    ap (λ (r : List (List GoString)). fields c ∷ r) (add_custom_fields-fields cs [])
add_custom_fields-fields (c ∷ cs) ([] ∷ vs) =
    ap (λ (r : List (List GoString)). fields c ∷ r) (add_custom_fields-fields cs vs)
add_custom_fields-fields (c ∷ cs) ((kv ∷ v) ∷ vs) =
    ap (λ (r : List (List GoString)). fields c ∷ r) (add_custom_fields-fields cs vs)

abbrev pub AllHaveValues : List CapiCluster → Type 0
AllHaveValues = All (λ c. HasValues c.custom_fields)

add_custom_fields-HasValues :
    (cs : List CapiCluster) (vs : List (Map GoString GoString))
    → AllHaveValues cs
    → All HasValues vs
    → AllHaveValues (add_custom_fields cs vs)
unfolding add_custom_fields
add_custom_fields-HasValues [] vs h g = tt
add_custom_fields-HasValues (c ∷ cs) [] (hc, h) g = (hc, add_custom_fields-HasValues cs [] h tt)
add_custom_fields-HasValues (c ∷ cs) ([] ∷ vs) (hc, h) (gv, g) =
    (hc, add_custom_fields-HasValues cs vs h g)
add_custom_fields-HasValues (c ∷ cs) ((kv ∷ v) ∷ vs) (hc, h) (gv, g) =
    (gv, add_custom_fields-HasValues cs vs h g)

module _ {W C O : Type 0} (api : KubeApi W C O) (kubeconfig_name context : GoString) where
  no_fields-HasValues :
      (items : List O) → AllHaveValues (map (cluster_for api kubeconfig_name context) items)
  no_fields-HasValues [] = tt
  no_fields-HasValues (item ∷ items) = (nothing-HasValues, no_fields-HasValues items)

  abbrev pub named_after : O → List GoString
  named_after item = kubeconfig_name ∷ context ∷ api.namespace_of item ∷ api.name_of item ∷ []

  fields-cluster_for :
      (items : List O)
      → map fields (map (cluster_for api kubeconfig_name context) items) ≡ map named_after items
  fields-cluster_for [] = refl
  fields-cluster_for (item ∷ items) =
      ap (λ (r : List (List GoString)). named_after item ∷ r) (fields-cluster_for items)

  with_custom_fields_lem :
      (custom_fields : Map GoString GoString) (items : List O) (clusters : List CapiCluster)
      → with_custom_fields api items custom_fields
          (map (cluster_for api kubeconfig_name context) items)
        ≡ ok clusters
      → (map fields clusters ≡ map named_after items) × AllHaveValues clusters
  unfolding with_custom_fields
  with_custom_fields_lem custom_fields items clusters h =
      let bare = map (cluster_for api kubeconfig_name context) items in
      elim (Bool-cases (none_of items || none_of custom_fields)) [
        | inl nothing ↦
            let same : bare ≡ clusters = ground arith in
            (
              ap (map fields) (sym same) ∙ fields-cluster_for items,
              subst AllHaveValues same (no_fields-HasValues items),
            )
        | inr some_fields ↦ elim (Result-cases (eval_custom_fields api.jq items custom_fields)) [
          | inl (vs, evaluated) ↦
              let same : add_custom_fields bare vs ≡ clusters = ground arith in
              (
                ap (map fields) (sym same)
                    ∙ add_custom_fields-fields bare vs
                    ∙ fields-cluster_for items,
                subst AllHaveValues same (
                    add_custom_fields-HasValues bare vs (no_fields-HasValues items)
                      (eval_custom_fields-HasValues api.jq items custom_fields vs evaluated)),
              )
          | inr (e, bad) ↦ absurd (ground arith)
        ]
      ]

  -- A listing that succeeds has one cluster for each object that the server lists, in the same order,
  -- with its namespace and name; and whatever the jq expressions give, no custom field of a cluster
  -- has an empty value.
  pub list_clusters_for_context_lem :
      (custom_fields : Map GoString GoString) (client : C) (w w' : W) (clusters : List CapiCluster)
      → list_clusters_for_context api client kubeconfig_name context custom_fields w
        ≡ (ok clusters, w')
      → (items : List O) × ((api.list_clusters client w).0 ≡ ok items)
        × (map fields clusters ≡ map named_after items)
        × AllHaveValues clusters
  unfolding list_clusters_for_context
  list_clusters_for_context_lem custom_fields client w w' clusters h =
      let listed = api.list_clusters client w in
      let (items, found, h1) =
        continue-eq-ok (with_error (wrapped (lit "capi: listing clusters")) listed) _ h in
      let evaluated : with_custom_fields api items custom_fields
            (map (cluster_for api kubeconfig_name context) items)
          ≡ ok clusters =
        ap (λ (r : Result (List CapiCluster) × W). r.0) h1 in
      let (named, values) = with_custom_fields_lem custom_fields items clusters evaluated in
      (items, with_error-eq-ok _ listed items found, named, values)
