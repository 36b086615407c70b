-- ===== src/Capi/Jq.antt =====
-- The jq expressions of the configuration: evalCustomFields of internal/capi/clusters.go and
-- internal/capi/transform.go.
use capi_shell_mcp.Base.{
  GoString, lit, List, [], ◌∷◌, ◌++◌, Map, lookup, keys, str_eq, Option, none, some, Result, ok,
  err, ◌>>=◌, wrapped, plain, map_error, if◌then◌else◌, is_empty, sort_strings, map, join_with,
}
use capi_shell_mcp.Config.{KubeconfigTransforms}
use capi_shell_mcp.Config.Yaml.{Yaml, as_text, as_object, as_list}

-- What a query runs on: {"items": items}, or a decoded document.
pub data JqInput (O : Type 0) : Type 0 where
  jq_items : List O → JqInput O
  jq_document : Yaml → JqInput O

pub record Jq (O : Type 0) : Type 0 where
  -- gojq.Parse and gojq.Compile; the compiled query gives the first value of its iterator, if there is
  -- one, which may be an error.
  pub compile : GoString → Result (JqInput O → Option (Result Yaml))
  -- %q
  pub quote : GoString → GoString
  -- yaml.Unmarshal into an `any`, and yaml.Marshal.
  pub decode : GoString → Result Yaml
  pub encode : Yaml → Result GoString

-- m[k], which is "" for a missing key.
abbrev pub or_empty : Option GoString → GoString
or_empty none = []
or_empty (some s) = s

-- The first value of a run, with the error that stands for none.
abbrev pub first_value : GoString → Option (Result Yaml) → Result Yaml
first_value nothing none = err (plain nothing)
first_value nothing (some r) = r

-- One iteration of the loop over an object: the texts that are not empty.
unfoldable pub texts_in : Map GoString Yaml → Map GoString GoString
texts_in [] = []
texts_in ((k, v) ∷ fs) =
    let rest = texts_in fs in
    elim (as_text (some v)) [ none ↦ rest | some s ↦ if is_empty s then rest else (k, s) ∷ rest ]

-- A result that is no object has no fields.
abbrev pub fields_in : Yaml → Map GoString GoString
fields_in v = elim (as_object (some v)) [ none ↦ [] | some obj ↦ texts_in obj ]

abbrev pub expect_list : Option (List Yaml) → Result (List Yaml)
expect_list none = err (plain (lit "jq: expected an array result"))
expect_list (some vs) = ok vs

-- One `if` of `ApplyKubeconfigTransform`, before the parts that follow.
transform_part : GoString → GoString → List GoString → List GoString
transform_part field e rest =
    if is_empty e then rest else (field ++ (lit " |= map(" ++ (e ++ lit ")"))) ∷ rest

unfoldable pub transform_query : KubeconfigTransforms → GoString
unfolding transform_part
transform_query t = join_with (lit " | ") (
    transform_part (lit ".clusters") t.clusters
      (transform_part (lit ".contexts") t.contexts (transform_part (lit ".users") t.users [])))

module _ {O : Type 0} (jq : Jq O) where
  custom_part : Map GoString GoString → GoString → GoString
  custom_part custom_fields k =
      jq.quote k ++ (lit ": (" ++ (or_empty (lookup k custom_fields) ++ lit ")"))

  unfoldable pub custom_query : Map GoString GoString → GoString
  unfolding custom_part
  custom_query custom_fields =
      lit "[.items[] | {"
      ++ (join_with (lit ", ") (map (custom_part custom_fields) (sort_strings (keys custom_fields)))
          ++ lit "}]")

  unfoldable pub eval_custom_fields :
      List O → Map GoString GoString → Result (List (Map GoString GoString))
  eval_custom_fields items custom_fields = jq.compile (custom_query custom_fields) >>= λ code.
      first_value (lit "jq: produced no output") (code (jq_items items)) >>= λ v.
      expect_list (as_list (some v)) >>= λ results. ok (map fields_in results)

  unfoldable pub apply_kubeconfig_transform : GoString → KubeconfigTransforms → Result GoString
  apply_kubeconfig_transform kc t = jq.compile (transform_query t) >>= λ code.
      map_error (wrapped (lit "capi: parsing kubeconfig for transform")) (jq.decode kc) >>= λ input.
      first_value (lit "jq: transform produced no output") (code (jq_document input)) >>= λ v.
      map_error (wrapped (lit "capi: rendering transformed kubeconfig")) (jq.encode v)
