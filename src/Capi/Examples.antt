-- ===== src/Capi/Examples.antt =====
-- Tests and instances for targets, patterns, the selection of clusters and the cache keys.
use capi_shell_mcp.Base.{
  GoString, lit, List, [], ◌∷◌, ok, err, Result, invalid_target, wrong_shape, too_many_segments,
  split, contains, str_eq, ◌≡◌, ◌↔◌, Lacks, refl, All, Elem, Distinct, true, false,
}
use capi_shell_mcp.Capi.Target.{
  CapiCluster, TargetParts, parse_target, format_target, parts_of, fields, slash,
}
use capi_shell_mcp.Capi.Target.RoundTrip.{parse_target-format_target_iff}
use capi_shell_mcp.Capi.Pattern.{TargetPattern, parse_target_pattern, matches}
use capi_shell_mcp.Capi.Pattern.Prefix.{IsPrefix, matches_iff_prefix}
use capi_shell_mcp.Capi.Resolve.{resolve_cluster_patterns, parse_all}
use capi_shell_mcp.Capi.Resolve.Select.{AnySelects, resolve_cluster_patterns_selects}

parse_target_test : parse_target (lit "a/b/c") ≡ err (invalid_target wrong_shape (lit "a/b/c"))
unfolding parse_target split
parse_target_test = refl

too_long_test :
    parse_target_pattern (lit "a/b/c/d/e")
    ≡ err (invalid_target too_many_segments (lit "a/b/c/d/e"))
unfolding parse_target_pattern split contains
too_long_test = refl

abbrev web : CapiCluster
web = record {
  kubeconfig_name = lit "prod";
  context = lit "admin";
  namespace = lit "team";
  name = lit "web";
  custom_fields = [];
}

abbrev web_parts : TargetParts
web_parts = record {
  kubeconfig_name = lit "prod";
  context = lit "admin";
  namespace = lit "team";
  name = lit "web";
}

abbrev web_target : GoString
web_target = lit "prod/admin/team/web"

web_accepted : parse_target web_target ≡ ok web_parts
unfolding parse_target split
web_accepted = refl

parse_target-format_target_iff_example :
    (parse_target (format_target web) ≡ ok (parts_of web)) ↔ All (Lacks slash) (fields web)
parse_target-format_target_iff_example = parse_target-format_target_iff web

-- A pattern of two segments, and one of four.
abbrev partial : TargetPattern
partial = record { kubeconfig_name = lit "prod"; context = lit "admin"; namespace = []; name = [] }

partial_accepted : parse_target_pattern (lit "prod/admin") ≡ ok partial
unfolding parse_target_pattern split contains
partial_accepted = refl

abbrev exact : TargetPattern
exact = record {
  kubeconfig_name = lit "prod";
  context = lit "admin";
  namespace = lit "team";
  name = lit "web";
}

exact_accepted : parse_target_pattern web_target ≡ ok exact
unfolding parse_target_pattern split contains
exact_accepted = refl

matches_iff_prefix_example :
    (matches partial web ≡ true) ↔ IsPrefix (split slash (lit "prod/admin")) (fields web)
matches_iff_prefix_example = matches_iff_prefix web (lit "prod/admin") partial partial_accepted

-- A listing of two clusters.
abbrev db : CapiCluster
db = record web { name = lit "db" }

abbrev list_two : Unit {0} → Result (List CapiCluster) × Unit {0}
list_two w = (ok (web ∷ db ∷ []), w)

abbrev two_patterns : List GoString
two_patterns = lit "prod/admin" ∷ web_target ∷ []

two_accepted : parse_all two_patterns ≡ ok (partial ∷ exact ∷ [])
unfolding parse_all parse_target_pattern split contains
two_accepted = refl

resolve_cluster_patterns_selects_example :
    (out : List GoString) × ((resolve_cluster_patterns two_patterns list_two false tt).0 ≡ ok out)
    × Distinct out
    × ((t : GoString) → Elem t out ↔ AnySelects (web ∷ db ∷ []) two_patterns t)
resolve_cluster_patterns_selects_example =
    resolve_cluster_patterns_selects list_two tt tt two_patterns (partial ∷ exact ∷ [])
      (web ∷ db ∷ []) two_accepted refl
