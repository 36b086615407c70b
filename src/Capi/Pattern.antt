-- ===== src/Capi/Pattern.antt =====
-- internal/capi/target_pattern.go.
pub mod Prefix
pub mod Exact
use capi_shell_mcp.Base.{
  ℕ, List, [], ◌∷◌, GoString, lit, split, Result, ok, err, invalid_target, must_not_be_empty,
  too_many_segments, empty_segment, ◌≡◌, refl, Bool, true, false, not, ◌&&◌, ◌++◌, ltb, length,
  contains, is_empty, if◌then◌else◌, get_or, ◌==◌, str_eq,
}
use capi_shell_mcp.Capi.Target.{CapiCluster, slash, format_target}

pub record TargetPattern : Type 0 where
  pub kubeconfig_name : GoString
  pub context : GoString
  pub namespace : GoString
  pub name : GoString

unfoldable pub is_exact : TargetPattern → Bool
is_exact p = not (is_empty p.context) && (not (is_empty p.namespace) && not (is_empty p.name))

-- The fields are filled from the left; `get_or parts i []` is parts[i], or "" past the end.
abbrev pub pattern_of : List GoString → TargetPattern
pattern_of parts = record {
  kubeconfig_name = get_or parts 0 [];
  context = get_or parts 1 [];
  namespace = get_or parts 2 [];
  name = get_or parts 3 [];
}

unfoldable pub parse_target_pattern : GoString → Result TargetPattern
parse_target_pattern target =
    let parts = split slash target in
    if is_empty target
    then err (invalid_target must_not_be_empty target)
    else if ltb 4 (length parts)
    then err (invalid_target too_many_segments target)
    else if contains parts []
    then err (invalid_target empty_segment target)
    else ok (pattern_of parts)

-- One `p.F != "" && c.F != p.F` test: a set field that differs.
field_differs : GoString → GoString → Bool
field_differs p c = not (is_empty p) && not (c == p)

unfoldable pub matches : TargetPattern → CapiCluster → Bool
unfolding field_differs
matches p c =
    if not (c.kubeconfig_name == p.kubeconfig_name)
    then false
    else if field_differs p.context c.context
    then false
    else if field_differs p.namespace c.namespace
    then false
    else if field_differs p.name c.name
    then false
    else true

-- The loop appends the target of every cluster that matches.
unfoldable pub expand_target_pattern : TargetPattern → List CapiCluster → List GoString
unfolding matches
expand_target_pattern p [] = []
expand_target_pattern p (c ∷ all) =
    let rest = expand_target_pattern p all in if matches p c then format_target c ∷ rest else rest
