-- ===== src/Capi/Resolve.antt =====
-- internal/capi/resolve_patterns.go. `list_known` is a callback with effects, so it acts on a
-- world `W` that the function passes on.
pub mod Dedupe
pub mod Strict
pub mod Select
use capi_shell_mcp.Base.{
  List, [], ◌∷◌, ◌++◌, GoString, lit, Map, lookup, insert, str_eq, Result, ok, err, ◌>>=◌,
  not_full_path, ◌≡◌, refl, Bool, true, false, not, ◌&&◌, Option, none, some, if◌then◌else◌,
}
use capi_shell_mcp.Capi.Target.{CapiCluster, TargetParts, parse_target, format_target, cluster_of}
use capi_shell_mcp.Capi.Pattern.{
  TargetPattern, parse_target_pattern, is_exact, expand_target_pattern,
}
use capi_shell_mcp.Capi.Pattern.Exact.{parts_of_pattern}

-- The map `seen` and the slice `out` of both loops.
pub record Gathered : Type 0 where
  pub seen : Map GoString Bool
  pub out : List GoString

abbrev pub nothing_gathered : Gathered
nothing_gathered = record { seen = []; out = [] }

-- seen[t], which is false for a missing key.
unfoldable pub is_seen : GoString → Map GoString Bool → Bool
is_seen t m = elim (lookup t m) [ none ↦ false | some b ↦ b ]

unfoldable pub add_one : GoString → Gathered → Gathered
add_one t g =
    if is_seen t g.seen then g else record { seen = insert t true g.seen; out = g.out ++ t ∷ [] }

unfoldable pub add_new : List GoString → Gathered → Gathered
add_new [] g = g
add_new (t ∷ ts) g = add_new ts (add_one t g)

unfoldable pub dedupe_preserve_order : List GoString → List GoString
dedupe_preserve_order xs = (add_new xs nothing_gathered).out

-- The loop of strict mode: every entry has to be a full target.
unfoldable pub check_full_paths : List GoString → Result (Unit {0})
check_full_paths [] = ok tt
check_full_paths (p ∷ ps) = elim (parse_target p) [
  | ok _ ↦ check_full_paths ps
  | err e ↦ err (not_full_path p e)
]

-- The first loop of the other mode.
unfoldable pub parse_all : List GoString → Result (List TargetPattern)
parse_all [] = ok []
parse_all (p ∷ ps) = parse_target_pattern p >>= λ q. parse_all ps >>= λ qs. ok (q ∷ qs)

unfoldable pub needs_expansion : List TargetPattern → Bool
needs_expansion [] = false
needs_expansion (p ∷ ps) = if is_exact p then needs_expansion ps else true

unfoldable pub matches_of : List CapiCluster → TargetPattern → List GoString
matches_of known p =
    if is_exact p
    then format_target (cluster_of (parts_of_pattern p)) ∷ []
    else expand_target_pattern p known

-- The last loop.
unfoldable pub gather : List CapiCluster → List TargetPattern → Gathered → Gathered
gather known [] g = g
gather known (p ∷ ps) g = gather known ps (add_new (matches_of known p) g)

module _ {W : Type 0} where
  unfoldable pub resolve_parsed :
      List TargetPattern → (W → Result (List CapiCluster) × W) → W → Result (List GoString) × W
  resolve_parsed parsed list_known w =
      if needs_expansion parsed
      then (let (r, w') = list_known w in
          (r >>= (λ known. ok (gather known parsed nothing_gathered).out), w'))
      else (ok (gather [] parsed nothing_gathered).out, w)

  unfoldable pub resolve_cluster_patterns :
      List GoString → (W → Result (List CapiCluster) × W) → Bool → W → Result (List GoString) × W
  unfolding resolve_parsed check_full_paths parse_all
  resolve_cluster_patterns patterns list_known true w =
      (check_full_paths patterns >>= (λ _. ok (dedupe_preserve_order patterns)), w)
  resolve_cluster_patterns patterns list_known false w = elim (parse_all patterns) [
    | err e ↦ (err e, w)
    | ok parsed ↦ resolve_parsed parsed list_known w
  ]
