-- ===== src/Capi/Target/RoundTrip.antt =====
-- Formatting and parsing of targets undo one another.
use capi_shell_mcp.Base.{
  List, [], ◌∷◌, GoString, split, join-split, split-join, split-parts-Lacks, Lacks, All, ok, ◌≡◌,
  ◌↔◌, arith,
}
use capi_shell_mcp.Capi.Target.{
  CapiCluster, fields, slash, format_target, TargetParts, four_parts, parse_target, cluster_of,
  parts_of,
}

-- If no field has a slash in it, a formatted target is read back as its four fields.
pub parse_target-format_target :
    (c : CapiCluster)
    → All (Lacks slash) (fields c)
    → parse_target (format_target c) ≡ ok (parts_of c)
unfolding parse_target format_target
parse_target-format_target c h = rw (split-join slash c.kubeconfig_name _ h)

four_parts_shape :
    (t : GoString) (ps : List GoString) (p : TargetParts)
    → four_parts t ps ≡ ok p
    → ps ≡ fields (cluster_of p)
unfolding four_parts
four_parts_shape t (a ∷ b ∷ c ∷ d ∷ []) p h = ground arith
four_parts_shape t _ p h = cc

-- A target that is accepted is the format of its fields, and none of them has a slash in it.
pub format_target-parse_target :
    (t : GoString) (p : TargetParts)
    → parse_target t ≡ ok p
    → (format_target (cluster_of p) ≡ t) × All (Lacks slash) (fields (cluster_of p))
unfolding parse_target format_target
format_target-parse_target t p h =
    let e = four_parts_shape t (split slash t) p h in
    (rw (← e) (join-split slash t), rw e at (split-parts-Lacks slash t))

-- A formatted target is read back as the four fields of its cluster exactly if none of them has a
-- slash in it.
pub parse_target-format_target_iff :
    (c : CapiCluster)
    → (parse_target (format_target c) ≡ ok (parts_of c)) ↔ All (Lacks slash) (fields c)
parse_target-format_target_iff c = (
  λ h. (format_target-parse_target (format_target c) (parts_of c) h).1,
  parse_target-format_target c,
)
