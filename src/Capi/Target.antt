-- ===== src/Capi/Target.antt =====
-- internal/capi/target.go, and the cluster of internal/capi/clusters.go that a target names.
pub mod RoundTrip
pub mod Accepted
use capi_shell_mcp.Base.{
  ℕ, List, [], ◌∷◌, GoString, lit, split, join, Map, Result, ok, err, invalid_target, wrong_shape,
  ◌≡◌, refl,
}

pub record CapiCluster : Type 0 where
  pub kubeconfig_name : GoString
  pub context : GoString
  pub namespace : GoString
  pub name : GoString
  pub custom_fields : Map GoString GoString

abbrev pub slash : ℕ
slash = b'/'

-- The four fields of a target, in its order.
abbrev pub fields : CapiCluster → List GoString
fields c = c.kubeconfig_name ∷ c.context ∷ c.namespace ∷ c.name ∷ []

unfoldable pub format_target : CapiCluster → GoString
format_target c = join slash (c.kubeconfig_name ∷ c.context ∷ c.namespace ∷ c.name ∷ [])

-- The four results of `ParseTarget`.
pub record TargetParts : Type 0 where
  pub kubeconfig_name : GoString
  pub context : GoString
  pub namespace : GoString
  pub name : GoString

unfoldable pub four_parts : GoString → List GoString → Result TargetParts
four_parts target (a ∷ b ∷ c ∷ d ∷ []) =
    ok (record { kubeconfig_name = a; context = b; namespace = c; name = d })
four_parts target _ = err (invalid_target wrong_shape target)

unfoldable pub parse_target : GoString → Result TargetParts
unfolding four_parts
parse_target target = four_parts target (split slash target)

-- A cluster value with these four fields and no custom fields.
abbrev pub cluster_of : TargetParts → CapiCluster
cluster_of p = record {
  kubeconfig_name = p.kubeconfig_name;
  context = p.context;
  namespace = p.namespace;
  name = p.name;
  custom_fields = [];
}

abbrev pub parts_of : CapiCluster → TargetParts
parts_of c = record {
  kubeconfig_name = c.kubeconfig_name;
  context = c.context;
  namespace = c.namespace;
  name = c.name;
}
