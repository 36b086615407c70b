-- ===== src/Capi/Pattern/Prefix.antt =====
-- What a parsed pattern matches: the clusters whose fields begin with the segments of its text.
use capi_shell_mcp.Base.{
  refl, List, [], ◌∷◌, GoString, split, split-ne-nil, ok, ◌≡◌, ◌≢◌, ◌↔◌, refl, true, false, length,
  contains, str_eq, is_empty, is_empty_iff, str_beq_iff, arith, ◌≤◌,
}
use capi_shell_mcp.Capi.Target.{CapiCluster, fields, slash}
use capi_shell_mcp.Capi.Pattern.{TargetPattern, pattern_of, parse_target_pattern, matches}

-- The segments stand at the front of the fields.
abbrev pub IsPrefix : List GoString → List GoString → Type 0
IsPrefix [] ys = Unit
IsPrefix (x ∷ xs) [] = ⊥
IsPrefix (x ∷ xs) (y ∷ ys) = (x ≡ y) × IsPrefix xs ys

abbrev pub NonEmpty : List GoString → Type 0
NonEmpty [] = Unit
NonEmpty (x ∷ xs) = (is_empty x ≡ false) × NonEmpty xs

contains-NonEmpty : (xs : List GoString) → contains xs [] ≡ false → NonEmpty xs
unfolding contains
contains-NonEmpty [] h = tt
contains-NonEmpty (x ∷ xs) h =
    ground (arith, contains-NonEmpty xs, is_empty_iff x, str_beq_iff [] x)

pub NonEmpty-contains : (xs : List GoString) → NonEmpty xs → contains xs [] ≡ false
unfolding contains
NonEmpty-contains [] h = refl
NonEmpty-contains (x ∷ xs) h =
    ground (arith, NonEmpty-contains xs, is_empty_iff x, str_beq_iff [] x)

-- What an accepted text is like: 1 to 4 segments, none of them empty.
pub parse_target_pattern-shape :
    (t : GoString) (p : TargetPattern)
    → parse_target_pattern t ≡ ok p
    → (p ≡ pattern_of (split slash t)) × (length (split slash t) ≤ 4) × NonEmpty (split slash t)
unfolding parse_target_pattern
parse_target_pattern-shape t p h = ground (arith, contains-NonEmpty (split slash t))

module _ (c : CapiCluster) where
  matches-pattern_of :
      (xs : List GoString)
      → xs ≢ []
      → length xs ≤ 4
      → NonEmpty xs
      → (matches (pattern_of xs) c ≡ true) ↔ IsPrefix xs (fields c)
  unfolding matches
  matches-pattern_of [] ne l h = absurd (ne refl)
  matches-pattern_of (x ∷ []) ne l h = ground (arith, str_beq_iff c.kubeconfig_name x)
  matches-pattern_of (x ∷ y ∷ []) ne l h =
      ground (arith, str_beq_iff c.kubeconfig_name x, str_beq_iff c.context y)
  matches-pattern_of (x ∷ y ∷ z ∷ []) ne l h =
      ground
        (arith, str_beq_iff c.kubeconfig_name x, str_beq_iff c.context y, str_beq_iff c.namespace z)
  matches-pattern_of (x ∷ y ∷ z ∷ w ∷ []) ne l h = ground (
    arith,
    str_beq_iff c.kubeconfig_name x,
    str_beq_iff c.context y,
    str_beq_iff c.namespace z,
    str_beq_iff c.name w,
  )
  matches-pattern_of (x ∷ y ∷ z ∷ w ∷ v ∷ xs) ne l h = absurd (omega arith)

  -- A pattern that was accepted matches a cluster exactly if its slash-separated segments are the
  -- first of kubeconfig, context, namespace and name of the cluster.
  pub matches_iff_prefix :
      (t : GoString) (p : TargetPattern)
      → parse_target_pattern t ≡ ok p
      → (matches p c ≡ true) ↔ IsPrefix (split slash t) (fields c)
  matches_iff_prefix t p h =
      let (e, l, n) = parse_target_pattern-shape t p h in
      rw e (matches-pattern_of (split slash t) (split-ne-nil slash t) l n)
