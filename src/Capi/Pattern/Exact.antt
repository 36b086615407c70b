-- ===== src/Capi/Pattern/Exact.antt =====
-- Exact patterns, and how patterns and targets agree.
use capi_shell_mcp.Base.{
  List, [], ◌∷◌, GoString, split, split-ne-nil, ok, ◌≡◌, ◌≢◌, ◌↔◌, refl, true, length, arith, ◌≤◌,
}
use capi_shell_mcp.Capi.Target.{slash, TargetParts, parse_target, four_parts}
use capi_shell_mcp.Capi.Pattern.{TargetPattern, pattern_of, parse_target_pattern, is_exact}
use capi_shell_mcp.Capi.Pattern.Prefix.{NonEmpty, NonEmpty-contains, parse_target_pattern-shape}

-- The cluster value that `ResolveClusterPatterns` builds from an exact pattern.
abbrev pub parts_of_pattern : TargetPattern → TargetParts
parts_of_pattern p = record {
  kubeconfig_name = p.kubeconfig_name;
  context = p.context;
  namespace = p.namespace;
  name = p.name;
}

exact_parts :
    (t : GoString) (xs : List GoString)
    → xs ≢ []
    → length xs ≤ 4
    → NonEmpty xs
    → (is_exact (pattern_of xs) ≡ true) ↔ (four_parts t xs ≡ ok (parts_of_pattern (pattern_of xs)))
unfolding is_exact four_parts
exact_parts t [] ne l h = absurd (ne refl)
exact_parts t (x ∷ []) ne l h = ground arith
exact_parts t (x ∷ y ∷ []) ne l h = ground arith
exact_parts t (x ∷ y ∷ z ∷ []) ne l h = ground arith
exact_parts t (x ∷ y ∷ z ∷ w ∷ []) ne l h = ground arith
exact_parts t (x ∷ y ∷ z ∷ w ∷ v ∷ xs) ne l h = absurd (omega arith)

-- An accepted pattern is exact exactly if its text is also accepted as a target, with the four
-- fields of the pattern.
pub is_exact_iff_target :
    (t : GoString) (p : TargetPattern)
    → parse_target_pattern t ≡ ok p
    → (is_exact p ≡ true) ↔ (parse_target t ≡ ok (parts_of_pattern p))
unfolding parse_target
is_exact_iff_target t p h =
    let (e, l, n) = parse_target_pattern-shape t p h in
    rw e (exact_parts t (split slash t) (split-ne-nil slash t) l n)

exact_length :
    (xs : List GoString)
    → xs ≢ []
    → length xs ≤ 4
    → NonEmpty xs
    → (is_exact (pattern_of xs) ≡ true) ↔ (length xs ≡ 4)
unfolding is_exact
exact_length [] ne l h = absurd (ne refl)
exact_length (x ∷ []) ne l h = ground arith
exact_length (x ∷ y ∷ []) ne l h = ground arith
exact_length (x ∷ y ∷ z ∷ []) ne l h = ground arith
exact_length (x ∷ y ∷ z ∷ w ∷ []) ne l h = ground arith
exact_length (x ∷ y ∷ z ∷ w ∷ v ∷ xs) ne l h = absurd (omega arith)

pub is_exact_iff_length :
    (t : GoString) (p : TargetPattern)
    → parse_target_pattern t ≡ ok p
    → (is_exact p ≡ true) ↔ (length (split slash t) ≡ 4)
is_exact_iff_length t p h =
    let (e, l, n) = parse_target_pattern-shape t p h in
    rw e (exact_length (split slash t) (split-ne-nil slash t) l n)

-- A text of four segments, none of them empty, is an accepted pattern.
pub parse_target_pattern_ok :
    (t : GoString)
    → length (split slash t) ≡ 4
    → NonEmpty (split slash t)
    → parse_target_pattern t ≡ ok (pattern_of (split slash t))
unfolding parse_target_pattern
parse_target_pattern_ok [] h n = absurd (unfold split in omega arith)
parse_target_pattern_ok (c ∷ t) h n = ground (arith, NonEmpty-contains (split slash (c ∷ t)) n)
