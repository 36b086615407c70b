-- ===== src/Capi/Resolve/Strict.antt =====
-- Strict mode: every entry is a full target, and nothing is listed.
use capi_shell_mcp.Base.{
  List, [], ◌∷◌, GoString, split, Result, ok, ◌≡◌, ◌↔◌, refl, true, arith, nub, str_eq, All, length,
  Result-cases, >>=-eq-ok, inl, inr,
}
use capi_shell_mcp.Capi.Target.{CapiCluster, TargetParts, slash, four_parts, parse_target}
use capi_shell_mcp.Capi.Resolve.{check_full_paths, resolve_cluster_patterns}
use capi_shell_mcp.Capi.Resolve.Dedupe.{dedupe-nub}

-- The text has the four segments of a full target.
abbrev pub HasFour : GoString → Type 0
HasFour t = length (split slash t) ≡ 4

four_parts-ok :
    (t : GoString) (xs : List GoString)
    → length xs ≡ 4
    → (p : TargetParts) × (four_parts t xs ≡ ok p)
unfolding four_parts
four_parts-ok t [] h = absurd (omega arith)
four_parts-ok t (a ∷ []) h = absurd (omega arith)
four_parts-ok t (a ∷ b ∷ []) h = absurd (omega arith)
four_parts-ok t (a ∷ b ∷ c ∷ []) h = absurd (omega arith)
four_parts-ok t (a ∷ b ∷ c ∷ d ∷ []) h =
    (record { kubeconfig_name = a; context = b; namespace = c; name = d }, refl)
four_parts-ok t (a ∷ b ∷ c ∷ d ∷ x ∷ xs) h = absurd (omega arith)

four_parts-length :
    (t : GoString) (xs : List GoString) (p : TargetParts) → four_parts t xs ≡ ok p → length xs ≡ 4
unfolding four_parts
four_parts-length t (a ∷ b ∷ c ∷ d ∷ []) p h = refl
four_parts-length t _ p h = cc

pub parse_target_ok : (t : GoString) → HasFour t → (p : TargetParts) × (parse_target t ≡ ok p)
unfolding parse_target
parse_target_ok t h = four_parts-ok t (split slash t) h

pub parse_target-HasFour : (t : GoString) (p : TargetParts) → parse_target t ≡ ok p → HasFour t
unfolding parse_target
parse_target-HasFour t p h = four_parts-length t (split slash t) p h

check_full_paths_iff : (ts : List GoString) → (check_full_paths ts ≡ ok tt) ↔ All HasFour ts
unfolding check_full_paths
check_full_paths_iff [] = ground arith
check_full_paths_iff (t ∷ ts) = elim (Result-cases (parse_target t)) [
  | inl (p, e) ↦
      rw (e, check_full_paths) (ground (arith, check_full_paths_iff ts, parse_target-HasFour t p e))
  | inr (x, e) ↦
      rw (e, check_full_paths) (λ h. absurd (cc), λ h. let (p, e') = parse_target_ok t h.0 in cc)
]

module _ {W : Type 0} (list_known : W → Result (List CapiCluster) × W) (w : W) where
  -- In strict mode the known clusters are never listed, and the entries are returned, the first of
  -- equal ones each, exactly if every entry has four slash-separated segments.
  pub resolve_cluster_patterns_strict :
      (patterns : List GoString)
      → ((resolve_cluster_patterns patterns list_known true w).1 ≡ w)
        × (((resolve_cluster_patterns patterns list_known true w).0 ≡ ok (nub patterns))
            ↔ All HasFour patterns)
  unfolding resolve_cluster_patterns
  resolve_cluster_patterns_strict patterns =
      (refl, ground (arith, check_full_paths_iff patterns, dedupe-nub patterns))

  -- A strict call that succeeds had full targets only.
  pub resolve_cluster_patterns_strict_ok :
      (patterns out : List GoString)
      → (resolve_cluster_patterns patterns list_known true w).0 ≡ ok out
      → All HasFour patterns × (out ≡ nub patterns)
  unfolding resolve_cluster_patterns
  resolve_cluster_patterns_strict_ok patterns out h =
      let (u, checked, rest) = >>=-eq-ok (check_full_paths patterns) _ h in
      ((check_full_paths_iff patterns).0 checked, ground (arith, dedupe-nub patterns))
