-- ===== src/Capi/Resolve/Select.antt =====
-- The other mode: which clusters partial and full patterns select.
use capi_shell_mcp.Base.{
  List, [], ◌∷◌, ◌++◌, GoString, split, Result, ok, >>=-eq-ok, ap₂, ◌≡◌, ◌↔◌, refl, Bool, true,
  false, arith, nub, str_eq, All, inl, inr, ◌⊎◌, ap, Bool-cases, Elem, Elem-nub, nub-Distinct,
  Distinct, sym, ◌∙◌, Elem-append,
}
use capi_shell_mcp.Capi.Target.{CapiCluster, slash, fields, format_target, cluster_of}
use capi_shell_mcp.Capi.Target.RoundTrip.{format_target-parse_target}
use capi_shell_mcp.Capi.Pattern.{
  TargetPattern, pattern_of, parse_target_pattern, is_exact, expand_target_pattern,
}
use capi_shell_mcp.Capi.Pattern.Prefix.{IsPrefix, NonEmpty, matches_iff_prefix}
use capi_shell_mcp.Capi.Pattern.Exact.{
  parts_of_pattern, is_exact_iff_target, is_exact_iff_length, parse_target_pattern_ok,
}
use capi_shell_mcp.Capi.Resolve.{
  Gathered, nothing_gathered, add_new, parse_all, needs_expansion, matches_of, gather,
  resolve_parsed, resolve_cluster_patterns, dedupe_preserve_order,
}
use capi_shell_mcp.Capi.Resolve.Dedupe.{dedupe-nub, add_new-append}
use capi_shell_mcp.Capi.Resolve.Strict.{HasFour}

-- Some cluster of the list has the fields.
abbrev AnyCluster : (CapiCluster → Type 0) → List CapiCluster → Type 0
AnyCluster P [] = ⊥
AnyCluster P (c ∷ cs) = P c ⊎ AnyCluster P cs

-- A pattern text selects a target: a full one itself, a partial one the target of each known
-- cluster that begins with its segments.
abbrev pub Selects : List CapiCluster → GoString → GoString → Type 0
Selects known q t =
    (HasFour q × (t ≡ q))
    ⊎ (¬ (HasFour q)
        × AnyCluster (λ c. IsPrefix (split slash q) (fields c) × (t ≡ format_target c)) known)

abbrev pub AnySelects : List CapiCluster → List GoString → GoString → Type 0
AnySelects known [] t = ⊥
AnySelects known (q ∷ qs) t = Selects known q t ⊎ AnySelects known qs t

all_matches : List CapiCluster → List TargetPattern → List GoString
all_matches known [] = []
all_matches known (p ∷ ps) = matches_of known p ++ all_matches known ps

gather-add_new :
    (known : List CapiCluster) (ps : List TargetPattern) (g : Gathered)
    → gather known ps g ≡ add_new (all_matches known ps) g
unfolding gather all_matches
gather-add_new known [] g = unfold add_new in refl
gather-add_new known (p ∷ ps) g =
    gather-add_new known ps (add_new (matches_of known p) g)
    ∙ sym (add_new-append (matches_of known p) (all_matches known ps) g)

gathered-nub :
    (known : List CapiCluster) (ps : List TargetPattern)
    → (gather known ps nothing_gathered).out ≡ nub (all_matches known ps)
unfolding dedupe_preserve_order
gathered-nub known ps =
    ap (λ (g : Gathered). g.out) (gather-add_new known ps nothing_gathered)
    ∙ dedupe-nub (all_matches known ps)

all_matches_exact :
    (known : List CapiCluster) (ps : List TargetPattern)
    → needs_expansion ps ≡ false
    → all_matches [] ps ≡ all_matches known ps
unfolding needs_expansion all_matches matches_of
all_matches_exact known [] h = refl
all_matches_exact known (p ∷ ps) h = ground (arith, all_matches_exact known ps)

expand-Elem :
    (p : TargetPattern) (q t : GoString) (cs : List CapiCluster)
    → parse_target_pattern q ≡ ok p
    → Elem t (expand_target_pattern p cs)
      ↔ AnyCluster (λ c. IsPrefix (split slash q) (fields c) × (t ≡ format_target c)) cs
unfolding expand_target_pattern
expand-Elem p q t [] h = ground arith
expand-Elem p q t (c ∷ cs) h = ground (arith, expand-Elem p q t cs h, matches_iff_prefix c q p h)

exact-format_target :
    (q : GoString) (p : TargetPattern)
    → parse_target_pattern q ≡ ok p
    → is_exact p ≡ true
    → format_target (cluster_of (parts_of_pattern p)) ≡ q
exact-format_target q p h full =
    (format_target-parse_target q (parts_of_pattern p) ((is_exact_iff_target q p h).0 full)).0

matches_of-Selects :
    (known : List CapiCluster) (q t : GoString) (p : TargetPattern)
    → parse_target_pattern q ≡ ok p
    → Elem t (matches_of known p) ↔ Selects known q t
unfolding matches_of
matches_of-Selects known q t p h = elim (Bool-cases (is_exact p)) [
  | inl full ↦
      rw (full, matches_of)
        (ground (arith, is_exact_iff_length q p h, exact-format_target q p h full))
  | inr partial ↦
      rw (partial, matches_of)
        (ground (arith, is_exact_iff_length q p h, expand-Elem p q t known h))
]

all_matches-Selects :
    (known : List CapiCluster) (qs : List GoString) (t : GoString) (ps : List TargetPattern)
    → parse_all qs ≡ ok ps
    → Elem t (all_matches known ps) ↔ AnySelects known qs t
unfolding parse_all all_matches
all_matches-Selects known [] t ps h = ground arith
all_matches-Selects known (q ∷ qs) t ps h =
    let (p, e, rest) = >>=-eq-ok (parse_target_pattern q) _ h in
    let (ps', e', f) = >>=-eq-ok (parse_all qs) _ rest in
    ground (
      arith,
      f,
      matches_of-Selects known q t p e,
      all_matches-Selects known qs t ps' e',
      Elem-append t (matches_of known p) (all_matches known ps'),
    )

module _ {W : Type 0} (list_known : W → Result (List CapiCluster) × W) (w w' : W) where
  resolve_parsed-nub :
      (ps : List TargetPattern) (known : List CapiCluster)
      → list_known w ≡ (ok known, w')
      → (resolve_parsed ps list_known w).0 ≡ ok (nub (all_matches known ps))
  unfolding resolve_parsed
  resolve_parsed-nub ps known h =
      ground (arith, h, all_matches_exact known ps, gathered-nub known ps, gathered-nub [] ps)

  -- If every pattern is accepted and the known clusters can be listed, the result is a list of
  -- different targets, and it has exactly the targets that some pattern selects: a pattern of four
  -- segments selects itself, known or not, and a shorter one the target of each known cluster whose
  -- fields begin with its segments.
  pub resolve_cluster_patterns_selects :
      (patterns : List GoString) (ps : List TargetPattern) (known : List CapiCluster)
      → parse_all patterns ≡ ok ps
      → list_known w ≡ (ok known, w')
      → (out : List GoString) × ((resolve_cluster_patterns patterns list_known false w).0 ≡ ok out)
        × Distinct out
        × ((t : GoString) → Elem t out ↔ AnySelects known patterns t)
  unfolding resolve_cluster_patterns
  resolve_cluster_patterns_selects patterns ps known h l = (
    nub (all_matches known ps),
    rw (h, resolve_cluster_patterns) (resolve_parsed-nub ps known l),
    nub-Distinct (all_matches known ps),
    λ t.
        ground
          (arith, Elem-nub (all_matches known ps) t, all_matches-Selects known patterns t ps h),
  )

module _ {W : Type 0} (list_known : W → Result (List CapiCluster) × W) (w : W) where
  -- In both modes, errors included, the call leaves the world as it was or as a single listing of
  -- the known clusters leaves it.
  pub resolve_cluster_patterns_lists_once :
      (patterns : List GoString) (strict : Bool)
      → ((resolve_cluster_patterns patterns list_known strict w).1 ≡ w)
        ⊎ ((resolve_cluster_patterns patterns list_known strict w).1 ≡ (list_known w).1)
  unfolding resolve_cluster_patterns resolve_parsed
  resolve_cluster_patterns_lists_once patterns true = inl refl
  resolve_cluster_patterns_lists_once patterns false = ground arith

  full_parse_all :
      (qs : List GoString)
      → All HasFour qs
      → All (λ q. NonEmpty (split slash q)) qs
      → (ps : List TargetPattern) × (parse_all qs ≡ ok ps)
        × (needs_expansion ps ≡ false)
        × (all_matches [] ps ≡ qs)
  unfolding parse_all needs_expansion all_matches matches_of
  full_parse_all [] h n = ([], refl, refl, refl)
  full_parse_all (q ∷ qs) (hq, h) (nq, n) =
      let (ps, e, x, m) = full_parse_all qs h n in
      let p = pattern_of (split slash q) in
      let eq = parse_target_pattern_ok q hq nq in
      let full = (is_exact_iff_length q p eq).1 hq in
      (p ∷ ps, rw (eq, e), rw full x, rw full (ap₂ ◌∷◌ (exact-format_target q p eq full) m))

  -- If every entry has four segments and none is empty, the entries are returned, the first of
  -- equal ones each, and the known clusters are not listed.
  pub resolve_cluster_patterns_full :
      (patterns : List GoString)
      → All HasFour patterns
      → All (λ q. NonEmpty (split slash q)) patterns
      → resolve_cluster_patterns patterns list_known false w ≡ (ok (nub patterns), w)
  unfolding resolve_cluster_patterns resolve_parsed
  resolve_cluster_patterns_full patterns h n =
      let (ps, e, x, m) = full_parse_all patterns h n in
      rw (e, x, resolve_cluster_patterns, resolve_parsed)
        (ap (λ (xs : List GoString). (ok xs, w)) (gathered-nub [] ps ∙ ap nub m))
