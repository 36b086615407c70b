-- ===== src/Capi/Keys.antt =====
-- The cache keys of internal/capi/store.go.
use capi_shell_mcp.Base.{
  ℕ, [], ◌∷◌, ◌++◌, GoString, Lacks, ◌≡◌, refl, arith, append_assoc, ◌∙◌, sym, All,
}

abbrev pub colon : ℕ
colon = b':'

unfoldable pub cluster_list_key : GoString → GoString → GoString
cluster_list_key kubeconfig_name context = kubeconfig_name ++ (colon ∷ context)

unfoldable pub kubeconfig_key : GoString → GoString → GoString → GoString → GoString
kubeconfig_key kubeconfig_name context namespace cluster_name =
    kubeconfig_name ++ (colon ∷ context ++ (colon ∷ namespace ++ (colon ∷ cluster_name)))

-- Two texts cut at their first colon.
first_cut :
    (p q s t : GoString)
    → Lacks colon p
    → Lacks colon q
    → p ++ (colon ∷ s) ≡ q ++ (colon ∷ t)
    → (p ≡ q) × (s ≡ t)
first_cut [] [] s t hp hq e = ground arith
first_cut [] (d ∷ q) s t hp hq e = ground arith
first_cut (c ∷ p) [] s t hp hq e = ground arith
first_cut (c ∷ p) (d ∷ q) s t hp hq e = ground (arith, first_cut p q s t)

Lacks-append-colon : (p q : GoString) → ¬ Lacks colon (p ++ (colon ∷ q))
Lacks-append-colon [] q h = h.0 refl
Lacks-append-colon (c ∷ p) q h = Lacks-append-colon p q h.1

-- Two texts cut at their last colon.
last_cut :
    (p q s t : GoString)
    → Lacks colon s
    → Lacks colon t
    → p ++ (colon ∷ s) ≡ q ++ (colon ∷ t)
    → (p ≡ q) × (s ≡ t)
last_cut [] [] s t hs ht e = ground arith
last_cut [] (d ∷ q) s t hs ht e = ground (arith, Lacks-append-colon q t)
last_cut (c ∷ p) [] s t hs ht e = ground (arith, Lacks-append-colon p s)
last_cut (c ∷ p) (d ∷ q) s t hs ht e = ground (arith, last_cut p q s t)

-- If neither kubeconfig name has a colon in it, equal keys of cluster lists have equal parts.
pub cluster_list_key-injective :
    (k l c d : GoString)
    → Lacks colon k
    → Lacks colon l
    → cluster_list_key k c ≡ cluster_list_key l d
    → (k ≡ l) × (c ≡ d)
unfolding cluster_list_key
cluster_list_key-injective k l c d hk hl e = first_cut k l c d hk hl e

-- If no kubeconfig name, namespace or cluster name has a colon in it, equal keys of kubeconfigs
-- have equal parts, whatever the contexts are.
pub kubeconfig_key-injective :
    (k l c d n m x y : GoString)
    → All (Lacks colon) (k ∷ l ∷ n ∷ m ∷ x ∷ y ∷ [])
    → kubeconfig_key k c n x ≡ kubeconfig_key l d m y
    → (k ≡ l) × (c ≡ d) × (n ≡ m) × (x ≡ y)
unfolding kubeconfig_key
kubeconfig_key-injective k l c d n m x y h e =
    let (same_name, rest) = first_cut k l _ _ h.0 h.1.0 e in
    let (front, same_cluster) =
      last_cut (c ++ (colon ∷ n)) (d ++ (colon ∷ m)) x y h.1.1.1.1.0 h.1.1.1.1.1.0 (
        append_assoc c (colon ∷ n) (colon ∷ x)
        ∙ rest
        ∙ sym (append_assoc d (colon ∷ m) (colon ∷ y))) in
    let (same_context, same_namespace) = last_cut c d n m h.1.1.0 h.1.1.1.0 front in
    (same_name, same_context, same_namespace, same_cluster)

-- A colon in a kubeconfig name makes keys of different clusters equal: the text between two colons
-- may end the name or begin the context.
pub kubeconfig_key_collision :
    (k c d n x : GoString)
    → kubeconfig_key (k ++ (colon ∷ c)) d n x ≡ kubeconfig_key k (c ++ (colon ∷ d)) n x
unfolding kubeconfig_key
kubeconfig_key_collision k c d n x = simp append_assoc
