-- ===== src/Capi/ReadOnly/Minted.antt =====
-- What a read-only kubeconfig is made of.
use capi_shell_mcp.Base.{
  ℤ, GoString, lit, List, [], ◌∷◌, Result, ok, Result-cases, is_empty, trim_space, lift, with_error,
  with_error-eq-ok, wrapped, map_error, continue-eq-ok, Bool-cases, inl, inr, ap, false, ◌≡◌, arith,
}
use capi_shell_mcp.Capi.ReadOnly.{
  RbacApi, ClusterInfo, ReadOnlyKubeconfig, read_only_sa_name, read_only_namespace, read_only_with,
  render_with, mint_for, create_read_only_kubeconfig, ensure_read_only_rbac,
}

-- The text was rendered from a kubeconfig whose only credential is a token of the read-only account,
-- requested for that duration.
pub record IsMinted {W : Type 0} (api : RbacApi W)
    (parse_clusters : GoString → Result (List ClusterInfo))
    (render : ReadOnlyKubeconfig → Result GoString) (duration : ℤ) (kc : GoString) : Type 0 where
  pub info : ClusterInfo
  pub requested : GoString
  pub asked_at : W
  pub granted :
      (api.create_token read_only_namespace read_only_sa_name duration asked_at).0 ≡ ok requested
  pub has_token : is_empty (trim_space requested) ≡ false
  pub rendered :
      render (read_only_with api parse_clusters render info (trim_space requested)) ≡ ok kc

module _ {W : Type 0} (api : RbacApi W) (parse_clusters : GoString → Result (List ClusterInfo))
    (render : ReadOnlyKubeconfig → Result GoString) (duration : ℤ) where
  render_with_ok :
      (info : ClusterInfo) (requested kc : GoString)
      → render_with api parse_clusters render info requested ≡ ok kc
      → (is_empty (trim_space requested) ≡ false)
        × (render (read_only_with api parse_clusters render info (trim_space requested)) ≡ ok kc)
  unfolding render_with
  render_with_ok info requested kc h = elim (Bool-cases (is_empty (trim_space requested))) [
    | inl empty ↦ absurd (ground arith)
    | inr full ↦
        elim (Result-cases
          (render (read_only_with api parse_clusters render info (trim_space requested)))) [
            | inl (t, fine) ↦ (full, ground arith)
            | inr (e, bad) ↦ absurd (ground arith)
          ]
  ]

  mint_for-IsMinted :
      (clusters : List ClusterInfo) (kc : GoString) (w w' : W)
      → mint_for api parse_clusters render clusters duration w ≡ (ok kc, w')
      → IsMinted api parse_clusters render duration kc
  unfolding mint_for
  mint_for-IsMinted [] kc w w' h = absurd (ground arith)
  mint_for-IsMinted (info ∷ others) kc w w' h =
      let (_, ensured, h1) = continue-eq-ok (ensure_read_only_rbac api w) _ h in
      let w1 = (ensure_read_only_rbac api w).1 in
      let asked = api.create_token read_only_namespace read_only_sa_name duration w1 in
      let (requested, granted, h2) =
        continue-eq-ok (with_error (wrapped (lit "capi: requesting read-only token")) asked) _ h1 in
      let (full, rendered) =
        render_with_ok info requested kc (ap (λ (r : Result GoString × W). r.0) h2) in
      record {
        info = info;
        requested = requested;
        asked_at = w1;
        granted = with_error-eq-ok _ asked requested granted;
        has_token = full;
        rendered = rendered;
      }

  pub create_read_only_kubeconfig-IsMinted :
      (admin_kc kc : GoString) (w w' : W)
      → create_read_only_kubeconfig api parse_clusters render admin_kc duration w ≡ (ok kc, w')
      → IsMinted api parse_clusters render duration kc
  unfolding create_read_only_kubeconfig
  create_read_only_kubeconfig-IsMinted admin_kc kc w w' h =
      let (clusters, _, h1) =
        continue-eq-ok
          (lift
            (map_error (wrapped (lit "capi: parsing admin kubeconfig")) (parse_clusters admin_kc))
            w)
          _ h in
      mint_for-IsMinted clusters kc w w' h1
