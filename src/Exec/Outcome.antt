-- ===== src/Exec/Outcome.antt =====
-- What a run of a command promises.
use capi_shell_mcp.Base.{
  GoString, List, [], ◌∷◌, Map, err, GoError, ◌≡◌, refl, arith, ◌⊎◌, inl, inr, Result-cases,
}
use capi_shell_mcp.Exec.{System, with_kubeconfig}

module _ {W : Type 0} (system : System W) (kc : GoString) (env : Map GoString GoString)
    (stdin : GoString) where
  -- An error is returned only for an empty command or when the temporary file cannot be written,
  -- and then no command is run: the world is that of the failed write, or unchanged.
  pub with_kubeconfig_error :
      (command : List GoString) (e : GoError) (w : W)
      → (with_kubeconfig system kc env command stdin w).0 ≡ err e
      → ((command ≡ []) × ((with_kubeconfig system kc env command stdin w).1 ≡ w))
        ⊎ ((x : GoError) × ((system.write_temp kc w).0 ≡ err x)
            × ((with_kubeconfig system kc env command stdin w).1 ≡ (system.write_temp kc w).1))
  unfolding with_kubeconfig
  with_kubeconfig_error [] e w h = inl (refl, refl)
  with_kubeconfig_error (file ∷ args) e w h = elim (Result-cases (system.write_temp kc w).0) [
    | inl (path, fine) ↦ absurd (ground arith)
    | inr (x, bad) ↦ inr (x, bad, ground arith)
  ]
