-- ===== src/Embed/FanOut/Guard.antt =====
-- The targets of a tool that is not read-only.
use capi_shell_mcp.Base.{
  ℕ, nat_eq, ◌≡◌, ◌≢◌, refl, arith, All, inl, inr, Result-cases, Option-cases, GoString, List, [],
  ◌∷◌, Map, lookup, str_eq, some, Result, ok, err, Exec, true, false,
}
use capi_shell_mcp.Capi.Resolve.{resolve_cluster_patterns}
use capi_shell_mcp.Embed.{TargetResolver}
use capi_shell_mcp.Capi.Resolve.Strict.{
  HasFour, resolve_cluster_patterns_strict_ok, resolve_cluster_patterns_strict,
}
use capi_shell_mcp.Embed.FanOut.{
  clusters_parameter_name, Coding, HandlerResult, Request, arguments_of, list_known_clusters,
  fan_out_over, wrapped_handler,
}

module _ {S J : Type 0} (coding : Coding J) (resolver : TargetResolver S)
    (handler : Request → Exec S HandlerResult) where
  over_guard :
      (req : Request) (order : List ℕ) (r : Result (List GoString)) (s : S)
      → (fan_out_over coding resolver handler false req order r s).1 ≢ s
      → (ps : List GoString) × (r ≡ ok ps) × All HasFour ps
  unfolding fan_out_over
  over_guard req order (err e) s changed = absurd (changed refl)
  over_guard req order (ok []) s changed = ([], refl, tt)
  over_guard req order (ok (p ∷ ps)) s changed =
      elim (Result-cases
        (resolve_cluster_patterns (p ∷ ps) (list_known_clusters coding resolver handler) true
          s).0) [
            | inl (targets, good) ↦ (
              p ∷ ps,
              refl,
              (resolve_cluster_patterns_strict_ok (list_known_clusters coding resolver handler) s
                  (p ∷ ps) targets good).0,
            )
            | inr (e, bad) ↦ absurd (
                changed (
                  ground (
                    arith,
                    (resolve_cluster_patterns_strict (list_known_clusters coding resolver handler) s
                        (p ∷ ps)).0,
                  )))
          ]

  -- A call of a tool that is not read-only changes the state only if "clusters" is given as a list
  -- of full targets: no target is implied, and none is expanded.
  pub wrapped_handler_guard :
      (order : List ℕ) (req : Request) (s : S)
      → (wrapped_handler coding resolver handler false order req s).1 ≢ s
      → (args : Map GoString J) × (raw : J) × (ps : List GoString) × (arguments_of coding
            req.arguments
          ≡ ok args)
        × (lookup clusters_parameter_name args ≡ some raw)
        × (coding.decode_strings raw ≡ ok ps)
        × All HasFour ps
  unfolding wrapped_handler
  wrapped_handler_guard order req s changed =
      elim (Result-cases (arguments_of coding req.arguments)) [
        | inr (e, bad) ↦ absurd (changed (ground arith))
        | inl (args, decoded) ↦ elim (Option-cases (lookup clusters_parameter_name args)) [
          | inl missing ↦ absurd (changed (ground arith))
          | inr (raw, given) ↦
              let (ps, strings, full) =
                over_guard req order (coding.decode_strings raw) s
                  (λ same. changed (ground arith)) in
              (args, raw, ps, decoded, given, strings, full)
        ]
      ]
