-- ===== src/Embed/FanOut/Isolation.antt =====
-- Each target has its own result, and an error of one stays there.
use capi_shell_mcp.Base.{
  ℕ, nat_eq, ◌≡◌, refl, arith, get_elem?, fan_out_each, ◌↔◌, AnyOf, GoString, List, [], ◌∷◌, Map,
  str_eq, some, Exec, true, contains, fan_out,
}
use capi_shell_mcp.Embed.{TargetResolver}
use capi_shell_mcp.Embed.FanOut.{
  Coding, HandlerResult, Request, PerClusterToolResult, results_of, arguments_of, has_failed,
  any_failed, call_one_target, no_result, or_no_args, run_fan_out,
}

any_failed_iff :
    (rs : List PerClusterToolResult) → (any_failed rs ≡ true) ↔ AnyOf (λ r. has_failed r ≡ true) rs
unfolding any_failed
any_failed_iff [] = ground arith
any_failed_iff (r ∷ rs) = ground (arith, any_failed_iff rs)

module _ {S J : Type 0} (coding : Coding J) (resolver : TargetResolver S)
    (handler : Request → Exec S HandlerResult) where
  -- The result of a target names it, whatever its handler does.
  call_one_target_cluster :
      (req : Request) (args : Map GoString J) (t : GoString) (s : S)
      → (call_one_target coding resolver handler req args t s).0.cluster ≡ t
  unfolding call_one_target
  call_one_target_cluster req args t s = ground arith

  -- Whatever the order of the goroutines and whatever the handler does, errors included, the result
  -- at the index of a target whose goroutine runs is that target's, and the call is an error exactly
  -- if one of its results has failed.
  pub run_fan_out_each :
      (req : Request) (targets : List GoString) (order : List ℕ) (s : S) (i : ℕ) (t : GoString)
      → get_elem? targets i ≡ some t
      → contains order i ≡ true
      → (results : List PerClusterToolResult) × (r : PerClusterToolResult) × ((run_fan_out coding
            resolver handler req targets order s).0.text
          ≡ results_of results)
        × (get_elem? results i ≡ some r)
        × (r.cluster ≡ t)
        × (((run_fan_out coding resolver handler req targets order s).0.is_error ≡ true)
            ↔ AnyOf (λ x. has_failed x ≡ true) results)
  unfolding run_fan_out
  run_fan_out_each req targets order s i t at runs =
      let args = or_no_args coding resolver handler (arguments_of coding req.arguments) in
      let task = call_one_target coding resolver handler req args in
      let zero_value = no_result coding resolver handler in
      let (r, there, same) =
        fan_out_each zero_value task (λ u x. x.cluster ≡ u) (call_one_target_cluster req args)
          targets order s i t at runs in
      let results = (fan_out zero_value task targets order s).0 in
      (results, r, refl, there, same, any_failed_iff results)
