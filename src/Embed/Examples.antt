-- ===== src/Embed/Examples.antt =====
-- Instances for the embedded tools. The raw JSON values are texts, and a list of texts is one of a
-- single element; the state counts the calls of a tool.
use capi_shell_mcp.Base.{
  none, Elem, inl, ◌⊎◌, ℕ, ◌+◌, GoString, lit, List, [], ◌∷◌, Map, lookup, insert, delete, str_eq,
  nat_eq, contains, fan_out, run_goroutines, some, ok, Exec, All, true, false, split, ◌≡◌, ◌≢◌,
  refl, arith,
}
use capi_shell_mcp.Capi.Resolve.{
  resolve_cluster_patterns, dedupe_preserve_order, add_new, add_one, is_seen,
}
use capi_shell_mcp.Capi.Target.{parse_target}
use capi_shell_mcp.Capi.Resolve.Strict.{HasFour}
use capi_shell_mcp.Embed.{TargetResolver}
use capi_shell_mcp.Embed.FanOut.{
  FanOutResult, clusters_parameter_name, Coding, HandlerResult, Request, arguments_of, run_fan_out,
  wrapped_handler, text, fan_out_over, call_one_target,
}
use capi_shell_mcp.Embed.FanOut.Guard.{wrapped_handler_guard}
use capi_shell_mcp.Embed.Provider.{Library, CapiProvider, manager_for_target}
use capi_shell_mcp.Embed.Mount.{
  GoTool, ServerTool, Mounted, ToolLibrary, mount_tools, mount_sets, mount_list, mount_tool, mutate,
  mount_converted, wrap_fan_out, read_only_of, fanned,
}
use capi_shell_mcp.Embed.Mount.Guard.{IsFrom, NamesFullTargets, AsksForClusters, mount_tools_guard}
use capi_shell_mcp.Embed.Provider.Cached.{
  LaterUse, calls, reloads, resolver_changes, later_uses, manager_for_target_once,
}

abbrev web : GoString
web = lit "prod/admin/team/web"

abbrev coding : Coding GoString
coding = record {
  decode_args = λ raw. ok ((clusters_parameter_name, raw) ∷ []);
  encode_args = λ args. ok (lit "{}");
  decode_strings = λ raw. ok (raw ∷ []);
  encode_string = λ s. s;
}

abbrev resolver : TargetResolver ℕ
resolver = record {
  resolve_target = λ t s. (ok (lit "kc"), s + 1);
  list_targets = λ s. (ok (web ∷ []), s);
}

abbrev counting : Request → Exec ℕ HandlerResult
counting req s = (ok (record { content = text (lit "pods") ∷ []; is_error = false }), s + 1)

abbrev request : Request
request = record { name = lit "pods_delete"; arguments = web }

one_call : (wrapped_handler coding resolver counting false (0 ∷ []) request 3).1 ≡ 4
unfolding wrapped_handler fan_out_over run_fan_out call_one_target lookup contains
    resolve_cluster_patterns parse_target split fan_out run_goroutines dedupe_preserve_order add_new
    add_one is_seen
one_call = refl

state_changed : (wrapped_handler coding resolver counting false (0 ∷ []) request 3).1 ≢ 3
state_changed h = absurd (omega (arith, one_call, h))

wrapped_handler_guard_example :
    (args : Map GoString GoString) × (raw : GoString) × (ps : List GoString) × (arguments_of coding
        request.arguments
      ≡ ok args)
    × (lookup clusters_parameter_name args ≡ some raw)
    × (coding.decode_strings raw ≡ ok ps)
    × All HasFour ps
wrapped_handler_guard_example =
    wrapped_handler_guard coding resolver counting (0 ∷ []) request 3 state_changed

second_runs : contains {A = ℕ} (1 ∷ 0 ∷ []) 1 ≡ true
unfolding contains
second_runs = refl

-- A manager is a number.
abbrev library : Library GoString ℕ ℕ
library = record {
  load = λ kc. ok kc;
  client_config = λ raw. ok raw;
  new_manager = λ cfg rest. ok (cfg + 1);
  set_config = λ cfg mgr. mgr;
  close = λ mgr. mgr;
}

abbrev provider : CapiProvider ℕ ℕ ℕ
provider = record { cfg = 4; managers = []; resolver_state = 0 }

abbrev once : CapiProvider ℕ ℕ ℕ
once = record provider { managers = (web, 5) ∷ []; resolver_state = 1 }

first_call : manager_for_target library resolver web provider ≡ (ok 5, once)
unfolding manager_for_target lookup insert delete
first_call = refl

-- A call for another target, and another one for the same.
abbrev meanwhile : List (LaterUse ℕ ℕ)
meanwhile =
    calls (lit "prod/admin/team/db")
    ∷ reloads (some 9)
    ∷ resolver_changes (λ s. s + 7)
    ∷ calls web
    ∷ []

manager_for_target_once_example :
    manager_for_target library resolver web (later_uses library resolver meanwhile once)
    ≡ (ok 5, later_uses library resolver meanwhile once)
manager_for_target_once_example =
    manager_for_target_once library resolver web 5 provider once meanwhile first_call

-- A library of one tool, which may write.
abbrev delete_tool : ServerTool
delete_tool = record {
  name = lit "pods_delete";
  is_target_list_provider = false;
  is_cluster_aware = true;
  read_only_hint = none;
}

abbrev delete_go_tool : GoTool
delete_go_tool = record {
  name = lit "pods_delete";
  input_schema = some (record { properties = none; required = [] });
}

abbrev one_tool : ToolLibrary ℕ
one_tool = record {
  new_server = ok tt;
  toolsets = (delete_tool ∷ []) ∷ [];
  with_target_parameter = λ d p b t. t;
  convert = λ t. ok (delete_go_tool, counting);
}

abbrev delete_mounted : Mounted ℕ
delete_mounted = wrap_fan_out coding resolver one_tool false delete_go_tool counting

mounted : Elem delete_mounted (mount_tools coding resolver one_tool []).1
unfolding mount_tools mount_sets mount_list mount_tool mount_converted
mounted = inl refl

abbrev delete_handler : List ℕ → Request → Exec ℕ FanOutResult
delete_handler = wrapped_handler coding resolver counting false

is_fanned : delete_mounted.handler ≡ fanned delete_handler
unfolding wrap_fan_out
is_fanned = refl

mount_tools_guard_example :
    (from : IsFrom coding resolver one_tool delete_mounted) × ((read_only_of
          (mutate coding resolver one_tool from.source)
        ≡ true)
      ⊎ (NamesFullTargets coding resolver one_tool request
          × AsksForClusters coding resolver one_tool delete_mounted.tool.input_schema))
mount_tools_guard_example =
    mount_tools_guard coding resolver one_tool delete_mounted mounted delete_handler is_fanned
      (0 ∷ []) request 3 state_changed
