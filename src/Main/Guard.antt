-- ===== src/Main/Guard.antt =====
-- What a request has to be like to change something, and the port that it comes in through.
use capi_shell_mcp.Base.{
  ℕ, GoString, List, [], ◌∷◌, All, none, some, ok, ◌⊎◌, Option-cases, Result-cases, inl, inr, true,
  false, Bool, itoa, ap, ◌≡◌, ◌≢◌, ◌≤◌, refl, ◌∙◌,
}
use capi_shell_mcp.Config.{pos, AppConfig}
use capi_shell_mcp.Capi.Kube.{KubeApi}
use capi_shell_mcp.Capi.Resolve.{resolve_cluster_patterns}
use capi_shell_mcp.Capi.Resolve.Strict.{HasFour, resolve_cluster_patterns_strict_ok}
use capi_shell_mcp.Server.{ServerState, Outside}
use capi_shell_mcp.Server.Tools.{ToolOutside}
use capi_shell_mcp.Server.Execution.{exec_in_cluster_fan_out}
use capi_shell_mcp.Server.Build.{
  ToolCall, ExecInput, call_tool, call_list_clusters, call_get_cluster_kubeconfig,
  call_get_cluster_kubeconfig_readonly, call_exec_in_cluster, call_exec_in_cluster_readonly,
}
use capi_shell_mcp.HttpServer.{Network, HttpRequest}
use capi_shell_mcp.HttpServer.Guard.{IsLoopback, host_check_middleware_guard}
use capi_shell_mcp.Main.{Mcp, request, happen, mcp_handler, port_of}
use capi_shell_mcp.Main.Port.{max_int, atoi}
use capi_shell_mcp.Main.Port.RoundTrip.{atoi-itoa, itoa-ne-nil}

-- A port that is given in decimal is read as that number, up to the largest `int`.
pub port_of-itoa : (n : ℕ) → n ≤ max_int → port_of (itoa n) ≡ ok (pos n)
unfolding port_of
port_of-itoa n h = from_atoi (itoa n) (itoa-ne-nil n) (atoi-itoa n h)
  where
    from_atoi : (s : GoString) → s ≢ [] → atoi s ≡ some (pos n) → port_of s ≡ ok (pos n)
    from_atoi [] full e = absurd (full refl)
    from_atoi (c ∷ s) full e = rw (e, port_of) refl

-- A call that runs a command names a command, and its clusters in full, at least one.
pub record NamesAll (input : ExecInput) : Type 0 where
  pub some_command : input.command ≢ []
  pub some_cluster : input.clusters ≢ []
  pub full : All HasFour input.clusters

abbrev pub IsExplicit : ToolCall → Type 0
IsExplicit (call_exec_in_cluster input) = NamesAll input
IsExplicit (call_exec_in_cluster_readonly input) = NamesAll input
IsExplicit (call_list_clusters input) = Unit {0}
IsExplicit (call_get_cluster_kubeconfig input) = Unit {0}
IsExplicit (call_get_cluster_kubeconfig_readonly input) = Unit {0}

module _ {W C O : Type 0} (api : KubeApi W C O) (out : Outside W C) (tool : ToolOutside W)
    (cfg : AppConfig) where
  exec-NamesAll :
      (input : ExecInput) (readonly : Bool) (order : List ℕ) (s : ServerState W)
      → (exec_in_cluster_fan_out api out tool cfg input.clusters input.command input.stdin readonly
          order s).1
        ≢ s
      → NamesAll input
  unfolding exec_in_cluster_fan_out
  exec-NamesAll input readonly order s = go input.clusters input.command
    where
      go :
          (clusters command : List GoString)
          → (exec_in_cluster_fan_out api out tool cfg clusters command input.stdin readonly order
              s).1
            ≢ s
          → NamesAll (record input { clusters = clusters; command = command })
      go clusters [] changed = absurd (changed refl)
      go [] (c ∷ command) changed = absurd (changed refl)
      go (t ∷ ts) (c ∷ command) changed =
          elim (Result-cases (resolve_cluster_patterns (t ∷ ts) (λ u. (ok [], u)) true s).0) [
            | inl (targets, good) ↦ record {
              some_command = λ e. cc;
              some_cluster = λ e. cc;
              full =
                  (resolve_cluster_patterns_strict_ok (λ u. (ok [], u)) s (t ∷ ts) targets good).0;
            }
            | inr (e, bad) ↦ absurd (changed (rw (exec_in_cluster_fan_out, bad) refl))
          ]

  explicit :
      (call : ToolCall) (order : List ℕ) (s : ServerState W)
      → (call_tool api out tool cfg call order s).1 ≢ s
      → IsExplicit call
  unfolding call_tool
  explicit (call_exec_in_cluster input) order s changed = exec-NamesAll input false order s changed
  explicit (call_exec_in_cluster_readonly input) order s changed =
      exec-NamesAll input true order s changed
  explicit (call_list_clusters input) order s changed = tt
  explicit (call_get_cluster_kubeconfig input) order s changed = tt
  explicit (call_get_cluster_kubeconfig_readonly input) order s changed = tt

  -- A request changes the state of the server only if its Host is the loopback address; and if its body
  -- is the call of one of the program's own tools that runs a command, only if the call names a command
  -- and at least one cluster, each by its full target.
  pub request_guard :
      (network : Network W) (mcp : Mcp W) (port : ℕ) (r : HttpRequest) (order : List ℕ)
      (s : ServerState W)
      → happen api out tool network mcp cfg port (request r order) s ≢ s
      → IsLoopback port r.host
        × ((mcp.decode_call r.body ≡ none)
            ⊎ ((call : ToolCall) × (mcp.decode_call r.body ≡ some call) × IsExplicit call))
  unfolding happen mcp_handler
  request_guard network mcp port r order s changed =
      let handler = mcp_handler api out tool network mcp cfg order in
      let (local, passed) = host_check_middleware_guard port handler r s changed in
      (
        local,
        elim (Option-cases (mcp.decode_call r.body)) [
          | inl other ↦ inl other
          | inr (call, decoded) ↦ inr (
            call,
            decoded,
            explicit call order s
                (λ same. changed (ap (λ x. x.1) passed ∙ rw (decoded, mcp_handler) same)),
          )
        ],
      )
