-- ===== src/Main/Examples.antt =====
-- Instances for the daemon: one request that runs a command, and a tunnel's timer.
use capi_shell_mcp.Base.{
  ℕ, nat_eq, sym, ap, ◌∙◌, GoString, lit, List, [], ◌∷◌, Map, lookup, str_eq, none, some, ok, err,
  external, split, fan_out, run_goroutines, ◌≡◌, ◌≢◌, ◌⊎◌, refl, arith, insert, delete, contains,
  delay, seconds,
}
use capi_shell_mcp.Proxy.Systemd.{ensure_proxy}
use capi_shell_mcp.Cache
use capi_shell_mcp.HttpServer
use capi_shell_mcp.Config.{AppConfig}
use capi_shell_mcp.Config.Yaml.{Yaml, text, object, end, field}
use capi_shell_mcp.Config.Load.{Host, config_with, parse_transforms, parse_cache}
use capi_shell_mcp.Capi.Target.{parse_target}
use capi_shell_mcp.Capi.Kube.{
  fetch_workload_kubeconfig, fetch_openstack_env, fetch_api_server_info, string_or_number,
}
use capi_shell_mcp.Capi.Resolve.{
  resolve_cluster_patterns, check_full_paths, dedupe_preserve_order, add_new, add_one, is_seen,
}
use capi_shell_mcp.Shell.{finished}
use capi_shell_mcp.Proxy.Process
use capi_shell_mcp.Proxy.Process.{
  kill_all_process_proxies, fire_timer, ensure_process_proxy, finish_start, store_entry, after_func,
  target_key, Manager,
}
use capi_shell_mcp.Proxy.Process.{Manager}
use capi_shell_mcp.Proxy.Process.Ensure.{process_of}
use capi_shell_mcp.Server.Owner.Examples.{strict_api}
use capi_shell_mcp.Server.{ServerState, kubeconfig_ttl}
use capi_shell_mcp.Server.Kubeconfig.{
  cached_kubeconfig, fetch_kubeconfig, store_kubeconfig, transform_of, proxy_for, call_ensure_proxy,
}
use capi_shell_mcp.Server.Execution.{exec_in_cluster_fan_out, exec_one_target, run_in}
use capi_shell_mcp.Server.Build.{ToolCall, call_tool, call_exec_in_cluster}
use capi_shell_mcp.Server.Examples.{api, out, tool, cfg, fresh_state, full, kubectl}
use capi_shell_mcp.Embed.FanOut.{Coding}
use capi_shell_mcp.Embed.Mount.{ToolLibrary, mount_tools, mount_sets}
use capi_shell_mcp.HttpServer.{HttpRequest, Network, loopback, host_check_middleware}
use capi_shell_mcp.HttpServer.Guard.{IsLoopback}
use capi_shell_mcp.Main.{
  straggle_all, Mcp, answers, Straggler, firing, Event, request, timer_fires, up_and_down,
  new_tool_server, happen, mcp_handler, serve, port_of,
}
use capi_shell_mcp.Main.Guard.{IsExplicit, request_guard}

abbrev pub network : Network ℕ
network = record {
  listen = λ addr w. (ok (record { port = 4737; addr = addr }), w);
  shutdown = λ w. (ok tt, w);
  sessions = λ w. [];
  getenv = λ name. [];
  exec_file = λ c w. (finished (record { stdout = []; stderr = [] }), w);
}

abbrev run_kubectl : ToolCall
run_kubectl = call_exec_in_cluster (record { clusters = full ∷ []; command = kubectl; stdin = [] })

abbrev pub mcp : Mcp ℕ
mcp = record {
  decode_call = λ body. some run_kubectl;
  encode = λ r. record { status = 200; content_type = []; body = [] };
  answer = λ body. answers (record { status = 400; content_type = []; body = [] });
}

abbrev local_request : HttpRequest
local_request = record { host = loopback; body = [] }

-- The secret is read, which takes one unit of time.
later :
    (happen api out tool network mcp cfg 4737 (request local_request (0 ∷ [])) fresh_state).world
    ≡ 6
unfolding happen mcp_handler call_tool host_check_middleware exec_in_cluster_fan_out exec_one_target
    resolve_cluster_patterns check_full_paths parse_target split fan_out run_goroutines lookup
    cached_kubeconfig fetch_kubeconfig fetch_workload_kubeconfig transform_of proxy_for
    store_kubeconfig Cache.get dedupe_preserve_order add_new add_one is_seen fetch_openstack_env
later = refl

changed :
    happen api out tool network mcp cfg 4737 (request local_request (0 ∷ [])) fresh_state
    ≢ fresh_state
changed h =
    let same : 6 ≡ 5 = sym later ∙ ap (λ (s : ServerState ℕ). s.world) h in
    absurd (omega (arith, same))

request_guard_example :
    IsLoopback 4737 local_request.host
    × ((mcp.decode_call local_request.body ≡ none)
        ⊎ ((call : ToolCall) × (mcp.decode_call local_request.body ≡ some call) × IsExplicit call))
request_guard_example =
    request_guard api out tool cfg network mcp 4737 local_request (0 ∷ []) fresh_state changed

abbrev coding : Coding GoString
coding = record {
  decode_args = λ raw. ok [];
  encode_args = λ args. ok [];
  decode_strings = λ raw. ok (raw ∷ []);
  encode_string = λ s. s;
}

abbrev no_library : ToolLibrary (ServerState ℕ)
no_library = record {
  new_server = ok tt;
  toolsets = [];
  with_target_parameter = λ d p b t. t;
  convert = λ t. err (external (lit "unused"));
}

-- A configuration of one kubeconfig, with a host for its tunnels.
abbrev sshuttle : Yaml
sshuttle = object (field (lit "sshuttle") (object (field (lit "host") (text (lit "jump")) end)) end)

abbrev entry : Yaml
entry = object (
    field (lit "path") (text (lit "/kc/prod"))
      (field (lit "plugins") (object (field (lit "api-endpoint-proxy") sshuttle end)) end))

abbrev small : Map GoString Yaml
small = (lit "kubeconfigs", object (field (lit "prod") entry end)) ∷ []

abbrev host : Host
host = record {
  getenv = λ name. [];
  home_dir = ok (lit "/root");
  read_file = λ path. ok [];
  join_path = λ parts. [];
  decode = λ t. ok small;
}

abbrev loaded : AppConfig
loaded = config_with host.getenv small (
    (
      lit "prod",
      record {
        name = lit "prod";
        path = lit "/kc/prod";
        contexts = [];
        sshuttle_host = lit "jump";
      },
    )
    ∷ [])

abbrev pub events : List (Event ℕ)
events = request local_request (0 ∷ []) ∷ timer_fires 0 7 ∷ []

abbrev ended : ServerState ℕ
ended =
    (up_and_down strict_api out tool network mcp loaded coding no_library events []
      (new_tool_server loaded 5)).1

-- When the shutdown is over, there is a tunnel.
tunnel_at_end : process_of ended.proxy_manager (lit "10.1.2.3:6443") ≡ some 7
unfolding up_and_down serve happen mount_tools mount_sets port_of HttpServer.start HttpServer.close
    fire_timer mcp_handler call_tool host_check_middleware exec_in_cluster_fan_out exec_one_target
    resolve_cluster_patterns check_full_paths parse_target split fan_out run_goroutines lookup
    insert delete cached_kubeconfig fetch_kubeconfig fetch_workload_kubeconfig transform_of
    proxy_for store_kubeconfig Cache.get dedupe_preserve_order add_new add_one is_seen
    fetch_openstack_env fetch_api_server_info string_or_number contains ensure_proxy
    ensure_process_proxy finish_start new_tool_server run_in kubeconfig_ttl store_entry after_func
    target_key Cache.new parse_transforms call_ensure_proxy Process.new parse_cache delay seconds
tunnel_at_end = refl

-- The old timer of the tunnel comes late.
abbrev stragglers : List (Straggler ℕ)
stragglers = firing 0 1_000_000_000_000_000 ∷ []

abbrev left : Manager
left =
    (straggle_all strict_api out tool network mcp loaded stragglers
      (record ended { proxy_manager = kill_all_process_proxies ended.proxy_manager })).proxy_manager
