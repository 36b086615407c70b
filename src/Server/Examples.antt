-- ===== src/Server/Examples.antt =====
-- Instances for the server. The world is the time, and each read of a secret takes one unit of it.
use capi_shell_mcp.Base.{
  add_duration, ℕ, ◌+◌, GoString, lit, List, [], ◌∷◌, lookup, str_eq, nat_eq, str_beq, leb, Option,
  none, some, ok, err, external, without, if◌then◌else◌, true, false, All, AnyOf, ◌↔◌, nub, split,
  get_elem?, contains, ◌≡◌, refl, arith,
}
use capi_shell_mcp.Cache
use capi_shell_mcp.Cache.{TtlCache}
use capi_shell_mcp.Cache.Laws.{read}
use capi_shell_mcp.Capi.Target.{TargetParts, parse_target}
use capi_shell_mcp.Capi.Keys.{kubeconfig_key}
use capi_shell_mcp.Config.{AppConfig, KubeconfigSource, pos}
use capi_shell_mcp.Config.Yaml.{text}
use capi_shell_mcp.Capi.Jq.{Jq}
use capi_shell_mcp.Capi.Kube.{KubeApi, fetch_workload_kubeconfig}
use capi_shell_mcp.Capi.Resolve.Strict.{HasFour}
use capi_shell_mcp.Shell.{finished}
use capi_shell_mcp.Proxy.Process.{running}
use capi_shell_mcp.Server.{ServerState, Outside, ProxyTarget}
use capi_shell_mcp.Server.Kubeconfig.{
  cached_kubeconfig, fetch_kubeconfig, store_kubeconfig, transform_of, proxy_for,
}
use capi_shell_mcp.Server.Kubeconfig.Caching.{key_of, cached_kubeconfig_stores}
use capi_shell_mcp.Server.Tools.{
  ToolOutside, ClusterExecResult, executions, kubeconfigs, get_cluster_kubeconfig_fan_out,
}
use capi_shell_mcp.Server.Execution.{any_exec_error, exec_failed, exec_in_cluster_fan_out}
use capi_shell_mcp.Server.Tools.Omitted.{get_cluster_kubeconfig_omitted}
use capi_shell_mcp.Server.Execution.Results.{
  is_failure, exec_in_cluster_guard, exec_in_cluster_each,
}

-- No query has an output.
abbrev no_jq : Jq (Unit {0})
no_jq = record {
  compile = λ q. ok (λ input. none);
  quote = λ s. s;
  decode = λ s. ok (text s);
  encode = λ v. ok [];
}

abbrev pub api : KubeApi ℕ (Unit {0}) (Unit {0})
api = record {
  list_clusters = λ c w. (ok (tt ∷ []), w);
  namespace_of = λ o. lit "team";
  name_of = λ o. lit "web";
  jq = no_jq;
  get_secret = λ c ns n w. (ok ((lit "value", lit "kc") ∷ []), w + 1);
  list_openstack = λ c ns n w. (ok [], w);
  nested_string_slice = λ o path. [];
  parse_clouds = λ t. ok [];
  nested_field = λ o path. none;
}

abbrev pub out : Outside ℕ (Unit {0})
out = record {
  clock = λ w. w;
  clients_for_context = λ src ctx w. (ok tt, w);
  read_file = λ path w. (ok [], w);
  load_contexts = λ text. ok [];
  exec_file = λ c w. (finished (record { stdout = []; stderr = [] }), w);
  is_under_systemd = λ w. false;
  spawn_process = λ ip port host w. (running 7, w);
}

abbrev pub tool : ToolOutside ℕ
tool = record {
  rbac_for = λ kc w. (err (external (lit "unused")), w);
  parse_clusters = λ kc. ok [];
  render = λ kc. ok [];
  system = record {
    write_temp = λ kc w. (ok (lit "/tmp/kc"), w);
    remove = λ path w. (none, w);
    environ = λ w. [];
    exec_file = λ c w. (finished (record { stdout = c.file; stderr = [] }), w);
    text_of = λ e. [];
  };
}

abbrev pub prod : KubeconfigSource
prod = record {
  name = lit "prod";
  path = lit "/kc/prod";
  contexts = lit "admin" ∷ [];
  sshuttle_host = [];
}

abbrev pub cfg : AppConfig
cfg = record {
  kubeconfigs = (lit "prod", prod) ∷ [];
  transforms = none;
  custom_fields = [];
  sshuttle_host = [];
  cache = record { cluster_list_ttl_seconds = pos 60; kubeconfig_ttl_seconds = pos 3600 };
}

abbrev pub fresh_state : ServerState ℕ
fresh_state = record {
  cluster_list = record { ttl = pos 60; store = [] };
  kubeconfig = record { ttl = pos 3600; store = [] };
  proxy_manager = record { process_entries = []; heap = []; timers = []; next = 0; signalled = [] };
  world = 5;
}

nothing_cached :
    read (key_of api out cfg prod (lit "admin") (lit "team") (lit "web")) 5 fresh_state.kubeconfig
    ≡ none
unfolding Cache.get lookup
nothing_cached = refl

abbrev filled : ServerState ℕ
filled = (cached_kubeconfig api out cfg prod (lit "admin") (lit "team") (lit "web") fresh_state).1

fetched :
    cached_kubeconfig api out cfg prod (lit "admin") (lit "team") (lit "web") fresh_state
    ≡ (ok (lit "kc"), filled)
unfolding cached_kubeconfig fetch_kubeconfig fetch_workload_kubeconfig transform_of proxy_for
    store_kubeconfig Cache.get lookup
fetched = refl

cached_kubeconfig_stores_example :
    (target : Option ProxyTarget) × (read
        (kubeconfig_key (lit "prod") (lit "admin") (lit "team") (lit "web"))
        100
        filled.kubeconfig
      ≡ (if str_beq
            (key_of api out cfg prod (lit "admin") (lit "team") (lit "web"))
            (kubeconfig_key (lit "prod") (lit "admin") (lit "team") (lit "web"))
          then (if leb 100 (add_duration (out.clock filled.world) (pos 3600))
              then some (record { kubeconfig = lit "kc"; proxy_target = target })
              else none)
          else read
              (kubeconfig_key (lit "prod") (lit "admin") (lit "team") (lit "web"))
              100
              fresh_state.kubeconfig))
cached_kubeconfig_stores_example =
    cached_kubeconfig_stores api out cfg prod (lit "admin") (lit "team") (lit "web") (lit "kc")
      fresh_state filled (kubeconfig_key (lit "prod") (lit "admin") (lit "team") (lit "web")) 100
      nothing_cached (omega arith) fetched

abbrev pub full : GoString
full = lit "prod/admin/team/web"

abbrev pub kubectl : List GoString
kubectl = lit "kubectl" ∷ lit "version" ∷ []

-- The second entry is a pattern.
not-All-full : ¬ All HasFour (full ∷ lit "prod" ∷ [])
unfolding split
not-All-full h = absurd (ground (arith, h.1.0))

exec_in_cluster_guard_example :
    ((exec_in_cluster_fan_out api out tool cfg
        (full ∷ lit "prod" ∷ [])
        kubectl
        []
        false
        (1 ∷ 0 ∷ [])
        fresh_state).1
      ≡ fresh_state)
    × (is_failure
          (exec_in_cluster_fan_out api out tool cfg
            (full ∷ lit "prod" ∷ [])
            kubectl
            []
            false
            (1 ∷ 0 ∷ [])
            fresh_state).0
        ≡ true)
exec_in_cluster_guard_example =
    exec_in_cluster_guard api out tool cfg (full ∷ lit "prod" ∷ []) kubectl [] false (1 ∷ 0 ∷ [])
      fresh_state not-All-full

abbrev pub full_parts : TargetParts
full_parts = record {
  kubeconfig_name = lit "prod";
  context = lit "admin";
  namespace = lit "team";
  name = lit "web";
}

pub full-HasFour : HasFour full
unfolding split
full-HasFour = refl

pub full_first : get_elem? (nub (full ∷ [])) 0 ≡ some full
unfolding nub without
full_first = refl

pub first_runs : contains {A = ℕ} (0 ∷ []) 0 ≡ true
unfolding contains
first_runs = refl

pub full_accepted : parse_target full ≡ ok full_parts
unfolding parse_target split
full_accepted = refl

exec_in_cluster_each_example :
    (results : List ClusterExecResult) × (s' : ServerState ℕ) × (r : ClusterExecResult)
    × (exec_in_cluster_fan_out api out tool cfg (full ∷ []) kubectl [] false (0 ∷ []) fresh_state
        ≡ (ok (record { text = executions results; is_error = any_exec_error results }), s'))
    × (get_elem? results 0 ≡ some r)
    × (r.cluster ≡ full_parts)
    × ((any_exec_error results ≡ true) ↔ AnyOf (λ x. exec_failed x ≡ true) results)
exec_in_cluster_each_example =
    exec_in_cluster_each api out tool cfg (full ∷ []) kubectl [] false (0 ∷ []) fresh_state 0 full
      full_parts refl refl (full-HasFour, tt) full_first first_runs full_accepted

get_cluster_kubeconfig_omitted_example :
    get_cluster_kubeconfig_fan_out api out tool cfg [] true [] fresh_state
    ≡ (ok (record { text = kubeconfigs []; is_error = false }), fresh_state)
get_cluster_kubeconfig_omitted_example =
    get_cluster_kubeconfig_omitted api out tool cfg true [] fresh_state
