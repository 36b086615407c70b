-- ===== src/Server/Clients.antt =====
-- internal/server/clients.go and internal/capi/kubeconfig.go, which build the clients of Kubernetes from
-- a kubeconfig, and the fields of `Outside` that they give. client-go is the fields of `ClientLibrary`:
-- `R` are kubeconfigs that were read, `G` configurations of a connection, `D` and `T` the clients.
use capi_shell_mcp.Base.{
  GoString, lit, List, [], ◌++◌, Result, ok, ◌>>=◌, wrapped, map_error, with_error, Exec, bind,
  lift, sort_strings,
}
use capi_shell_mcp.Config.{KubeconfigSource}
use capi_shell_mcp.Server.{Outside}

pub record ClientLibrary (R G D T : Type 0) : Type 0 where
  -- clientcmd.Load
  pub load : GoString → Result R
  -- The keys of the map of contexts.
  pub context_names : R → List GoString
  -- ClientConfig of a context, which is the current one for "".
  pub client_config : R → GoString → Result G
  -- dynamic.NewForConfig and kubernetes.NewForConfig
  pub dynamic : G → Result D
  pub typed : G → Result T

-- The typed client stands for its CoreV1 and RbacV1 parts.
pub record Clients (D T : Type 0) : Type 0 where
  pub dynamic : D
  pub typed : T

unfoldable pub get_contexts :
    (GoString → Result (List GoString)) → GoString → Result (List GoString)
get_contexts load_contexts kubeconfig =
    load_contexts kubeconfig >>= λ names. ok (sort_strings names)

module _ {R G D T : Type 0} (library : ClientLibrary R G D T) where
  unfoldable pub rest_config_for_context : GoString → GoString → Result G
  rest_config_for_context kubeconfig context =
      library.load kubeconfig >>= λ raw. library.client_config raw context

  unfoldable pub clients_from_kubeconfig : GoString → GoString → Result (Clients D T)
  unfolding rest_config_for_context
  clients_from_kubeconfig kubeconfig context =
      map_error (wrapped (lit "server: building rest config"))
        (rest_config_for_context kubeconfig context)
      >>= λ config.
          map_error (wrapped (lit "server: building dynamic client")) (library.dynamic config)
          >>= λ dynamic.
              map_error (wrapped (lit "server: building typed client")) (library.typed config)
              >>= λ typed. ok (record { dynamic = dynamic; typed = typed })

  -- Only the typed client is returned.
  unfoldable pub clients_from_kubeconfig_yaml : GoString → Result T
  unfolding clients_from_kubeconfig
  clients_from_kubeconfig_yaml kubeconfig =
      clients_from_kubeconfig kubeconfig [] >>= λ clients. ok clients.typed

  -- os.ReadFile is `read_file`.
  unfoldable pub real_clients_for_context :
      {W : Type 0}
      → (GoString → Exec W GoString)
      → KubeconfigSource
      → GoString
      → Exec W (Clients D T)
  unfolding clients_from_kubeconfig
  real_clients_for_context read_file src context =
      bind
        (λ w.
          with_error (wrapped (lit "server: reading kubeconfig " ++ src.path))
            (read_file src.path w))
        λ text. lift (clients_from_kubeconfig text context)

  -- `NewToolServer` with RealClientsForContext: the fields that depend on clients.
  abbrev pub production : {W C : Type 0} → Outside W C → Outside W (Clients D T)
  production out = record {
    clock = out.clock;
    clients_for_context = real_clients_for_context out.read_file;
    read_file = out.read_file;
    load_contexts = λ text. library.load text >>= λ raw. ok (library.context_names raw);
    exec_file = out.exec_file;
    is_under_systemd = out.is_under_systemd;
    spawn_process = out.spawn_process;
  }
