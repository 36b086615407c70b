-- ===== src/Exec.antt =====
-- internal/exec/exec.go. The operating system is the fields of `System`, on a world `W`.
pub mod Outcome
pub mod Whole
pub mod Temp
mod Examples
use capi_shell_mcp.Base.{
  ℕ, ◌*◌, GoString, lit, List, [], ◌∷◌, ◌++◌, Map, Option, none, some, Result, ok, err, wrapped,
  plain, GoError, Exec, bind, fail, with_error,
}
use capi_shell_mcp.Shell.{Command, Executed, Output, finished, exit_error, other_error}

pub record System (W : Type 0) : Type 0 where
  -- A file with a random name in the directory for temporary files; its path is returned.
  pub write_temp : GoString → Exec W GoString
  -- os.Remove with its error, if any.
  pub remove : GoString → W → Option GoError × W
  pub environ : W → List GoString
  pub exec_file : Command → W → Executed × W
  -- err.Error()
  pub text_of : GoError → GoString

abbrev pub max_output_bytes : ℕ
max_output_bytes = 10 * 1024 * 1024

-- `none` is the exit code -1.
pub record ExecResult : Type 0 where
  pub stdout : GoString
  pub stderr : GoString
  pub exit_code : Option ℕ

-- k+"="+v for each variable.
unfoldable pub env_of : Map GoString GoString → List GoString
env_of [] = []
env_of ((k, v) ∷ vars) = (k ++ (b'=' ∷ v)) ∷ env_of vars

module _ {W : Type 0} (system : System W) where
  unfoldable pub exec_result : Executed → ExecResult
  exec_result (finished out) = record {
    stdout = out.stdout;
    stderr = out.stderr;
    exit_code = some 0;
  }
  exec_result (exit_error out code e) = record {
    stdout = out.stdout;
    stderr = out.stderr;
    exit_code = code;
  }
  exec_result (other_error e) = record {
    stdout = [];
    stderr = system.text_of e;
    exit_code = some 1;
  }

  abbrev pub command_in :
      W → GoString → Map GoString GoString → GoString → List GoString → GoString → Command
  command_in w path openstack_env file args stdin = record {
    file = file;
    args = args;
    options = record {
      env = system.environ w ++ (env_of openstack_env ++ ((lit "KUBECONFIG=" ++ path) ∷ []));
      input = stdin;
      max_output_bytes = max_output_bytes;
    };
  }

  unfoldable pub with_kubeconfig :
      GoString → Map GoString GoString → List GoString → GoString → Exec W ExecResult
  unfolding exec_result
  with_kubeconfig kubeconfig openstack_env [] stdin =
      fail (plain (lit "exec: command must be non-empty"))
  with_kubeconfig kubeconfig openstack_env (file ∷ args) stdin =
      bind
        (λ w.
          with_error (wrapped (lit "exec: writing temp kubeconfig"))
            (system.write_temp kubeconfig w))
        λ path w.
          let (executed, w') =
            system.exec_file (command_in w path openstack_env file args stdin) w in
          (ok (exec_result executed), (system.remove path w').1)
