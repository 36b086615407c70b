-- ===== src/Exec/Whole.antt =====
-- The output of a command that ends well, with the commands run by OSExecer.
use capi_shell_mcp.Base.{
  GoString, List, [], ◌∷◌, Map, Option, none, some, ok, Bool, ◌≡◌, ◌≢◌, ◌∙◌, refl, arith, inl, inr,
  Result-cases, GoError,
}
use capi_shell_mcp.Shell.{Command, Output, Executed, finished, out_stream, err_stream}
use capi_shell_mcp.Shell.Run.{
  OsExec, Copying, RunError, exit_status, other_failure, executed, exec_file, run_parts,
  new_copying, any_write_failed, output_of,
}
use capi_shell_mcp.Shell.Run.Whole.{ReportsCopying, bytes_on, exec_file-whole}
use capi_shell_mcp.Exec.{System, ExecResult, exec_result, with_kubeconfig, command_in}

-- "An ExitError reports an unsuccessful exit by a command."
abbrev pub ReportsExits : {W : Type 0} → OsExec W → Type 0
ReportsExits {W} os =
    (c : Command) (w : W) (failed : Bool) (e : GoError)
    → (os.run c w).0.result failed ≢ some (exit_status (some 0) e)

abbrev pub os_system : {W : Type 0} → OsExec W → System W → System W
os_system os system = record system { exec_file = exec_file os }

module _ {W : Type 0} (os : OsExec W) (system : System W) where
  executed_zero :
      (c : Copying) (r : Option RunError)
      → ((e : GoError) → r ≢ some (exit_status (some 0) e))
      → (exec_result (os_system os system) (executed c r)).exit_code ≡ some 0
      → executed c r ≡ finished (output_of c)
  unfolding executed exec_result
  executed_zero c none exits h = refl
  executed_zero c (some (exit_status code e)) exits h = absurd (ground (arith, exits e))
  executed_zero c (some (other_failure e)) exits h = absurd (ground arith)

  exec_file_zero :
      (exits : ReportsExits os) (c : Command) (w : W)
      → (exec_result (os_system os system) (exec_file os c w).0).exit_code ≡ some 0
      → (out : Output) × ((exec_file os c w).0 ≡ finished out)
  unfolding exec_file
  exec_file_zero exits c w h =
      let ran = (os.run c w).0 in
      let copied = run_parts ran.parts (new_copying c.options.max_output_bytes) in
      (
        output_of copied,
        executed_zero copied (ran.result (any_write_failed copied))
            (exits c w (any_write_failed copied)) h,
      )

  finished_result :
      (r : Executed) (out : Output)
      → r ≡ finished out
      → ((exec_result (os_system os system) r).stdout ≡ out.stdout)
        × ((exec_result (os_system os system) r).stderr ≡ out.stderr)
  unfolding exec_result
  finished_result r out h = ground (arith, h)

  -- Let os/exec report every failure to copy, and an exit status only for an exit that is not
  -- successful. If a command has the exit code 0, then it was run with its arguments and its input,
  -- and the result has all that it wrote to each stream.
  pub zero_exit-whole :
      ReportsCopying os
      → ReportsExits os
      → (kc : GoString) (env : Map GoString GoString) (command : List GoString) (stdin : GoString)
        (done : ExecResult) (w : W)
      → (with_kubeconfig (os_system os system) kc env command stdin w).0 ≡ ok done
      → done.exit_code ≡ some 0
      → (c : Command) × (w' : W) × (c.file ∷ c.args ≡ command)
        × (c.options.input ≡ stdin)
        × (done.stdout ≡ bytes_on out_stream (os.run c w').0.parts)
        × (done.stderr ≡ bytes_on err_stream (os.run c w').0.parts)
  unfolding with_kubeconfig
  zero_exit-whole reports exits kc env [] stdin done w h zero = absurd (cc)
  zero_exit-whole reports exits kc env (file ∷ args) stdin done w h zero =
      elim (Result-cases (system.write_temp kc w).0) [
        | inr (e, bad) ↦ absurd (ground arith)
        | inl (path, fine) ↦
            let w' = (system.write_temp kc w).1 in
            let c = command_in (os_system os system) w' path env file args stdin in
            let made : exec_result (os_system os system) (exec_file os c w').0 ≡ done =
              ground arith in
            let (out, well) = exec_file_zero exits c w' (ground (arith, made)) in
            let (o, e) = finished_result (exec_file os c w').0 out well in
            let (p, q) = exec_file-whole os reports c out w' well in
            (c, w', refl, refl, ground (arith, made) ∙ o ∙ p, ground (arith, made) ∙ e ∙ q)
      ]
