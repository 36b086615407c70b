-- ===== src/Exec/Examples.antt =====
-- Instances for the run of a command, with a world that lists what was done.
use capi_shell_mcp.Base.{
  none, GoString, List, [], ◌∷◌, ◌++◌, lit, ok, err, GoError, external, wrapped, ◌≡◌, refl, arith,
  some,
}
use capi_shell_mcp.Shell.{Command, finished, out_stream, err_stream}
use capi_shell_mcp.Shell.Run.{OsExec, exec_file}
use capi_shell_mcp.Shell.Run.Whole.{ReportsCopying, bytes_on}
use capi_shell_mcp.Shell.Run.Examples.{two_writes}
use capi_shell_mcp.Exec.{System, ExecResult, with_kubeconfig, exec_result}
use capi_shell_mcp.Exec.Whole.{ReportsExits, os_system, zero_exit-whole}

abbrev traced : System (List GoString)
traced = record {
  write_temp = λ kc w. (ok (lit "/tmp/kc"), w ++ lit "write" ∷ []);
  remove = λ path w. (none, w ++ (lit "remove " ++ path) ∷ []);
  environ = λ w. lit "HOME=/root" ∷ [];
  exec_file = λ c w. (finished (record { stdout = c.file; stderr = [] }), w ++ c.file ∷ []);
  text_of = λ e. [];
}

-- A system on which no file can be written.
abbrev full_disk : System (List GoString)
full_disk = record traced { write_temp = λ kc w. (err (external (lit "no space left")), w) }

abbrev kubectl : List GoString
kubectl = lit "kubectl" ∷ lit "get" ∷ lit "pods" ∷ []

abbrev disk_error : GoError
disk_error = wrapped (lit "exec: writing temp kubeconfig") (external (lit "no space left"))

disk_is_full : (with_kubeconfig full_disk (lit "kc") [] kubectl [] []).0 ≡ err disk_error
unfolding with_kubeconfig
disk_is_full = refl

-- Every command writes "ab" and "c".
abbrev os : OsExec (List GoString)
os = record { run = λ c w. (two_writes, w ++ c.file ∷ []) }

os-ReportsCopying : ReportsCopying os
os-ReportsCopying c w h = absurd (cc)

os-ReportsExits : ReportsExits os
os-ReportsExits c w failed e h = ground arith

abbrev printed : ExecResult
printed = record { stdout = lit "ab"; stderr = lit "c"; exit_code = some 0 }

ran : (with_kubeconfig (os_system os traced) (lit "kc") [] kubectl [] []).0 ≡ ok printed
unfolding with_kubeconfig exec_result exec_file
ran = refl

zero_exit-whole_example :
    (c : Command) × (w : List GoString) × (c.file ∷ c.args ≡ kubectl)
    × (c.options.input ≡ [])
    × (printed.stdout ≡ bytes_on out_stream (os.run c w).0.parts)
    × (printed.stderr ≡ bytes_on err_stream (os.run c w).0.parts)
zero_exit-whole_example =
    zero_exit-whole os traced os-ReportsCopying os-ReportsExits (lit "kc") [] kubectl [] printed []
      ran refl
