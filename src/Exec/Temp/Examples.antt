-- ===== src/Exec/Temp/Examples.antt =====
-- Instances for the temporary file. The world is the files, by their paths.
use capi_shell_mcp.Base.{
  GoString, lit, str_eq, str_beq_iff, [], ◌∷◌, ◌++◌, Map, lookup, insert, delete, lookup-insert,
  lookup-delete, Option, none, some, ok, GoError, ◌⊎◌, ◌≡◌, refl, arith,
}
use capi_shell_mcp.Shell.{Command, finished}
use capi_shell_mcp.Exec.{System, ExecResult, env_of, exec_result, with_kubeconfig}
use capi_shell_mcp.Exec.Temp.{
  TempFiles, write_temp_kubeconfig, with_temp, IsFileSystem, with_kubeconfig_cleans_up,
}

abbrev Files : Type 0
Files = Map GoString GoString

abbrev in_tmp : TempFiles Files
in_tmp = record {
  random = λ n w. (ok (1 ∷ 2 ∷ 3 ∷ 4 ∷ 5 ∷ 6 ∷ 7 ∷ 255 ∷ []), w);
  temp_dir = λ w. lit "/tmp/";
  join_path = λ dir name. dir ++ name;
  write_private = λ path contents w. (none, insert path contents w);
  remove = λ path w. (none, delete path w);
}

abbrev read : GoString → Files → Option GoString
read path w = lookup path w

in_tmp-IsFileSystem : IsFileSystem in_tmp read
in_tmp-IsFileSystem = record {
  written = λ path contents w h.
      ground (arith, lookup-insert path path contents w, str_beq_iff path path);
  removed = λ path w h. ground (arith, lookup-delete path path w, str_beq_iff path path);
}

-- Every command prints its name.
abbrev system : System Files
system = record {
  write_temp = λ kc w. (ok [], w);
  remove = λ path w. (none, w);
  environ = λ w. lit "HOME=/root" ∷ [];
  exec_file = λ c w. (finished (record { stdout = c.file; stderr = [] }), w);
  text_of = λ e. [];
}

abbrev named : ExecResult
named = record { stdout = lit "kubectl"; stderr = []; exit_code = some 0 }

ran :
    (with_kubeconfig (with_temp in_tmp system) (lit "kc") [] (lit "kubectl" ∷ []) [] []).0
    ≡ ok named
unfolding with_kubeconfig write_temp_kubeconfig
ran = refl

with_kubeconfig_cleans_up_example :
    (path : GoString) × (c : Command) × (w : Files) × (c.file ∷ c.args ≡ lit "kubectl" ∷ [])
    × (c.options.env ≡ system.environ w ++ (env_of [] ++ ((lit "KUBECONFIG=" ++ path) ∷ [])))
    × (read path w ≡ some (lit "kc"))
    × (named ≡ exec_result (with_temp in_tmp system) (system.exec_file c w).0)
    × ((with_kubeconfig (with_temp in_tmp system) (lit "kc") [] (lit "kubectl" ∷ []) [] []).1
        ≡ (in_tmp.remove path (system.exec_file c w).1).1)
    × ((read path
            (with_kubeconfig (with_temp in_tmp system) (lit "kc") [] (lit "kubectl" ∷ []) [] []).1
          ≡ none)
        ⊎ ((e : GoError) × ((in_tmp.remove path (system.exec_file c w).1).0 ≡ some e)))
with_kubeconfig_cleans_up_example =
    with_kubeconfig_cleans_up in_tmp read in_tmp-IsFileSystem system (lit "kc") []
      (lit "kubectl" ∷ []) [] named [] ran
