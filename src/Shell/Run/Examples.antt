-- ===== src/Shell/Run/Examples.antt =====
-- Instances for a run of a command.
use capi_shell_mcp.Base.{
  ℕ, ◌≤◌, List, [], ◌∷◌, ◌++◌, lit, external, true, false, some, none, if◌then◌else◌, ◌≡◌, refl,
  arith,
}
use capi_shell_mcp.Shell.{Command, Stream, finished, no_options, out_stream, err_stream}
use capi_shell_mcp.Shell.Run.{
  Part, CommandRun, OsExec, other_failure, new_copying, run_parts, any_write_failed, exec_file,
}
use capi_shell_mcp.Shell.Run.Whole.{bytes_on}
use capi_shell_mcp.Shell.Run.Fits.{fitting_writes_stored}
use capi_shell_mcp.Shell.Run.Cap.{whole, one_after_another, stored, stored-le-max}
use capi_shell_mcp.Shell.Run.Race.{overlapping, rounds, repeated, overlapping_writes_uncapped}

-- A process that writes "ab" and "c", and ends well.
abbrev pub two_writes : CommandRun
two_writes = record {
  parts = whole out_stream (lit "ab") ++ whole err_stream (lit "c");
  result = λ failed. if failed then some (other_failure (external (lit "too long"))) else none;
}

abbrev os : OsExec ℕ
os = record { run = λ c w. (two_writes, w) }

abbrev ls : Command
ls = record { file = lit "ls"; args = []; options = record no_options { max_output_bytes = 3 } }

printed : (exec_file os ls 0).0 ≡ finished (record { stdout = lit "ab"; stderr = lit "c" })
unfolding exec_file
printed = refl

-- With a cap of 2 the process fails if its Writes are whole.
too_long : any_write_failed (run_parts two_writes.parts (new_copying 2)) ≡ true
unfolding run_parts new_copying
too_long = refl

-- Twice a chunk of four bytes, each with a Write of one byte beside it, under a cap of 2.
overlapping_writes_uncapped_example :
    (any_write_failed (run_parts (rounds 2 (lit "abcd") (lit "x")) (new_copying 2)) ≡ false)
    × ((run_parts (rounds 2 (lit "abcd") (lit "x")) (new_copying 2)).stdout.buf
        ≡ repeated 2 (lit "abcd"))
    × ((run_parts (rounds 2 (lit "abcd") (lit "x")) (new_copying 2)).stderr.buf
        ≡ repeated 2 (lit "x"))
overlapping_writes_uncapped_example =
    overlapping_writes_uncapped 2 2 (lit "abcd") (lit "x") (omega arith) (omega arith)

-- The two Writes overlap, and fit.
abbrev crossed : List Part
crossed = overlapping (lit "ab") (lit "c")

fitting_writes_stored_example :
    (any_write_failed (run_parts crossed (new_copying 3)) ≡ false)
    × ((run_parts crossed (new_copying 3)).stdout.buf ≡ bytes_on out_stream crossed)
    × ((run_parts crossed (new_copying 3)).stderr.buf ≡ bytes_on err_stream crossed)
fitting_writes_stored_example = fitting_writes_stored 3 crossed (omega arith) (omega arith)

-- The last Write fails.
abbrev three_writes : List (Stream × List ℕ)
three_writes = (out_stream, lit "ab") ∷ (err_stream, lit "c") ∷ (out_stream, lit "de") ∷ []

stored-le-max_example : stored (run_parts (one_after_another three_writes) (new_copying 4)) ≤ 4
stored-le-max_example = stored-le-max 4 three_writes (omega arith)
