-- ===== src/Shell/Run.antt =====
-- OSExecer.ExecFile of internal/shell/shell.go. The package os/exec starts the process and copies each
-- of its streams in a goroutine of its own, which ends at the first Write that fails. The two share
-- the counter of `sharedLimit` without a lock, so a Write has three parts that may interleave: the
-- counter is read, the sum is stored, and the counter is read again for the test.
pub mod Race
pub mod Cap
pub mod Whole
pub mod Fits
pub mod Examples
use capi_shell_mcp.Base.{
  ℕ, ◌+◌, ltb, leb, List, [], ◌∷◌, ◌++◌, Bool, true, false, ◌||◌, Option, none, some, if◌then◌else◌,
  length, GoError,
}
use capi_shell_mcp.Shell.{
  Command, Output, Executed, finished, exit_error, Stream, out_stream, err_stream,
}

pub data Part : Type 0 where
  load : Stream → Part
  store : Stream → List ℕ → Part
  finish : Stream → List ℕ → Part

-- One of the two writers, with its goroutine: what it has read of the counter, and whether a Write of
-- it has failed.
pub record Writer : Type 0 where
  pub buf : List ℕ
  pub loaded : ℕ
  pub failed : Bool

-- `limit` is there if MaxOutputBytes is positive.
pub record Copying : Type 0 where
  pub limit : Option ℕ
  pub written : ℕ
  pub stdout : Writer
  pub stderr : Writer

abbrev pub new_writer : Writer
new_writer = record { buf = []; loaded = 0; failed = false }

unfoldable pub new_copying : ℕ → Copying
new_copying max_output_bytes = record {
  limit = if ltb 0 max_output_bytes then some max_output_bytes else none;
  written = 0;
  stdout = new_writer;
  stderr = new_writer;
}

abbrev pub writer_of : Stream → Copying → Writer
writer_of out_stream c = c.stdout
writer_of err_stream c = c.stderr

abbrev pub with_writer : Stream → Writer → Copying → Copying
with_writer out_stream w c = record c { stdout = w }
with_writer err_stream w c = record c { stderr = w }

-- The end of a Write: the bytes go to the buffer unless the counter is over the limit.
abbrev pub take_bytes : Option ℕ → ℕ → List ℕ → Writer → Writer
take_bytes none written p w = record w { buf = w.buf ++ p }
take_bytes (some max) written p w =
    if ltb max written then record w { failed = true } else record w { buf = w.buf ++ p }

unfoldable pub run_part : Part → Copying → Copying
run_part (load s) c = with_writer s (record (writer_of s c) { loaded = c.written }) c
run_part (store s p) c =
    if (writer_of s c).failed then c else record c { written = (writer_of s c).loaded + length p }
run_part (finish s p) c =
    if (writer_of s c).failed
    then c
    else with_writer s (take_bytes c.limit c.written p (writer_of s c)) c

unfoldable pub run_parts : List Part → Copying → Copying
unfolding run_part
run_parts [] c = c
run_parts (p ∷ ps) c = run_parts ps (run_part p c)

-- The error of `Run`: an `*exec.ExitError`, or any other.
pub data RunError : Type 0 where
  exit_status : Option ℕ → GoError → RunError
  other_failure : GoError → RunError

-- A run of a command: the parts of the Writes of both goroutines, in the order in which they happen,
-- and what `Run` returns, given whether a Write has failed.
pub record CommandRun : Type 0 where
  pub parts : List Part
  pub result : Bool → Option RunError

pub record OsExec (W : Type 0) : Type 0 where
  pub run : Command → W → CommandRun × W

abbrev pub any_write_failed : Copying → Bool
any_write_failed c = c.stdout.failed || c.stderr.failed

abbrev pub output_of : Copying → Output
output_of c = record { stdout = c.stdout.buf; stderr = c.stderr.buf }

-- Any other error has the exit code 1.
unfoldable pub executed : Copying → Option RunError → Executed
executed c none = finished (output_of c)
executed c (some (exit_status code e)) = exit_error (output_of c) code e
executed c (some (other_failure e)) = exit_error (output_of c) (some 1) e

module _ {W : Type 0} (os : OsExec W) where
  unfoldable pub exec_file : Command → W → Executed × W
  unfolding executed run_parts new_copying
  exec_file command w =
      let (ran, w') = os.run command w in
      let copied = run_parts ran.parts (new_copying command.options.max_output_bytes) in
      (executed copied (ran.result (any_write_failed copied)), w')
