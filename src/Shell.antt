-- ===== src/Shell.antt =====
-- internal/shell/shell.go: what a command is given and gives back.
pub mod Run
use capi_shell_mcp.Base.{
  ℕ, ◌+◌, ltb, List, [], ◌++◌, GoString, lit, Option, none, some, if◌then◌else◌, length, Result, ok,
  err, GoError, plain, Map,
}

pub record Options : Type 0 where
  pub env : List GoString
  pub input : GoString
  pub max_output_bytes : ℕ

abbrev pub no_options : Options
no_options = record { env = []; input = []; max_output_bytes = 0 }

pub record Output : Type 0 where
  pub stdout : GoString
  pub stderr : GoString

-- What `ExecFile` returns: an output, an `ExitError` (with -1, for a signal, as `none`), or, for
-- another implementation of the interface, any other error.
pub data Executed : Type 0 where
  finished : Output → Executed
  exit_error : Output → Option ℕ → GoError → Executed
  other_error : GoError → Executed

-- A command with its arguments and options.
pub record Command : Type 0 where
  pub file : GoString
  pub args : List GoString
  pub options : Options

pub data Stream : Type 0 where
  out_stream err_stream : Stream
