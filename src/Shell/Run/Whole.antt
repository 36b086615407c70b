-- ===== src/Shell/Run/Whole.antt =====
-- Output that is reported with success is whole.
use capi_shell_mcp.Base.{
  ℕ, List, [], ◌∷◌, ◌++◌, true, false, none, some, Option, Bool-cases, inl, inr, append_assoc,
  append-nil, ◌≡◌, ◌≢◌, refl, sym, ◌∙◌, arith,
}
use capi_shell_mcp.Shell.{Command, Output, finished, Stream, out_stream, err_stream}
use capi_shell_mcp.Shell.Run.{
  Part, load, store, finish, Copying, run_part, run_parts, new_copying, RunError, CommandRun,
  OsExec, any_write_failed, executed, exit_status, other_failure, exec_file,
}

-- The bytes that a process has written to a stream.
abbrev pub bytes_on : Stream → List Part → List ℕ
bytes_on s [] = []
bytes_on s (load t ∷ ps) = bytes_on s ps
bytes_on s (store t p ∷ ps) = bytes_on s ps
bytes_on out_stream (finish out_stream p ∷ ps) = p ++ bytes_on out_stream ps
bytes_on out_stream (finish err_stream p ∷ ps) = bytes_on out_stream ps
bytes_on err_stream (finish out_stream p ∷ ps) = bytes_on err_stream ps
bytes_on err_stream (finish err_stream p ∷ ps) = p ++ bytes_on err_stream ps

-- "The returned error is nil if the command runs, has no problems copying stdin, stdout, and stderr,
-- and exits with a zero exit status."
abbrev pub ReportsCopying : {W : Type 0} → OsExec W → Type 0
ReportsCopying {W} os = (c : Command) (w : W) → (os.run c w).0.result true ≢ none

part_failed :
    (p : Part) (c : Copying) → any_write_failed (run_part p c) ≡ false → any_write_failed c ≡ false
unfolding run_part
part_failed (load out_stream) c h = h
part_failed (load err_stream) c h = h
part_failed (store out_stream p) c h = ground arith
part_failed (store err_stream p) c h = ground arith
part_failed (finish out_stream p) c h = ground arith
part_failed (finish err_stream p) c h = ground arith

parts_failed :
    (ps : List Part) (c : Copying)
    → any_write_failed (run_parts ps c) ≡ false
    → any_write_failed c ≡ false
unfolding run_parts
parts_failed [] c h = h
parts_failed (p ∷ ps) c h = part_failed p c (parts_failed ps (run_part p c) h)

-- One part, if no Write has failed after it.
part_whole :
    (p : Part) (c : Copying)
    → any_write_failed (run_part p c) ≡ false
    → ((run_part p c).stdout.buf ≡ c.stdout.buf ++ bytes_on out_stream (p ∷ []))
      × ((run_part p c).stderr.buf ≡ c.stderr.buf ++ bytes_on err_stream (p ∷ []))
unfolding run_part
part_whole (load out_stream) c h = (sym (append-nil c.stdout.buf), sym (append-nil c.stderr.buf))
part_whole (load err_stream) c h = (sym (append-nil c.stdout.buf), sym (append-nil c.stderr.buf))
part_whole (store out_stream p) c h =
    ground (arith, append-nil c.stdout.buf, append-nil c.stderr.buf)
part_whole (store err_stream p) c h =
    ground (arith, append-nil c.stdout.buf, append-nil c.stderr.buf)
part_whole (finish out_stream p) c h = ground (arith, append-nil p, append-nil c.stderr.buf)
part_whole (finish err_stream p) c h = ground (arith, append-nil p, append-nil c.stdout.buf)

bytes_on-cons :
    (s : Stream) (p : Part) (ps : List Part)
    → bytes_on s (p ∷ ps) ≡ bytes_on s (p ∷ []) ++ bytes_on s ps
bytes_on-cons out_stream (load t) ps = refl
bytes_on-cons err_stream (load t) ps = refl
bytes_on-cons out_stream (store t p) ps = refl
bytes_on-cons err_stream (store t p) ps = refl
bytes_on-cons out_stream (finish out_stream p) ps = simp append-nil
bytes_on-cons out_stream (finish err_stream p) ps = refl
bytes_on-cons err_stream (finish out_stream p) ps = refl
bytes_on-cons err_stream (finish err_stream p) ps = simp append-nil

pub parts_whole :
    (ps : List Part) (c : Copying)
    → any_write_failed (run_parts ps c) ≡ false
    → ((run_parts ps c).stdout.buf ≡ c.stdout.buf ++ bytes_on out_stream ps)
      × ((run_parts ps c).stderr.buf ≡ c.stderr.buf ++ bytes_on err_stream ps)
unfolding run_parts
parts_whole [] c h = (sym (append-nil c.stdout.buf), sym (append-nil c.stderr.buf))
parts_whole (p ∷ ps) c h =
    let (o, e) = part_whole p c (parts_failed ps (run_part p c) h) in
    let (os, es) = parts_whole ps (run_part p c) h in
    (
      rw (os, o, bytes_on-cons out_stream p ps)
          (append_assoc c.stdout.buf (bytes_on out_stream (p ∷ [])) (bytes_on out_stream ps)),
      rw (es, e, bytes_on-cons err_stream p ps)
          (append_assoc c.stderr.buf (bytes_on err_stream (p ∷ [])) (bytes_on err_stream ps)),
    )

finished-output :
    (c : Copying) (r : Option RunError) (out : Output)
    → executed c r ≡ finished out
    → (out.stdout ≡ c.stdout.buf) × (out.stderr ≡ c.stderr.buf)
unfolding executed
finished-output c none out h = ground arith
finished-output c (some (exit_status code e)) out h = absurd (cc)
finished-output c (some (other_failure e)) out h = absurd (cc)

module _ {W : Type 0} (os : OsExec W) (reports : ReportsCopying os) where
  not_failed :
      (c : Copying) (ran : CommandRun) (out : Output)
      → ran.result true ≢ none
      → executed c (ran.result (any_write_failed c)) ≡ finished out
      → any_write_failed c ≡ false
  unfolding executed
  not_failed c ran out reported h = elim (Bool-cases (any_write_failed c)) [
    | inr fine ↦ fine
    | inl failed ↦ absurd (ground arith)
  ]

  -- Let os/exec report copying that has failed. However the parts of the writes interleave, an output
  -- that is returned without an error has all that the process wrote to each of the two streams, in
  -- its order.
  pub exec_file-whole :
      (command : Command) (out : Output) (w : W)
      → (exec_file os command w).0 ≡ finished out
      → (out.stdout ≡ bytes_on out_stream (os.run command w).0.parts)
        × (out.stderr ≡ bytes_on err_stream (os.run command w).0.parts)
  unfolding exec_file new_copying
  exec_file-whole command out w h =
      let ran = (os.run command w).0 in
      let start = new_copying command.options.max_output_bytes in
      let copied = run_parts ran.parts start in
      let fine = not_failed copied ran out (reports command w) h in
      let (o, e) = parts_whole ran.parts start fine in
      let (p, q) = finished-output copied (ran.result (any_write_failed copied)) out h in
      (p ∙ o, q ∙ e)
