-- ===== src/Exec/Temp.antt =====
-- writeTempKubeconfig of internal/exec/exec.go, and what becomes of the file. The packages os and
-- crypto/rand are the fields of `TempFiles`.
mod Examples
use capi_shell_mcp.Base.{
  ℕ, ◌/◌, ◌-◌, ◌+◌, ltb, GoString, lit, List, [], ◌∷◌, ◌++◌, Map, Option, none, some, Result, ok,
  err, GoError, bind, continue, succeeded_with, subst, Exec, if◌then◌else◌, ◌≡◌, refl, ap, ◌∙◌, sym,
  arith, inl, inr, ◌⊎◌, Result-cases, Option-cases,
}
use Prim.Native.Nat.{◌%◌}
use capi_shell_mcp.Shell.{Command, Executed}
use capi_shell_mcp.Exec.{System, ExecResult, env_of, exec_result, with_kubeconfig, command_in}

pub record TempFiles (W : Type 0) : Type 0 where
  -- rand.Read of that many bytes.
  pub random : ℕ → Exec W (List ℕ)
  pub temp_dir : W → GoString
  pub join_path : GoString → GoString → GoString
  -- os.WriteFile with the mode 0600.
  pub write_private : GoString → GoString → W → Option GoError × W
  pub remove : GoString → W → Option GoError × W

hex_digit : ℕ → ℕ
hex_digit d = if ltb d 10 then d + b'0' else d - 10 + b'a'

unfoldable pub hex_encode : List ℕ → GoString
unfolding hex_digit
hex_encode [] = []
hex_encode (b ∷ bs) = hex_digit (b / 16) ∷ hex_digit (b % 16) ∷ hex_encode bs

hex_lower : hex_encode (0 ∷ 175 ∷ []) ≡ lit "00af"
unfolding hex_encode
hex_lower = refl

abbrev pub temp_name : List ℕ → GoString
temp_name suffix = lit "capi-shell-mcp-" ++ (hex_encode suffix ++ lit ".yaml")

module _ {W : Type 0} (files : TempFiles W) where
  abbrev pub written_to : GoString → Option GoError × W → Result GoString × W
  written_to path (none, w) = (ok path, w)
  written_to path (some e, w) = (err e, w)

  unfoldable pub write_temp_kubeconfig : GoString → Exec W GoString
  write_temp_kubeconfig contents = bind (files.random 8) λ suffix w.
      let path = files.join_path (files.temp_dir w) (temp_name suffix) in
      written_to path (files.write_private path contents w)

  abbrev pub with_temp : System W → System W
  with_temp system = record system { write_temp = write_temp_kubeconfig; remove = files.remove }

  -- A file that was written without an error has the contents, and one that was removed without an
  -- error is not there.
  pub record IsFileSystem (read : GoString → W → Option GoString) : Type 0 where
    pub written :
        (path contents : GoString) (w : W)
        → (files.write_private path contents w).0 ≡ none
        → read path (files.write_private path contents w).1 ≡ some contents
    pub removed :
        (path : GoString) (w : W)
        → (files.remove path w).0 ≡ none
        → read path (files.remove path w).1 ≡ none

  module _ (read : GoString → W → Option GoString) (fs : IsFileSystem read) where
    written_to-ok :
        (path contents p : GoString) (w : W)
        → (written_to path (files.write_private path contents w)).0 ≡ ok p
        → read p (written_to path (files.write_private path contents w)).1 ≡ some contents
    written_to-ok path contents p w h =
        elim (Option-cases (files.write_private path contents w).0) [
          | inl fine ↦
              let there = fs.written path contents w fine in
              let same : path ≡ p = ground arith in ground arith
          | inr (e, bad) ↦ absurd (ground arith)
        ]

    abbrev path_for : List ℕ → W → GoString
    path_for suffix w = files.join_path (files.temp_dir w) (temp_name suffix)

    drawn_lem :
        (contents : GoString) (suffix : List ℕ) (w : W)
        → (files.random 8 w).0 ≡ ok suffix
        → write_temp_kubeconfig contents w
          ≡ written_to (path_for suffix (files.random 8 w).1) (
              files.write_private
                (path_for suffix (files.random 8 w).1)
                contents
                (files.random 8 w).1)
    unfolding write_temp_kubeconfig
    drawn_lem contents suffix w drawn =
        ap
          (λ (r : Result (List ℕ) × W).
            continue r
              (λ x t. written_to (path_for x t) (files.write_private (path_for x t) contents t)))
          (succeeded_with (files.random 8 w) suffix drawn)

    write_temp_kubeconfig_lem :
        (contents p : GoString) (w : W)
        → (write_temp_kubeconfig contents w).0 ≡ ok p
        → read p (write_temp_kubeconfig contents w).1 ≡ some contents
    unfolding write_temp_kubeconfig
    write_temp_kubeconfig_lem contents p w h = elim (Result-cases (files.random 8 w).0) [
      | inl (suffix, drawn) ↦
          let same = drawn_lem contents suffix w drawn in
          let at = path_for suffix (files.random 8 w).1 in
          subst (λ (r : Result GoString × W). read p r.1 ≡ some contents) (sym same)
            (written_to-ok at contents p (files.random 8 w).1
              (ap (λ (r : Result GoString × W). r.0) (sym same) ∙ h))
      | inr (e, bad) ↦ absurd (ground arith)
    ]

    -- Let files keep what is written to them until they are removed. If a command was run, then at
    -- that time the file of the last variable of its environment, KUBECONFIG, had the given
    -- kubeconfig; the result is that of this run; and whatever the command did, this file is removed
    -- as the last thing of the call, so that afterwards it is not there, unless the removal fails.
    pub with_kubeconfig_cleans_up :
        (system : System W) (kc : GoString) (vars : Map GoString GoString) (command : List GoString)
        (stdin : GoString) (done : ExecResult) (w : W)
        → (with_kubeconfig (with_temp system) kc vars command stdin w).0 ≡ ok done
        → (path : GoString) × (c : Command) × (w' : W) × (c.file ∷ c.args ≡ command)
          × (c.options.env
              ≡ system.environ w' ++ (env_of vars ++ ((lit "KUBECONFIG=" ++ path) ∷ [])))
          × (read path w' ≡ some kc)
          × (done ≡ exec_result (with_temp system) (system.exec_file c w').0)
          × ((with_kubeconfig (with_temp system) kc vars command stdin w).1
              ≡ (files.remove path (system.exec_file c w').1).1)
          × ((read path (with_kubeconfig (with_temp system) kc vars command stdin w).1 ≡ none)
              ⊎ ((e : GoError) × ((files.remove path (system.exec_file c w').1).0 ≡ some e)))
    unfolding with_kubeconfig
    with_kubeconfig_cleans_up system kc vars [] stdin done w h = absurd (cc)
    with_kubeconfig_cleans_up system kc vars (file ∷ args) stdin done w h =
        elim (Result-cases (write_temp_kubeconfig kc w).0) [
          | inr (e, bad) ↦ absurd (ground arith)
          | inl (path, fine) ↦
              let w' = (write_temp_kubeconfig kc w).1 in
              let c = command_in (with_temp system) w' path vars file args stdin in
              (
                path,
                c,
                w',
                refl,
                refl,
                write_temp_kubeconfig_lem kc path w fine,
                ground arith,
                ground arith,
                elim (Option-cases (files.remove path (system.exec_file c w').1).0) [
                  | inl gone ↦ inl (ground (arith, fs.removed path (system.exec_file c w').1 gone))
                  | inr failed ↦ inr failed
                ],
              )
        ]
