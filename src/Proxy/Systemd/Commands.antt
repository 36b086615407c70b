-- ===== src/Proxy/Systemd/Commands.antt =====
-- The commands that a call runs under systemd.
use capi_shell_mcp.Base.{
  ℤ, ℕ, ◌++◌, ◌∷◌, [], List, GoString, Bool, true, false, ok, ◌≡◌, ◌↔◌, refl, arith, if◌then◌else◌,
  Bool-cases, inl, inr,
}
use capi_shell_mcp.Shell.{Command, Executed, finished, exit_error, other_error}
use capi_shell_mcp.Proxy.Process.{Manager, StartOutcome}
use capi_shell_mcp.Proxy.Systemd.{
  unit_name, is_active_command, extend_command, start_command, says_active, result_of, ensure_proxy,
}

-- A command was run without an error.
abbrev pub succeeded : Executed → Bool
succeeded (finished out) = true
succeeded (exit_error out code e) = false
succeeded (other_error e) = false

-- A world that keeps the commands that were run, in order, and answers them.
abbrev pub recorded : (Command → Executed) → Command → List Command → Executed × List Command
recorded answer c w = (answer c, w ++ c ∷ [])

result_of-succeeded :
    (what : GoString) (r : Executed) → (result_of what r ≡ ok tt) ↔ (succeeded r ≡ true)
unfolding result_of
result_of-succeeded what (finished out) = ground arith
result_of-succeeded what (exit_error out code e) = ground arith
result_of-succeeded what (other_error e) = ground arith

-- The command that a call runs when it knows whether the unit is active.
abbrev pub second_command : Bool → GoString → GoString → GoString → ℤ → Command
second_command active ip port host ttl =
    if active then extend_command (unit_name ip port) ttl else start_command ip port host ttl

-- Under systemd a call asks whether the unit is active and then runs one command: it extends the
-- unit if the answer was that it is active, and starts it otherwise. It succeeds exactly if that
-- second command does, and it leaves the manager's own state alone.
pub ensure_proxy_systemd :
    (answer : Command → Executed) (is_under_systemd : List Command → Bool)
    (spawn : GoString → GoString → GoString → List Command → StartOutcome × List Command)
    (clock : List Command → ℕ) (ip port host : GoString) (ttl : ℤ) (m : Manager)
    → is_under_systemd [] ≡ true
    → ((ensure_proxy (recorded answer) is_under_systemd spawn clock ip port host ttl m []).2
        ≡ is_active_command (unit_name ip port)
          ∷ second_command
              (says_active (answer (is_active_command (unit_name ip port))))
              ip
              port
              host
              ttl
          ∷ [])
      × (((ensure_proxy (recorded answer) is_under_systemd spawn clock ip port host ttl m []).0
            ≡ ok tt)
          ↔ (succeeded (
                answer (
                  second_command
                    (says_active (answer (is_active_command (unit_name ip port))))
                    ip
                    port
                    host
                    ttl))
              ≡ true))
      × ((ensure_proxy (recorded answer) is_under_systemd spawn clock ip port host ttl m []).1 ≡ m)
unfolding ensure_proxy
ensure_proxy_systemd answer under spawn clock ip port host ttl m h =
    elim (Bool-cases (says_active (answer (is_active_command (unit_name ip port))))) [
      | inl active ↦ rw (h, active, ensure_proxy) (refl, result_of-succeeded _ _, refl)
      | inr idle ↦ rw (h, idle, ensure_proxy) (refl, result_of-succeeded _ _, refl)
    ]
