-- ===== src/Proxy/Systemd.antt =====
-- The tunnels of internal/proxy/manager.go that are units of systemd, and `EnsureProxy`. The only
-- state is that of systemd, so the functions act on a world `W` through `exec_file`, which runs a
-- command.
pub mod Commands
use capi_shell_mcp.Base.{
  ℤ, print_int, whole_seconds, delay, ℕ, ◌+◌, ◌++◌, ◌∷◌, [], List, GoString, lit, trim_space, itoa,
  Bool, true, false, Result, ok, err, wrapped, GoError, ◌==◌, str_eq, if◌then◌else◌, ◌/◌,
}
use capi_shell_mcp.Shell.{Command, Executed, finished, exit_error, other_error, no_options}
use capi_shell_mcp.Proxy.Process.{Manager, StartOutcome, target_key, ensure_process_proxy}

unfoldable pub unit_name : GoString → GoString → GoString
unit_name api_server_ip api_server_port =
    lit "capi-shell-api-endpoint-proxy-sshuttle-"
    ++ (api_server_ip ++ (b':' ∷ (api_server_port ++ lit ".service")))

abbrev pub is_active_command : GoString → Command
is_active_command name = record {
  file = lit "systemctl";
  args = lit "--user" ∷ lit "is-active" ∷ name ∷ [];
  options = no_options;
}

abbrev pub extend_command : GoString → ℤ → Command
extend_command name ttl = record {
  file = lit "systemctl";
  args =
      lit "--user"
      ∷ lit "set-property"
      ∷ name
      ∷ (lit "RuntimeMaxSec=" ++ print_int (whole_seconds ttl))
      ∷ [];
  options = no_options;
}

abbrev pub start_command : GoString → GoString → GoString → ℤ → Command
start_command ip port sshuttle_host ttl = record {
  file = lit "systemd-run";
  args =
      lit "--user"
      ∷ (lit "--unit=" ++ unit_name ip port)
      ∷ (lit "--property=RuntimeMaxSec=" ++ print_int (whole_seconds ttl))
      ∷ lit "--property=Restart=on-failure"
      ∷ lit "--property=RestartSec=2"
      ∷ lit "--property=StartLimitIntervalSec=60"
      ∷ lit "--property=StartLimitBurst=3"
      ∷ lit "--collect"
      ∷ lit "--slice=capi-shell-api-endpoint-proxy.slice"
      ∷ lit "--"
      ∷ lit "sshuttle"
      ∷ lit "-r"
      ∷ sshuttle_host
      ∷ target_key ip port
      ∷ [];
  options = no_options;
}

-- Any error means that the unit is not active.
unfoldable pub says_active : Executed → Bool
says_active (finished out) = trim_space out.stdout == lit "active"
says_active (exit_error out code e) = false
says_active (other_error e) = false

unfoldable pub result_of : GoString → Executed → Result (Unit {0})
result_of what (finished out) = ok tt
result_of what (exit_error out code e) = err (wrapped what e)
result_of what (other_error e) = err (wrapped what e)

module _ {W : Type 0} (exec_file : Command → W → Executed × W) where
  unfoldable pub is_unit_active : GoString → W → Bool × W
  unfolding says_active
  is_unit_active name w = let (r, w') = exec_file (is_active_command name) w in (says_active r, w')

  unfoldable pub ensure_systemd_proxy :
      GoString → GoString → GoString → ℤ → W → Result (Unit {0}) × W
  unfolding is_unit_active result_of
  ensure_systemd_proxy ip port sshuttle_host ttl w =
      let name = unit_name ip port in
      let (active, w1) = is_unit_active name w in
      if active
      then (let (r, w2) = exec_file (extend_command name ttl) w1 in
          (result_of (lit "proxy: extending " ++ name) r, w2))
      else (let (r, w2) = exec_file (start_command ip port sshuttle_host ttl) w1 in
          (result_of (lit "proxy: starting systemd-run tunnel") r, w2))

  -- One call at a time for a key: those that come meanwhile share its result.
  unfoldable pub ensure_proxy :
      (W → Bool)
      → (GoString → GoString → GoString → W → StartOutcome × W)
      → (W → ℕ)
      → GoString
      → GoString
      → GoString
      → ℤ
      → Manager
      → W
      → Result (Unit {0}) × Manager × W
  unfolding ensure_systemd_proxy
  ensure_proxy is_under_systemd spawn_process clock ip port sshuttle_host ttl m w =
      if is_under_systemd w
      then (let (r, w') = ensure_systemd_proxy ip port sshuttle_host ttl w in (r, m, w'))
      else ensure_process_proxy (spawn_process sshuttle_host ip port) clock (target_key ip port)
          (delay ttl) m w
