-- ===== src/HttpServer.antt =====
-- internal/httpserver: the listener, the check of the Host header and the messages to systemd. The
-- network is the fields of `Network`, on a world `W`. A request is one for the path /mcp: the ServeMux
-- answers those for any other path, and they reach nothing. What is written to stderr is left out.
pub mod Guard
use capi_shell_mcp.Base.{
  ℕ, ◌+◌, GoString, lit, List, [], ◌∷◌, ◌++◌, str_beq, itoa, Exec, bind, with_error, wrapped, ok,
  if◌then◌else◌, not, ◌&&◌, is_empty, zero, suc,
}
use capi_shell_mcp.Config.{ℤ, print_int}
use capi_shell_mcp.Shell.{Command, Executed, no_options}

pub record Listener : Type 0 where
  pub port : ℕ
  pub addr : GoString

pub record HttpRequest : Type 0 where
  pub host : GoString
  pub body : GoString

pub record Response : Type 0 where
  pub status : ℕ
  pub content_type : GoString
  pub body : GoString

pub record Network (W : Type 0) : Type 0 where
  -- net.Listen of "tcp" and an address.
  pub listen : GoString → Exec W Listener
  -- http.Server.Shutdown
  pub shutdown : Exec W (Unit {0})
  -- The MCP sessions, by their ids.
  pub sessions : W → List GoString
  pub getenv : GoString → GoString
  pub exec_file : Command → W → Executed × W

abbrev pub loopback : GoString
loopback = lit "127.0.0.1"

abbrev pub misdirected_request : Response
misdirected_request = record {
  status = 421;
  content_type = lit "text/plain";
  body = lit "Misdirected Request";
}

unfoldable pub host_check_middleware :
    {S : Type 0} → ℕ → (HttpRequest → S → Response × S) → HttpRequest → S → Response × S
host_check_middleware port next r s =
    let with_port = loopback ++ (b':' ∷ itoa port) in
    if not (str_beq r.host loopback) && not (str_beq r.host with_port)
    then (misdirected_request, s)
    else next r s

-- The loop that counts.
unfoldable pub session_count : List GoString → ℕ
session_count [] = 0
session_count (_ ∷ sessions) = 1 + session_count sessions

abbrev pub listen_address : ℤ → GoString
listen_address port = loopback ++ (b':' ∷ print_int port)

module _ {W : Type 0} (network : Network W) where
  abbrev pub notify_command : List GoString → Command
  notify_command args = record { file = lit "systemd-notify"; args = args; options = no_options }

  -- A failure is logged and ignored.
  unfoldable pub notify_systemd : List GoString → W → W
  notify_systemd args w =
      if is_empty (network.getenv (lit "NOTIFY_SOCKET"))
      then w
      else (network.exec_file (notify_command args) w).1

  abbrev pub ready_args : Listener → ℕ → List GoString
  ready_args ln sessions =
      lit "--ready"
      ∷ (lit "--status=listening on " ++ (ln.addr ++ (lit ", sessions=" ++ itoa sessions)))
      ∷ []

  unfoldable pub start : ℤ → Exec W Listener
  unfolding notify_systemd session_count
  start port =
      bind
        (λ w.
          with_error (wrapped (lit "httpserver: listening on " ++ listen_address port))
            (network.listen (listen_address port) w))
        λ ln w. (ok ln, notify_systemd (ready_args ln (session_count (network.sessions w))) w)

  unfoldable pub close : Exec W (Unit {0})
  unfolding notify_systemd
  close w =
      let (r, w') = network.shutdown w in
      (r, notify_systemd (lit "--stopping" ∷ lit "--status=shutting down" ∷ []) w')
