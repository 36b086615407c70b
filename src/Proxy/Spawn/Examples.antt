-- ===== src/Proxy/Spawn/Examples.antt =====
-- Instances for the start of a tunnel's process. The world is the time.
use capi_shell_mcp.Base.{ℕ, ◌+◌, lit, str_eq, lookup, none, some, ok, ◌≡◌, ◌↔◌, ◌⊎◌, refl}
use capi_shell_mcp.Proxy.Process.{new, target_key}
use capi_shell_mcp.Proxy.Spawn.{ProcessOs, StaysUp, called, ensure_process_proxy_starts}

-- Process 7 starts, and exits with the code 1 half a second later.
abbrev failing : ProcessOs ℕ
failing = record {
  lookup_env = λ name w. none;
  start = λ args w. (ok 7, w);
  exits_within = λ window process w. (some (some 1), w + 500_000_000);
}

abbrev clock : ℕ → ℕ
clock w = w

no_tunnel : lookup (target_key (lit "10.0.0.1") (lit "6443")) new.process_entries ≡ none
unfolding new lookup
no_tunnel = refl

ensure_process_proxy_starts_example :
    ((called failing clock (lit "bastion") (lit "10.0.0.1") (lit "6443") 60 new 5 no_tunnel).0
        ≡ ok tt
      ↔ StaysUp failing clock (lit "bastion") (lit "10.0.0.1") (lit "6443") 60 new 5 no_tunnel)
    × (((called failing clock (lit "bastion") (lit "10.0.0.1") (lit "6443") 60 new 5 no_tunnel).0
          ≡ ok tt)
        ⊎ ((called failing clock (lit "bastion") (lit "10.0.0.1") (lit "6443") 60 new 5 no_tunnel).1
            ≡ new))
ensure_process_proxy_starts_example =
    ensure_process_proxy_starts failing clock (lit "bastion") (lit "10.0.0.1") (lit "6443") 60 new 5
      no_tunnel
