-- ===== src/Proxy/Examples.antt =====
-- Instances for the tunnels.
use capi_shell_mcp.Base.{
  pos, suc, arith, ℕ, ◌+◌, ◌∷◌, [], List, GoString, lit, str_eq, nat_eq, str_beq, lookup, insert,
  delete, none, some, ok, true, if◌then◌else◌, ◌≡◌, ◌≢◌, ◌↔◌, refl,
}
use capi_shell_mcp.Shell.{Command, Executed, finished}
use capi_shell_mcp.Proxy.Process.{
  Manager, StartOutcome, running, store_entry, refresh_entry, ProcessEntry, kill_process_entry,
  ensure_process_proxy, fire_timer, new,
}
use capi_shell_mcp.Proxy.Process.Invariant.{IsValid, entry_of, key_of, due_of, new-IsValid}
use capi_shell_mcp.Proxy.Process.Ensure.{process_of, ensure_process_proxy_deadline}
use capi_shell_mcp.Proxy.Process.Race.{refresh_after_kill}
use capi_shell_mcp.Proxy.Process.Unwatched.{arm_entry, put_entry, put_entry_after_fire}
use capi_shell_mcp.Proxy.Process.Reach.{Reachable, start, next, ensure, fire, Reachable-IsValid}
use capi_shell_mcp.Proxy.Systemd.{ensure_proxy, unit_name, is_active_command, says_active}
use capi_shell_mcp.Proxy.Systemd.Commands.{
  succeeded, recorded, second_command, ensure_proxy_systemd,
}

abbrev key : GoString
key = lit "10.0.0.1:6443"

-- A process with the number 7 that keeps running; the world is the time.
abbrev spawn_seven : ℕ → StartOutcome × ℕ
spawn_seven w = (running 7, w + 2)

abbrev clock : ℕ → ℕ
clock w = w

abbrev one_tunnel : Manager
one_tunnel = (ensure_process_proxy spawn_seven clock key 100 new 10).1

one_tunnel_process : process_of one_tunnel key ≡ some 7
unfolding ensure_process_proxy store_entry new lookup insert
one_tunnel_process = refl

one_tunnel_ok : (ensure_process_proxy spawn_seven clock key 100 new 10).0 ≡ ok tt
unfolding ensure_process_proxy store_entry new lookup insert
one_tunnel_ok = refl

one_tunnel-IsValid : IsValid one_tunnel
one_tunnel-IsValid =
    (ensure_process_proxy_deadline spawn_seven clock new key 100 10 key new-IsValid one_tunnel_ok).0

ensure_process_proxy_deadline_example :
    IsValid (ensure_process_proxy spawn_seven clock key 100 new 10).1
    × (due_of (ensure_process_proxy spawn_seven clock key 100 new 10).1 key ≡ (
        if str_beq key key
        then some (clock (ensure_process_proxy spawn_seven clock key 100 new 10).2 + 100)
        else due_of new key))
    × (process_of (ensure_process_proxy spawn_seven clock key 100 new 10).1 key ≡ (
        if str_beq key key
        then process_of (ensure_process_proxy spawn_seven clock key 100 new 10).1 key
        else process_of new key))
ensure_process_proxy_deadline_example =
    ensure_process_proxy_deadline spawn_seven clock new key 100 10 key new-IsValid one_tunnel_ok

tunnel_there : entry_of one_tunnel key ≢ none
unfolding ensure_process_proxy store_entry new lookup insert
tunnel_there h = absurd (cc)

-- Its timer has the number 0 and is due at 112.
tunnel_gone : entry_of (fire_timer 0 112 one_tunnel) key ≡ none
unfolding ensure_process_proxy store_entry new lookup insert fire_timer kill_process_entry delete
tunnel_gone = refl

abbrev seven : ProcessEntry
seven = record { process = 7; timer = 0 }

key_at_one : lookup key one_tunnel.process_entries ≡ some 1
unfolding ensure_process_proxy store_entry new lookup insert
key_at_one = refl

seven_at_one : lookup 1 one_tunnel.heap ≡ some seven
unfolding ensure_process_proxy store_entry new lookup insert
seven_at_one = refl

refresh_after_kill_example :
    (entry_of (refresh_entry 1 key 300 (kill_process_entry key one_tunnel)) key ≡ none)
    × (lookup one_tunnel.next (refresh_entry 1 key 300 (kill_process_entry key one_tunnel)).timers
        ≡ some (record { due = 300; key = key }))
refresh_after_kill_example = refresh_after_kill one_tunnel key 1 seven key_at_one seven_at_one 300

-- A tunnel is made and its timer fires.
abbrev made : Manager
made = (ensure_process_proxy {W = Unit {0}} (λ _. (running 7, tt)) (λ _. 10) key 100 new tt).1

abbrev two_steps : Reachable (fire_timer 0 200 made)
two_steps = next (next (start new refl) (ensure key 100 10 (running 7) refl)) (fire 0 200 refl)

Reachable-IsValid_example : IsValid (fire_timer 0 200 made)
Reachable-IsValid_example = Reachable-IsValid (fire_timer 0 200 made) two_steps

-- Every command succeeds, with the text of an active unit.
abbrev all_active : Command → Executed
all_active c = finished (record { stdout = lit "active\n"; stderr = [] })

abbrev start_seven : GoString → GoString → GoString → List Command → StartOutcome × List Command
start_seven ip port host w = (running 7, w)

ensure_proxy_systemd_example :
    ((ensure_proxy
        (recorded all_active)
        (λ w. true)
        start_seven
        (λ w. 0)
        (lit "10.0.0.1")
        (lit "6443")
        (lit "bastion")
        (pos 3_600_000_000_000)
        new
        []).2
      ≡ is_active_command (unit_name (lit "10.0.0.1") (lit "6443"))
        ∷ second_command
            (says_active (all_active (is_active_command (unit_name (lit "10.0.0.1") (lit "6443")))))
            (lit "10.0.0.1")
            (lit "6443")
            (lit "bastion")
            (pos 3_600_000_000_000)
        ∷ [])
    × (((ensure_proxy
            (recorded all_active)
            (λ w. true)
            start_seven
            (λ w. 0)
            (lit "10.0.0.1")
            (lit "6443")
            (lit "bastion")
            (pos 3_600_000_000_000)
            new
            []).0
          ≡ ok tt)
        ↔ (succeeded (
              all_active (
                second_command
                  (says_active
                    (all_active (is_active_command (unit_name (lit "10.0.0.1") (lit "6443")))))
                  (lit "10.0.0.1")
                  (lit "6443")
                  (lit "bastion")
                  (pos 3_600_000_000_000)))
            ≡ true))
    × ((ensure_proxy
          (recorded all_active)
          (λ w. true)
          start_seven
          (λ w. 0)
          (lit "10.0.0.1")
          (lit "6443")
          (lit "bastion")
          (pos 3_600_000_000_000)
          new
          []).1
        ≡ new)
ensure_proxy_systemd_example =
    ensure_proxy_systemd all_active (λ w. true) start_seven (λ w. 0) (lit "10.0.0.1") (lit "6443")
      (lit "bastion") (pos 3_600_000_000_000) new refl

new_absent : lookup key new.process_entries ≡ none
unfolding new lookup
new_absent = refl

-- The TTL of the tunnel is 0, so that its timer fires at once.
put_entry_after_fire_example :
    (entry_of (put_entry key (suc new.next) (fire_timer new.next 9 (arm_entry key 7 9 new))) key
      ≡ some (record { process = 7; timer = new.next }))
    × ((put_entry key (suc new.next) (fire_timer new.next 9 (arm_entry key 7 9 new))).signalled
        ≡ new.signalled)
    × ((i : ℕ)
        → key_of (put_entry key (suc new.next) (fire_timer new.next 9 (arm_entry key 7 9 new))) i
          ≢ some key)
put_entry_after_fire_example =
    put_entry_after_fire new new-IsValid key 7 9 9 new_absent (omega arith)
