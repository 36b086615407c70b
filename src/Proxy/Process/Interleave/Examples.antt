-- ===== src/Proxy/Process/Interleave/Examples.antt =====
-- A tunnel is started, its timer comes due, and a call exchanges the timer before the callback runs.
use capi_shell_mcp.Base.{
  nat_eq, GoString, str_eq, lit, lookup, insert, delete, some, none, [], ◌∷◌, ◌≡◌, ◌⊎◌, Elem, refl,
}
use capi_shell_mcp.Proxy.Process.{
  ProcessEntry, finish_start, store_entry, after_func, stop_timer, refresh_entry, running, new,
}
use capi_shell_mcp.Proxy.Process.Invariant.{key_of}
use capi_shell_mcp.Proxy.Process.Interleave.{
  System, refreshing, starting, read_entry, take_out, begin, exchange, started, comes_due, initial,
  Reachable, start, next,
}
use capi_shell_mcp.Proxy.Process.Interleave.Watched.{tunnels_end}

abbrev k : GoString
k = lit "a"

abbrev asked : System
asked = record initial { pending = (k, starting) ∷ [] }

abbrev up : System
up = record initial { manager = store_entry k 7 10 new; pending = [] }

abbrev due : System
due = record up { manager = stop_timer 0 up.manager; callbacks = k ∷ [] }

abbrev asked_again : System
asked_again = record due { pending = (k, refreshing 1) ∷ [] }

abbrev refreshed : System
refreshed = record asked_again { manager = refresh_entry 1 k 20 due.manager; pending = [] }

refreshed-Reachable : Reachable refreshed
unfolding read_entry new lookup insert delete finish_start store_entry after_func stop_timer
refreshed-Reachable =
    next
      (next
        (next
          (next (next (start initial refl) (begin k refl refl))
            (started k 10 (running 7) refl refl))
          (comes_due 0 (record { due = 10; key = k }) refl refl))
        (begin k refl refl))
      (exchange k 1 20 refl refl)

there : lookup k refreshed.manager.process_entries ≡ some 1
unfolding new lookup insert delete store_entry after_func stop_timer refresh_entry
there = refl

tunnels_end_example :
    (e : ProcessEntry) × (lookup 1 refreshed.manager.heap ≡ some e)
    × ((key_of refreshed.manager e.timer ≡ some k) ⊎ Elem k refreshed.callbacks)
tunnels_end_example = tunnels_end refreshed refreshed-Reachable k 1 there

-- The call has extended the TTL, and then the callback of the old timer ends the tunnel.
ended_after_refresh :
    lookup k (take_out k (record refreshed { callbacks = [] })).manager.process_entries ≡ none
unfolding new lookup insert delete store_entry after_func stop_timer refresh_entry take_out
ended_after_refresh = refl
