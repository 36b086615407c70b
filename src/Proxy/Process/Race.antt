-- ===== src/Proxy/Process/Race.antt =====
-- The two halves of a call of ensureProcessProxy with another step between them: the entry is read
-- under the mutex, and its timer is exchanged after the mutex was released.
use capi_shell_mcp.Base.{
  ℕ, nat_eq, nat_beq_iff, GoString, str_eq, str_beq_iff, lookup, lookup-insert, lookup-delete,
  delete, insert, none, some, ◌≡◌, suc, ◌∷◌, arith,
}
use capi_shell_mcp.Proxy.Process.{ProcessEntry, Manager, refresh_entry, kill_process_entry}
use capi_shell_mcp.Proxy.Process.Invariant.{entry_of}
use capi_shell_mcp.Proxy.Process.Kill.{kill_present}

module _ (m : Manager) (k : GoString) (a : ℕ) (e : ProcessEntry)
    (at_key : lookup k m.process_entries ≡ some a) (at_address : lookup a m.heap ≡ some e) where
  exchanged :
      (due : ℕ)
      → refresh_entry a k due (kill_process_entry k m) ≡ record m {
        process_entries = delete k m.process_entries;
        timers =
            insert m.next
              (record { due = due; key = k })
              (delete e.timer (delete e.timer m.timers));
        next = suc m.next;
        heap = insert a (record e { timer = m.next }) m.heap;
        signalled = e.process ∷ m.signalled;
      }
  unfolding refresh_entry
  exchanged due = rw (kill_present k m a e at_key at_address) (ground arith)

  -- If the tunnel of the key is ended, as by its timer, after a call for the key has read its entry
  -- and before that call exchanges the timer, then after the call the key has no tunnel, and a new
  -- timer is armed that kills by this key, so that it ends the next tunnel of the key.
  pub refresh_after_kill :
      (due : ℕ)
      → (entry_of (refresh_entry a k due (kill_process_entry k m)) k ≡ none)
        × (lookup m.next (refresh_entry a k due (kill_process_entry k m)).timers
            ≡ some (record { due = due; key = k }))
  refresh_after_kill due = rw (exchanged due) (
    ground (arith, lookup-delete k k m.process_entries, str_beq_iff k k),
    ground (
      arith,
      lookup-insert m.next m.next (record { due = due; key = k })
          (delete e.timer (delete e.timer m.timers)),
      nat_beq_iff m.next m.next,
    ),
  )
