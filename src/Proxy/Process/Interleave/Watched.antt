-- ===== src/Proxy/Process/Interleave/Watched.antt =====
-- Tunnels and their timers in the systems that the interleaved parts reach.
use capi_shell_mcp.Base.{
  ℕ, nat_eq, GoString, str_eq, lookup, some, ◌≡◌, ◌⊎◌, inl, inr, Elem, Option-cases, subst, sym,
}
use capi_shell_mcp.Proxy.Process.{ProcessEntry}
use capi_shell_mcp.Proxy.Process.Invariant.{key_of}
use capi_shell_mcp.Proxy.Process.Interleave.{
  System, Step, begin, exchange, started, comes_due, calls_back, tears_down, ends, reaps, Reachable,
  start, next,
}
use capi_shell_mcp.Proxy.Process.Interleave.Safe.{IsSafe}
use capi_shell_mcp.Proxy.Process.Interleave.Steps.{
  initial-IsSafe, begin-IsSafe, exchange-IsSafe, started-IsSafe,
}
use capi_shell_mcp.Proxy.Process.Interleave.Ends.{
  take_out-IsSafe, calls_back-IsSafe, comes_due-IsSafe, ends-IsSafe, reaps-IsSafe,
}

Step-IsSafe : {s s' : System} → Step s s' → IsSafe s → IsSafe s'
Step-IsSafe {s} (begin k idle e) v = subst IsSafe (sym e) (begin-IsSafe s v k)
Step-IsSafe {s} (exchange k a due reads e) v =
    subst IsSafe (sym e) (exchange-IsSafe s v k a due reads)
Step-IsSafe {s} (started k due outcome reads e) v =
    subst IsSafe (sym e) (started-IsSafe s v k due outcome reads)
Step-IsSafe {s} (comes_due i t armed e) v = subst IsSafe (sym e) (comes_due-IsSafe s v i t armed)
Step-IsSafe {s} (calls_back k before after waiting e) v =
    subst IsSafe (sym e) (calls_back-IsSafe s v k before after waiting)
Step-IsSafe {s} (tears_down k e) v = subst IsSafe (sym e) (take_out-IsSafe s v k)
Step-IsSafe {s} (ends a before after waiting e) v =
    subst IsSafe (sym e) (ends-IsSafe s v a before after waiting)
Step-IsSafe {s} (reaps k a e) v = subst IsSafe (sym e) (reaps-IsSafe s v k a)

Reachable-IsSafe : (s : System) → Reachable s → IsSafe s
Reachable-IsSafe s (start _ e) = subst IsSafe (sym e) initial-IsSafe
Reachable-IsSafe s (next r step) = Step-IsSafe step (Reachable-IsSafe _ r)

-- However the parts of calls, callbacks, tear-downs and exits interleave, where the arming of a timer
-- and the storing of its entry are one part, and so is the exchange of a timer, every tunnel in the map is going to end: its own timer is
-- armed for its key, or a callback for its key still has to run.
pub tunnels_end :
    (s : System)
    → Reachable s
    → (k : GoString) (a : ℕ) → lookup k s.manager.process_entries ≡ some a
    → (e : ProcessEntry) × (lookup a s.manager.heap ≡ some e)
      × ((key_of s.manager e.timer ≡ some k) ⊎ Elem k s.callbacks)
tunnels_end s r k a at_key =
    let v = Reachable-IsSafe s r in
    elim (Option-cases (lookup a s.manager.heap)) [
      | inl nothing ↦ absurd (v.heap.no_dangling k a at_key nothing)
      | inr (e, there) ↦ (e, there, v.watched k a e at_key there)
    ]
