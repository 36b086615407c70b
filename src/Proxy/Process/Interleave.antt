-- ===== src/Proxy/Process/Interleave.antt =====
-- The operations of the manager in the parts that the mutex and `group.Do` keep whole, interleaved in
-- any way. A call for a key first reads its entry; later it exchanges the timer, or it has waited for
-- its new process and stores it. A timer that is due runs its callback later; the callback, like the
-- tear-down, takes the entry out of the map, and later stops its timer and signals its process. Two
-- calls for a key are never under way at a time.
pub mod Safe
pub mod Exchange
pub mod Store
pub mod Removal
pub mod Steps
pub mod Ends
pub mod Watched
mod Examples
use capi_shell_mcp.Base.{
  ℕ, nat_eq, GoString, str_eq, Map, lookup, insert, delete, none, some, List, [], ◌∷◌, ◌++◌, ◌≡◌,
}
use capi_shell_mcp.Proxy.Process.{
  Manager, ArmedTimer, StartOutcome, refresh_entry, finish_start, stop_timer, signal_and_stop,
  reap_exited, new,
}

-- What a call under way has read.
pub data Pending : Type 0 where
  refreshing : ℕ → Pending
  starting : Pending

pub record System : Type 0 where
  pub manager : Manager
  pub pending : Map GoString Pending
  -- The keys of the callbacks that still have to run.
  pub callbacks : List GoString
  -- The entries that are out of the map and not yet ended.
  pub killing : List ℕ

unfoldable pub read_entry : GoString → System → Pending
read_entry k s = elim (lookup k s.manager.process_entries) [
  | none ↦ starting
  | some a ↦ refreshing a
]

-- The part of `killProcessEntry` under the mutex.
unfoldable pub take_out : GoString → System → System
take_out k s = elim (lookup k s.manager.process_entries) [
  | none ↦ s
  | some a ↦ record s {
    manager = record s.manager { process_entries = delete k s.manager.process_entries };
    killing = a ∷ s.killing;
  }
]

pub data Step (s s' : System) : Type 0 where
  begin :
      (k : GoString)
      → lookup k s.pending ≡ none
      → s' ≡ record s { pending = insert k (read_entry k s) s.pending }
      → Step s s'
  exchange :
      (k : GoString) (a due : ℕ)
      → lookup k s.pending ≡ some (refreshing a)
      → s' ≡ record s { manager = refresh_entry a k due s.manager; pending = delete k s.pending }
      → Step s s'
  started :
      (k : GoString) (due : ℕ) (outcome : StartOutcome)
      → lookup k s.pending ≡ some starting
      → s' ≡ record s {
        manager = (finish_start k due outcome s.manager).1;
        pending = delete k s.pending;
      }
      → Step s s'
  comes_due :
      (i : ℕ) (t : ArmedTimer)
      → lookup i s.manager.timers ≡ some t
      → s' ≡ record s { manager = stop_timer i s.manager; callbacks = t.key ∷ s.callbacks }
      → Step s s'
  calls_back :
      (k : GoString) (before after : List GoString)
      → s.callbacks ≡ before ++ k ∷ after
      → s' ≡ take_out k (record s { callbacks = before ++ after })
      → Step s s'
  tears_down : (k : GoString) → s' ≡ take_out k s → Step s s'
  ends :
      (a : ℕ) (before after : List ℕ)
      → s.killing ≡ before ++ a ∷ after
      → s' ≡ record s { manager = signal_and_stop a s.manager; killing = before ++ after }
      → Step s s'
  reaps : (k : GoString) (a : ℕ) → s' ≡ record s { manager = reap_exited k a s.manager } → Step s s'

abbrev pub initial : System
initial = record { manager = new; pending = []; callbacks = []; killing = [] }

pub data Reachable : System → Type 0 where
  start : (s : System) → s ≡ initial → Reachable s
  next : {s s' : System} → Reachable s → Step s s' → Reachable s'
