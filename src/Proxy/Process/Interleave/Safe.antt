-- ===== src/Proxy/Process/Interleave/Safe.antt =====
-- What holds in every interleaving, by the part of the system that it is about.
use capi_shell_mcp.Base.{
  ℕ, ◌<◌, nat_eq, GoString, str_eq, Map, lookup, none, some, List, ◌≡◌, ◌≢◌, ◌⊎◌, Elem,
}
use capi_shell_mcp.Proxy.Process.{Manager, ProcessEntry}
use capi_shell_mcp.Proxy.Process.Invariant.{key_of}
use capi_shell_mcp.Proxy.Process.Interleave.{System, Pending, refreshing, starting}

-- The objects of the heap.
pub record IsHeap (m : Manager) : Type 0 where
  pub no_dangling :
      (k : GoString) (a : ℕ) → lookup k m.process_entries ≡ some a → lookup a m.heap ≢ none
  pub alone :
      (j k : GoString) (a : ℕ)
      → lookup j m.process_entries ≡ some a
      → lookup k m.process_entries ≡ some a
      → j ≡ k
  pub own_timer :
      (a b : ℕ) (e f : ProcessEntry)
      → lookup a m.heap ≡ some e
      → lookup b m.heap ≡ some f
      → e.timer ≡ f.timer
      → a ≡ b
  pub address_below : (a : ℕ) (e : ProcessEntry) → lookup a m.heap ≡ some e → a < m.next
  pub timer_below : (a : ℕ) (e : ProcessEntry) → lookup a m.heap ≡ some e → e.timer < m.next

-- The timer of each tunnel is armed for it, or a callback that ends it still has to run.
abbrev pub AreWatched : Manager → List GoString → Type 0
AreWatched m callbacks =
    (k : GoString) (a : ℕ) (e : ProcessEntry)
    → lookup k m.process_entries ≡ some a
    → lookup a m.heap ≡ some e
    → (key_of m e.timer ≡ some k) ⊎ Elem k callbacks

-- What the calls under way may rely on.
pub record IsPending (m : Manager) (pending : Map GoString Pending) : Type 0 where
  pub read :
      (k : GoString) (a : ℕ) → lookup k pending ≡ some (refreshing a) → lookup a m.heap ≢ none
  pub read_alone :
      (j k : GoString) (a : ℕ)
      → lookup k pending ≡ some (refreshing a)
      → lookup j m.process_entries ≡ some a
      → j ≡ k
  pub absent : (k : GoString) → lookup k pending ≡ some starting → lookup k m.process_entries ≡ none

abbrev pub AreOut : Manager → List ℕ → Type 0
AreOut m killing =
    (a : ℕ) → Elem a killing → (a < m.next) × ((k : GoString) → lookup k m.process_entries ≢ some a)

pub record IsSafe (s : System) : Type 0 where
  pub heap : IsHeap s.manager
  pub watched : AreWatched s.manager s.callbacks
  pub calls : IsPending s.manager s.pending
  pub out : AreOut s.manager s.killing
