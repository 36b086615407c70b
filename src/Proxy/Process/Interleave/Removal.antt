-- ===== src/Proxy/Process/Interleave/Removal.antt =====
-- Entries are taken out of the map, and timers disarmed.
use capi_shell_mcp.Base.{
  ℕ, ◌<◌, nat_eq, nat_beq_iff, GoString, str_eq, str_beq, str_beq_iff, Map, lookup, delete,
  lookup-delete, none, some, List, ◌∷◌, ◌++◌, ◌≡◌, ◌≢◌, inl, inr, Elem-append, if◌then◌else◌,
  Option-cases, arith,
}
use capi_shell_mcp.Proxy.Process.{Manager, ProcessEntry, ArmedTimer}
use capi_shell_mcp.Proxy.Process.Interleave.{Pending}
use capi_shell_mcp.Proxy.Process.Interleave.Safe.{IsHeap, AreWatched, IsPending, AreOut}

module _ (m : Manager) (h : IsHeap m) (k : GoString) where
  abbrev pub taken : Manager
  taken = record m { process_entries = delete k m.process_entries }

  taken_entries :
      (j : GoString)
      → lookup j taken.process_entries ≡ (if str_beq k j then none else lookup j m.process_entries)
  taken_entries j = lookup-delete k j m.process_entries

  pub taken-IsHeap : IsHeap taken
  taken-IsHeap = record {
    no_dangling = λ j b g. h.no_dangling j b (ground (arith, taken_entries j));
    alone = λ i j b f g.
        h.alone i j b (ground (arith, taken_entries i)) (ground (arith, taken_entries j));
    own_timer = h.own_timer;
    address_below = h.address_below;
    timer_below = h.timer_below;
  }

  pub taken-AreWatched :
      (callbacks : List GoString) → AreWatched m callbacks → AreWatched taken callbacks
  taken-AreWatched callbacks w j b f g there = w j b f (ground (arith, taken_entries j)) there

  pub taken-IsPending :
      (pending : Map GoString Pending) → IsPending m pending → IsPending taken pending
  taken-IsPending pending p = record {
    read = p.read;
    read_alone = λ i j b g f. p.read_alone i j b g (ground (arith, taken_entries i));
    absent = λ j g. ground (arith, taken_entries j, p.absent j g);
  }

  pub taken-AreOut : (killing : List ℕ) → AreOut m killing → AreOut taken killing
  taken-AreOut killing o b g = ((o b g).0, λ j f. (o b g).1 j (ground (arith, taken_entries j)))

  -- The object that was taken out is in the map no more.
  pub taken_out :
      (a : ℕ)
      → lookup k m.process_entries ≡ some a
      → (a < m.next) × ((j : GoString) → lookup j taken.process_entries ≢ some a)
  taken_out a at_key = elim (Option-cases (lookup a m.heap)) [
    | inl nothing ↦ absurd (h.no_dangling k a at_key nothing)
    | inr (e, there) ↦ (
      h.address_below a e there,
      λ j f. ground (arith, taken_entries j, h.alone j k a, str_beq_iff k j),
    )
  ]

-- A callback whose key has no tunnel is not missed.
pub without_callback :
    (m : Manager) (k : GoString) (before after : List GoString)
    → lookup k m.process_entries ≡ none
    → AreWatched m (before ++ k ∷ after)
    → AreWatched m (before ++ after)
without_callback m k before after absent w j b f g there = elim (w j b f g there) [
  | inl armed ↦ inl armed
  | inr waiting ↦ elim ((Elem-append j before (k ∷ after)).0 waiting) [
    | inl early ↦ inr ((Elem-append j before after).1 (inl early))
    | inr (inl same) ↦ absurd (ground (arith))
    | inr (inr late) ↦ inr ((Elem-append j before after).1 (inr late))
  ]
]

-- A timer is disarmed, and a process may be signalled.
module _ (m : Manager) (h : IsHeap m) (i : ℕ) (sent : List ℕ) where
  abbrev pub disarmed : Manager
  disarmed = record m { timers = delete i m.timers; signalled = sent }

  pub disarmed-IsHeap : IsHeap disarmed
  disarmed-IsHeap = record {
    no_dangling = h.no_dangling;
    alone = h.alone;
    own_timer = h.own_timer;
    address_below = h.address_below;
    timer_below = h.timer_below;
  }

  pub disarmed-IsPending :
      (pending : Map GoString Pending) → IsPending m pending → IsPending disarmed pending
  disarmed-IsPending pending p = record {
    read = p.read;
    read_alone = p.read_alone;
    absent = p.absent;
  }

  -- No tunnel has the timer.
  pub disarmed-AreWatched :
      (callbacks : List GoString)
      → AreWatched m callbacks
      → ((j : GoString) (b : ℕ) (f : ProcessEntry)
          → lookup j m.process_entries ≡ some b
          → lookup b m.heap ≡ some f
          → f.timer ≢ i)
      → AreWatched disarmed callbacks
  disarmed-AreWatched callbacks w other j b f g there = ground (
    arith,
    lookup-delete i f.timer m.timers,
    w j b f g there,
    other j b f g there,
    nat_beq_iff i f.timer,
  )

  -- Its callback is noted.
  pub due-AreWatched :
      (callbacks : List GoString) (t : ArmedTimer)
      → lookup i m.timers ≡ some t
      → AreWatched m callbacks
      → AreWatched disarmed (t.key ∷ callbacks)
  due-AreWatched callbacks t armed w j b f g there =
      ground (arith, lookup-delete i f.timer m.timers, w j b f g there, nat_beq_iff i f.timer)
