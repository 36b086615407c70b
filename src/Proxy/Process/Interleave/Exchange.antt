-- ===== src/Proxy/Process/Interleave/Exchange.antt =====
-- A call exchanges the timer of the object that it has read.
use capi_shell_mcp.Base.{
  ℕ, suc, nat_eq, nat_beq, nat_beq_iff, GoString, str_eq, Map, lookup, insert, delete,
  lookup-insert, lookup-delete, none, some, List, ◌≡◌, if◌then◌else◌, arith,
}
use capi_shell_mcp.Proxy.Process.{Manager, ProcessEntry, refresh_entry}
use capi_shell_mcp.Proxy.Process.Interleave.{Pending}
use capi_shell_mcp.Proxy.Process.Interleave.Safe.{IsHeap, AreWatched, IsPending, AreOut}

module _ (m : Manager) (h : IsHeap m) where
  -- An exchange of the timer of a live object.
  module _ (a : ℕ) (e : ProcessEntry) (k : GoString) (due : ℕ)
      (there : lookup a m.heap ≡ some e) where
    abbrev pub exchanged : Manager
    exchanged = record m {
      timers = insert m.next (record { due = due; key = k }) (delete e.timer m.timers);
      next = suc m.next;
      heap = insert a (record e { timer = m.next }) m.heap;
    }

    exchanged_heap :
        (b : ℕ)
        → lookup b exchanged.heap
          ≡ (if nat_beq a b then some (record e { timer = m.next }) else lookup b m.heap)
    exchanged_heap b = lookup-insert a b (record e { timer = m.next }) m.heap

    pub exchanged-IsHeap : IsHeap exchanged
    exchanged-IsHeap = record {
      no_dangling = λ j b g. ground (arith, exchanged_heap b, h.no_dangling j b);
      alone = h.alone;
      own_timer = λ b c f g hb hc same. ground (
        arith,
        exchanged_heap b,
        exchanged_heap c,
        h.own_timer b c f g,
        h.timer_below b f,
        h.timer_below c g,
        nat_beq_iff a b,
        nat_beq_iff a c,
      );
      address_below = λ b f g.
          ground
            (arith, exchanged_heap b, h.address_below b f, h.address_below a e, nat_beq_iff a b);
      timer_below = λ b f g. ground (arith, exchanged_heap b, h.timer_below b f, nat_beq_iff a b);
    }

    pub refresh_lem : refresh_entry a k due m ≡ exchanged
    unfolding refresh_entry
    refresh_lem = ground (arith, there)

    exchanged_timer :
        (i : ℕ)
        → lookup i exchanged.timers ≡ (
            if nat_beq m.next i
            then some (record { due = due; key = k })
            else if nat_beq e.timer i
            then none
            else lookup i m.timers)
    exchanged_timer i = ground (
      arith,
      lookup-delete e.timer i m.timers,
      lookup-insert m.next i (record { due = due; key = k }) (delete e.timer m.timers),
    )

    pub exchanged-AreWatched :
        (callbacks : List GoString)
        → AreWatched m callbacks
        → ((j : GoString) → lookup j m.process_entries ≡ some a → j ≡ k)
        → AreWatched exchanged callbacks
    exchanged-AreWatched callbacks w mine j b f at_key at_address = ground (
      arith,
      exchanged_heap b,
      exchanged_timer f.timer,
      exchanged_timer m.next,
      w j b f at_key,
      mine j,
      h.own_timer a b e f there,
      h.timer_below b f,
      nat_beq_iff a b,
      nat_beq_iff m.next f.timer,
      nat_beq_iff e.timer f.timer,
    )

    pub exchanged-IsPending :
        (pending : Map GoString Pending)
        → IsPending m pending
        → IsPending exchanged (delete k pending)
    exchanged-IsPending pending p = record {
      read = λ j b g. ground (arith, exchanged_heap b, lookup-delete k j pending, p.read j b);
      read_alone = λ i j b g. p.read_alone i j b (ground (arith, lookup-delete k j pending));
      absent = λ j g. p.absent j (ground (arith, lookup-delete k j pending));
    }

    pub exchanged-AreOut : (killing : List ℕ) → AreOut m killing → AreOut exchanged killing
    exchanged-AreOut killing o b g = ground (arith, o b g)
