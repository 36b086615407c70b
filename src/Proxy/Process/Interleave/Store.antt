-- ===== src/Proxy/Process/Interleave/Store.antt =====
-- A call stores its new tunnel.
use capi_shell_mcp.Base.{
  ℕ, suc, nat_eq, nat_beq, nat_beq_iff, GoString, str_eq, str_beq, str_beq_iff, Map, lookup, delete,
  lookup-insert, lookup-delete, none, some, List, ◌≡◌, ◌≢◌, inl, inr, if◌then◌else◌, Option-cases,
  arith, refl,
}
use capi_shell_mcp.Proxy.Process.{Manager, store_entry, after_func}
use capi_shell_mcp.Proxy.Process.Interleave.{Pending, refreshing}
use capi_shell_mcp.Proxy.Process.Interleave.Safe.{IsHeap, AreWatched, IsPending, AreOut}

module _ (m : Manager) (h : IsHeap m) where
  -- A new tunnel.
  module _ (k : GoString) (process due : ℕ) (absent : lookup k m.process_entries ≡ none) where
    stored_heap :
        (b : ℕ)
        → lookup b (store_entry k process due m).heap ≡ (
            if nat_beq (suc m.next) b
            then some (record { process = process; timer = m.next })
            else lookup b m.heap)
    unfolding store_entry after_func
    stored_heap b =
        lookup-insert (suc m.next) b (record { process = process; timer = m.next }) m.heap

    stored_entries :
        (j : GoString)
        → lookup j (store_entry k process due m).process_entries
          ≡ (if str_beq k j then some (suc m.next) else lookup j m.process_entries)
    unfolding store_entry after_func
    stored_entries j = lookup-insert k j (suc m.next) m.process_entries

    stored_timer :
        (i : ℕ)
        → lookup i (store_entry k process due m).timers
          ≡ (if nat_beq m.next i then some (record { due = due; key = k }) else lookup i m.timers)
    unfolding store_entry after_func
    stored_timer i = lookup-insert m.next i (record { due = due; key = k }) m.timers

    stored_next : (store_entry k process due m).next ≡ suc (suc m.next)
    unfolding store_entry after_func
    stored_next = refl

    -- No entry has the new address.
    fresh : (j : GoString) → lookup j m.process_entries ≢ some (suc m.next)
    fresh j g = elim (Option-cases (lookup (suc m.next) m.heap)) [
      | inl nothing ↦ h.no_dangling j (suc m.next) g nothing
      | inr (f, there) ↦ absurd (ground (arith, h.address_below (suc m.next) f there))
    ]

    pub stored-IsHeap : IsHeap (store_entry k process due m)
    stored-IsHeap = record {
      no_dangling = λ j b g. ground (arith, stored_heap b, stored_entries j, h.no_dangling j b);
      alone = λ i j b g f. ground (
        arith,
        stored_entries i,
        stored_entries j,
        h.alone i j b,
        fresh i,
        fresh j,
        str_beq_iff k i,
        str_beq_iff k j,
      );
      own_timer = λ b c f g hb hc same. ground (
        arith,
        stored_heap b,
        stored_heap c,
        h.own_timer b c f g,
        h.timer_below b f,
        h.timer_below c g,
        nat_beq_iff (suc m.next) b,
        nat_beq_iff (suc m.next) c,
      );
      address_below = λ b f g.
          ground
            (arith, stored_heap b, stored_next, h.address_below b f, nat_beq_iff (suc m.next) b);
      timer_below = λ b f g. ground (arith, stored_heap b, stored_next, h.timer_below b f);
    }

    pub stored-AreWatched :
        (callbacks : List GoString)
        → AreWatched m callbacks
        → AreWatched (store_entry k process due m) callbacks
    stored-AreWatched callbacks w j b f at_key at_address = ground (
      arith,
      stored_heap b,
      stored_entries j,
      stored_timer f.timer,
      stored_timer m.next,
      w j b f,
      fresh j,
      h.timer_below b f,
      nat_beq_iff (suc m.next) b,
      nat_beq_iff m.next f.timer,
      nat_beq_iff m.next m.next,
      str_beq_iff k j,
    )

    pub stored-IsPending :
        (pending : Map GoString Pending)
        → IsPending m pending
        → IsPending (store_entry k process due m) (delete k pending)
    stored-IsPending pending p = record {
      read = λ j b g. ground (arith, stored_heap b, lookup-delete k j pending, p.read j b);
      read_alone =
          λ i j b g f. read_alone_stored i j b (ground (arith, lookup-delete k j pending)) f;
      absent = λ j g.
          ground (arith, stored_entries j, lookup-delete k j pending, p.absent j, str_beq_iff k j);
    }
      where
        read_alone_stored :
            (i j : GoString) (b : ℕ)
            → lookup j pending ≡ some (refreshing b)
            → lookup i (store_entry k process due m).process_entries ≡ some b
            → i ≡ j
        read_alone_stored i j b g f = elim (Option-cases (lookup b m.heap)) [
          | inl nothing ↦ absurd (p.read j b g nothing)
          | inr (e, there) ↦
              ground (arith, stored_entries i, p.read_alone i j b g, h.address_below b e there)
        ]

    pub stored-AreOut :
        (killing : List ℕ) → AreOut m killing → AreOut (store_entry k process due m) killing
    stored-AreOut killing o b g = (
      ground (arith, stored_next, o b g),
      λ j f. ground (arith, stored_entries j, (o b g).0, (o b g).1 j),
    )
