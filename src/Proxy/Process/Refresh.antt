-- ===== src/Proxy/Process/Refresh.antt =====
-- The TTL of a tunnel that is there starts again.
use capi_shell_mcp.Base.{
  ℕ, nat_beq, nat_beq_iff, nat_eq, GoString, str_eq, str_beq, str_beq_iff, lookup, insert, delete,
  lookup-insert, lookup-delete, none, some, if◌then◌else◌, ◌≡◌, arith, suc, true, Option-cases, inl,
  inr,
}
use capi_shell_mcp.Proxy.Process.{ProcessEntry, Manager, refresh_entry}
use capi_shell_mcp.Proxy.Process.Invariant.{entry_of, IsValid}

module _ (m : Manager) (v : IsValid m) (k : GoString) (a : ℕ) (e : ProcessEntry)
    (at_key : lookup k m.process_entries ≡ some a) (at_address : lookup a m.heap ≡ some e) where
  refresh_present :
      (due : ℕ)
      → refresh_entry a k due m ≡ record m {
        timers = insert m.next (record { due = due; key = k }) (delete e.timer m.timers);
        next = suc m.next;
        heap = insert a (record e { timer = m.next }) m.heap;
      }
  unfolding refresh_entry
  refresh_present due = ground arith

  -- No other key has the same object.
  address_alone :
      (j : GoString) (b : ℕ) → lookup j m.process_entries ≡ some b → nat_beq a b ≡ true → k ≡ j
  address_alone j b h same =
      ground (arith, v.one_to_one k e.timer, v.one_to_one j e.timer, nat_beq_iff a b)

  pub entry_of-refresh :
      (due : ℕ) (j : GoString)
      → entry_of (refresh_entry a k due m) j
        ≡ (if str_beq k j then some (record e { timer = m.next }) else entry_of m j)
  entry_of-refresh due j = elim (Option-cases (lookup j m.process_entries)) [
    | inl absent ↦ rw (refresh_present due) (ground (arith, str_beq_iff k j))
    | inr (b, there) ↦ rw (refresh_present due) (
        ground (
          arith,
          lookup-insert a b (record e { timer = m.next }) m.heap,
          address_alone j b there,
          str_beq_iff k j,
          nat_beq_iff a b,
        ))
  ]

  pub lookup_timer-refresh :
      (due i : ℕ)
      → lookup i (refresh_entry a k due m).timers ≡ (
          if nat_beq m.next i
          then some (record { due = due; key = k })
          else if nat_beq e.timer i
          then none
          else lookup i m.timers)
  lookup_timer-refresh due i = rw (refresh_present due) (
      ground (
        arith,
        lookup-delete e.timer i m.timers,
        lookup-insert m.next i (record { due = due; key = k }) (delete e.timer m.timers),
      ))

  refresh_entries : (due : ℕ) → (refresh_entry a k due m).process_entries ≡ m.process_entries
  refresh_entries due = rw (refresh_present due)

  refresh_next : (due : ℕ) → (refresh_entry a k due m).next ≡ suc m.next
  refresh_next due = rw (refresh_present due)

  refresh_heap :
      (due b : ℕ)
      → lookup b (refresh_entry a k due m).heap
        ≡ (if nat_beq a b then some (record e { timer = m.next }) else lookup b m.heap)
  refresh_heap due b =
      rw (refresh_present due) (lookup-insert a b (record e { timer = m.next }) m.heap)

  pub refresh_entry-IsValid : (due : ℕ) → IsValid (refresh_entry a k due m)
  refresh_entry-IsValid due = record {
    one_to_one = λ j i. ground (
      arith,
      entry_of-refresh due j,
      lookup_timer-refresh due i,
      v.one_to_one k e.timer,
      v.one_to_one j i,
      v.one_to_one k i,
      v.one_to_one j e.timer,
      v.timers_below m.next j,
      str_beq_iff k j,
      nat_beq_iff e.timer i,
      nat_beq_iff m.next i,
    );
    no_dangling =
        λ j b h. ground (arith, refresh_heap due b, refresh_entries due, v.no_dangling j b);
    timers_below = λ i j h. ground (
      arith,
      refresh_next due,
      lookup_timer-refresh due i,
      v.timers_below i j,
      nat_beq_iff m.next i,
    );
    heap_below = λ b f h. ground (
      arith,
      refresh_next due,
      refresh_heap due b,
      v.heap_below b f,
      v.heap_below a e,
      nat_beq_iff a b,
    );
  }
